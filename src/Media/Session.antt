-- ===== src/Media/Session.antt =====
-- What other threads call while the workers run, and the flush between two sessions.
use mybot.Media.{Build, Pipeline, frame_bytes, discard_pending_playback}
use mybot.Media.Buffers.{drain_ringbuf, drained_bytes}
use mybot.Ringbuf.{write}
use mybot.Announce.{Sound, play_pair_code, announce_stop, is_active, get_generation}
use mybot.Common.{
  ◌++◌, pos, none, ltb, some, ◌||◌, [], not, Text, ◌==◌, ◌∷◌, length, ◌&&◌, Option, true, List, ℕ,
  false, if◌then◌else◌, Bool, int_max,
}

unfoldable pub set_rtc_connected : Bool → Pipeline → Pipeline
set_rtc_connected connected p =
    if connected
    then record p { rtc_connected = connected }
    else record p { rtc_connected = connected; announce_clear_pb = true }

unfoldable pub push_remote_audio : List ℕ → Pipeline → Pipeline
push_remote_audio data_in p =
    if length data_in == 0
      || not p.running
      || not p.rtc_connected
      || p.announce_clear_pb
      || is_active p.announce
    then p
    else if ltb int_max (length data_in)
    then p
    else record p { pb_ringbuf = (write p.pb_ringbuf (some data_in) (pos (length data_in))).1 }

-- `play_prompt` of the only kind of prompt, with a pair code.
unfoldable pub play_prompt : (ℕ → Sound → Option ℕ) → Option Text → Pipeline → Bool × Pipeline
play_prompt open_sound none p = (false, p)
play_prompt open_sound (some code) p =
    let (played, announce') = play_pair_code open_sound (some code) p.announce in
    (played, record p { announce = announce' })

unfoldable pub stop_prompt : Pipeline → Pipeline
stop_prompt p = record p { announce = announce_stop p.announce }

unfoldable pub flush_playback : Build → Pipeline → Pipeline
flush_playback b p =
    let drained =
      discard_pending_playback
        (record p { pb_ringbuf = drain_ringbuf (frame_bytes b) p.pb_ringbuf }) in
    record drained { pb_pending_generation = get_generation p.announce; announce_clear_pb = false }

unfoldable pub flush_send : Build → Pipeline → Pipeline
flush_send b p =
    if b.cloud_aec
    then record p {
      cap_ringbuf = drain_ringbuf (frame_bytes b) p.cap_ringbuf;
      ref_ringbuf = drain_ringbuf (frame_bytes b) p.ref_ringbuf;
      ref_read = p.ref_read ++ drained_bytes (frame_bytes b) p.ref_ringbuf;
    }
    else record p { cap_ringbuf = drain_ringbuf (frame_bytes b) p.cap_ringbuf }

-- Whether the queues of the three workers take the calls, which then run on the workers in this order.
pub record Calls : Type 0 where
  pub on_capture : Bool
  pub on_playback : Bool
  pub on_send : Bool

unfoldable pub flush_session : Build → Calls → Pipeline → Bool × Pipeline
flush_session b c p =
    let after_playback = if p.pb_mpq && c.on_playback then flush_playback b p else p in
    let after_send =
      if p.send_mpq && c.on_send then flush_send b after_playback else after_playback in
    (
      not (p.cap_mpq && not c.on_capture)
          && not (p.pb_mpq && not c.on_playback)
          && not (p.send_mpq && not c.on_send),
      after_send,
    )

unfoldable pub end_session : Build → Calls → Pipeline → Bool × Pipeline
end_session b c p = flush_session b c (set_rtc_connected false p)

-- A call that falls between two steps of a worker.
pub data OtherCall : Type 0 where
  audio : List ℕ → OtherCall
  connected : Bool → OtherCall
  play : (ℕ → Sound → Option ℕ) → Option Text → OtherCall
  stop : OtherCall

unfoldable pub other_call : OtherCall → Pipeline → Pipeline
other_call (audio bytes) p = push_remote_audio bytes p
other_call (connected c) p = set_rtc_connected c p
other_call (play open_sound code) p = (play_prompt open_sound code p).1
other_call stop p = stop_prompt p

unfoldable pub other_calls : List OtherCall → Pipeline → Pipeline
other_calls [] p = p
other_calls (i ∷ is) p = other_calls is (other_call i p)
