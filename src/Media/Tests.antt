-- ===== src/Media/Tests.antt =====
-- A start, a turn of playback and the end of a session at concrete inputs.
use mybot.Audio.{device_get_volume}
use mybot.Media.Preempt.{announcement_wins}
use mybot.Media.Volume.{adjust-current, adjust_volume, current_volume}
use mybot.Announce.{is_active, publish, play_opened, play_pair_code, unused, Sound, announce_init}
use mybot.Media.Flush.{end_session-Flushed, Flushed}
use mybot.Media.Playback.{refresh, playback_timer, Turn}
use mybot.Media.Reference.{send, playback, others, send_flush, playback_flush, run-Good, Step, run}
use mybot.Common.{
  codes, Option, none, ◌∷◌, pos, arith, false, some, refl, ◌≡◌, [], replicate, true, ℕ, List,
}
use mybot.Media.Session.{
  play_prompt, connected, push_remote_audio, other_call, other_calls, play, audio, stop,
  end_session,
}
use mybot.Media.Valid.{heard, Good}
use mybot.Media.Rings.{contents_of, RingOk}
use mybot.Media.Start.{pipeline_start, Joins, Boot}
use mybot.Ringbuf.{Ring}
use mybot.Media.Resources.{pipeline_start-AllOrNothing, Released, AllOrNothing}
use mybot.Ringbuf.Window.{contents}
use mybot.Announce.{get_generation, close_queued_sounds, open_digits, digit_sounds}
use mybot.Media.{Pipeline, pipeline_init, Build}

abbrev build : Build
build = record { ptime_ms = 1; cloud_aec = true }

abbrev joins : Joins
joins = record { send_joined = true; cap_joined = true; pb_joined = true }

-- The last worker is not created.
abbrev boot : Boot
boot = record {
  has_send = true;
  capture_ops = true;
  playback_ops = true;
  volume_ops = some (record { can_set = true; can_get = false });
  announce_ops = true;
  announce_locked = true;
  announce_started = true;
  cap_init = true;
  pb_init = true;
  volume_started = true;
  volume_reported = none;
  cap_storage = (true, some []);
  pb_storage = (true, some []);
  ref_storage = (true, some []);
  cap_start = true;
  pb_start = true;
  cap_worker = true;
  pb_worker = true;
  send_worker = false;
}

init-Released : Released (pipeline_init build)
unfolding pipeline_init
init-Released = record {
  idle = refl;
  no_contexts = (refl, refl);
  devices_stopped = (refl, refl);
  no_workers = (refl, refl, refl);
  no_buffers = (refl, refl, refl);
  no_volume = refl;
  no_prompt = refl;
}

pipeline_start-AllOrNothing_example :
    AllOrNothing build (pipeline_start build boot joins (pipeline_init build))
pipeline_start-AllOrNothing_example =
    pipeline_start-AllOrNothing build boot joins (pipeline_init build) (refl, refl, refl)
      init-Released

abbrev empty_ring : Ring
empty_ring = record { size = 65; buf = replicate 65 0; head = 0; tail = 0 }

empty_ring-Ok : RingOk (some empty_ring)
unfolding RingOk
empty_ring-Ok = ground arith

-- A session, in which the RTC side has sent a frame.
abbrev session : Pipeline
session = record (pipeline_init build) {
  running = true;
  rtc_connected = true;
  cap_mpq = true;
  pb_mpq = true;
  send_mpq = true;
  cap_ringbuf = some empty_ring;
  pb_ringbuf = some empty_ring;
  ref_ringbuf = some empty_ring;
}

session-Good : Good build session
unfolding pipeline_init heard contents_of contents
session-Good = record {
  cap_ok = empty_ring-Ok;
  pb_ok = empty_ring-Ok;
  ref_ok = empty_ring-Ok;
  array_ok = refl;
  pending = λ h. absurd (omega arith);
  mirror = refl;
}

-- The device takes 10 samples of the 16, then the other 6.
abbrev turn : ℕ → Turn
turn n = record { deliver = λ i. []; accepted = pos n; at_start = []; at_check = []; at_write = [] }

abbrev turns : List Step
turns =
    others (audio (replicate 32 7) ∷ [])
    ∷ playback (turn 10)
    ∷ playback (turn 6)
    ∷ send
    ∷ others (connected false ∷ [])
    ∷ send_flush
    ∷ playback_flush
    ∷ []

run-Good_example : Good build (run build turns session)
run-Good_example = run-Good build turns session refl (omega arith) session-Good

end_session-Flushed_example :
    ((end_session build
        (record { on_capture = true; on_playback = true; on_send = true })
        session).0
      ≡ true)
    × Flushed build
        (end_session build
          (record { on_capture = true; on_playback = true; on_send = true })
          session).1
end_session-Flushed_example =
    end_session-Flushed build session (omega arith) empty_ring-Ok empty_ring-Ok empty_ring-Ok
      (refl, refl, refl) (record { on_capture = true; on_playback = true; on_send = true })
      (refl, refl, refl)

-- A prompt starts while RTC audio waits in the ring.
abbrev opens : ℕ → Sound → Option ℕ
opens i s = some i

abbrev announcing : Pipeline
announcing = record session { announce = (announce_init true true true unused).1 }

abbrev preempting : Turn
preempting = record {
  deliver = λ i. (1, 0) ∷ [];
  accepted = pos 16;
  at_start = audio (replicate 32 7) ∷ play opens (some (codes "42")) ∷ [];
  at_check = stop ∷ [];
  at_write = connected false ∷ [];
}

announcement_starts :
    is_active (other_calls preempting.at_start (refresh build announcing)).announce ≡ true
unfolding other_calls other_call push_remote_audio play_prompt play_pair_code play_opened publish
    is_active refresh pipeline_init get_generation announce_init close_queued_sounds open_digits
    digit_sounds
announcement_starts = refl

announcement_wins_example :
    heard (playback_timer build preempting announcing).played ≡ heard announcing.played
announcement_wins_example = announcement_wins build preempting announcing announcement_starts

-- A device at volume 60 that reports none goes up by 70 to 100, which it is handed.
abbrev at_60 : Pipeline
at_60 = record session {
  audio = record session.audio {
    volume_active = true;
    volume_ops = some (record { can_set = true; can_get = false });
    device_volume = pos 60;
  };
}

adjust_60 : current_volume none at_60 ≡ some (pos 60)
unfolding current_volume device_get_volume
adjust_60 = refl

adjust-current_example : adjust_volume true none (pos 70) at_60 ≡ (
  true,
  record at_60 {
    audio = record at_60.audio { device_volume = pos 100; handed = pos 100 ∷ at_60.audio.handed };
  },
)
adjust-current_example = adjust-current none (pos 70) (pos 60) at_60 refl adjust_60 refl
