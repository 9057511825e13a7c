-- ===== src/Media/Reference.antt =====
-- The echo reference that is sent or flushed is the RTC audio that the device played.
use mybot.Media.Buffers.{is_done, at_least, bytes_of, drain_ringbuf, drained_bytes}
use mybot.Common.{
  append_assoc, sym, ◌++◌, ap, some, ◌∙◌, ltb, ◌==◌, ◌||◌, ◌*◌, not, if-keep, [], length,
  if◌then◌else◌, pos, arith, true, ◌∷◌, ◌<◌, ◌≡◌, ℕ, Bool, List,
}
use mybot.Media.{frame_samples, frame_bytes, Build, Pipeline, discard_pending_playback}
use mybot.Media.Rings.{contents_of, write_ok, read_parts, drain_ringbuf_lem}
use mybot.Media.Valid.{Good, other_calls-Untouched, Untouched-Good}
use mybot.Media.Pending.{refresh-Good, preempt-Good, prepare-Good}
use mybot.Media.Echo.{room_of, write_pending-Good}
use mybot.Media.Session.{OtherCall, other_calls, flush_playback, flush_send}
use mybot.Media.Drained.{drained_bytes_lem}
use mybot.Media.Playback.{
  Turn, refresh, preempt, prepare_pending_playback, write_pending, has_reference_room,
  playback_timer,
}
use mybot.Media.Capture.{capture_timer, capture_frames, send_timer, send_with_reference}
use mybot.Ringbuf.{get_data_size, read, write}
use mybot.Announce.{get_generation, is_active, Frame}

Ready : Build → Bool × Pipeline → Type 0
Ready b (ready, p) = Good b p × (ready ≡ true → 0 < p.pb_pending_frames)

ready_frames :
    (b : Build) (deliver : ℕ → List Frame) (active : Bool) (generation : ℕ) (p : Pipeline)
    → 0 < b.ptime_ms
    → (prepare_pending_playback b deliver active generation p).0 ≡ true
    → 0 < (prepare_pending_playback b deliver active generation p).1.pb_pending_frames
unfolding prepare_pending_playback
ready_frames b deliver active generation p h e = ground arith

last_lem :
    (b : Build) (t : Turn) (x : Bool × Pipeline)
    → b.cloud_aec ≡ true
    → Ready b x
    → Good b (
        if not x.0 || not (has_reference_room b x.1)
        then x.1
        else write_pending b t (other_calls t.at_check x.1))
unfolding Ready
last_lem b t (ready, s) e (v, some_frames) =
    if-keep (Good b) (not ready || not (has_reference_room b s)) (λ k. v)
      (λ k.
        let u = other_calls-Untouched t.at_check s in
        let low : 0 < s.pb_pending_frames = some_frames (ground arith) in
        write_pending-Good b t (other_calls t.at_check s) e (omega (arith, u.frames))
          (Untouched-Good u v) (room_of b u (ground arith)))

playback_timer-Good :
    (b : Build) (t : Turn) (p : Pipeline)
    → b.cloud_aec ≡ true
    → 0 < b.ptime_ms
    → Good b p
    → Good b (playback_timer b t p)
unfolding playback_timer Ready
playback_timer-Good b t p e h v =
    let q = other_calls t.at_start (refresh b p) in
    let fresh =
      Untouched-Good (other_calls-Untouched t.at_start (refresh b p)) (refresh-Good b p h v) in
    let r = preempt b (is_active q.announce) q in
    let ready = preempt-Good b (is_active q.announce) q h fresh in
    let staged =
      if-keep (Ready b) (r.pb_pending_frames == 0)
        (λ k. (
          prepare-Good b t.deliver (is_active q.announce) (get_generation p.announce) r h
              (ground arith) ready,
          ready_frames b t.deliver (is_active q.announce) (get_generation p.announce) r h,
        ))
        (λ k. (ready, λ o. ground arith)) in
    if-keep (Good b) (not p.running) (λ k. v)
      (λ k.
        last_lem b t
          (if r.pb_pending_frames == 0
            then prepare_pending_playback b t.deliver (is_active q.announce)
                (get_generation p.announce) r
            else (true, r))
          e staged)

capture_timer-Good :
    (b : Build) (captured : List Frame) (p : Pipeline)
    → Good b p
    → Good b (capture_timer b captured p)
unfolding capture_timer capture_frames
capture_timer-Good b captured p v =
    let ok = write_ok p.cap_ringbuf (bytes_of captured) (length captured * 2) v.cap_ok in
    if-keep (Good b)
      (not p.running
        || length captured == 0
        || ltb (frame_samples b) (length captured)
        || not p.rtc_connected)
      (λ k. v)
      (λ k.
        if-keep (Good b)
          (is_done (length captured * 2)
            (write p.cap_ringbuf (some (bytes_of captured)) (pos (length captured * 2))).0)
          (λ k. record {
            cap_ok = ok;
            pb_ok = v.pb_ok;
            ref_ok = v.ref_ok;
            array_ok = v.array_ok;
            pending = v.pending;
            mirror = v.mirror;
          })
          (λ k. record {
            cap_ok = ok;
            pb_ok = v.pb_ok;
            ref_ok = v.ref_ok;
            array_ok = v.array_ok;
            pending = v.pending;
            mirror = v.mirror;
          }))

send_timer-Good : (b : Build) (p : Pipeline) → Good b p → Good b (send_timer b p)
unfolding send_timer send_with_reference
send_timer-Good b p v =
    let (ok, parts) = read_parts p.cap_ringbuf (frame_bytes b) v.cap_ok in
    let (ref_ok, moved) = read_parts p.ref_ringbuf (frame_bytes b) v.ref_ok in
    let out = (read p.ref_ringbuf true (pos (frame_bytes b))).1 in
    if-keep (Good b)
      (not p.running
        || not p.rtc_connected
        || not (at_least (frame_bytes b) (get_data_size p.cap_ringbuf)))
      (λ k. v)
      (λ k.
        if-keep (Good b)
          (not (is_done (frame_bytes b) (read p.cap_ringbuf true (pos (frame_bytes b))).0))
          (λ k. record {
            cap_ok = ok;
            pb_ok = v.pb_ok;
            ref_ok = v.ref_ok;
            array_ok = v.array_ok;
            pending = v.pending;
            mirror = v.mirror;
          })
          (λ k.
            if-keep (Good b) b.cloud_aec
              (λ k.
                if-keep (Good b) (at_least (frame_bytes b) (get_data_size p.ref_ringbuf))
                  (λ k. record {
                    cap_ok = ok;
                    pb_ok = v.pb_ok;
                    ref_ok = ref_ok;
                    array_ok = v.array_ok;
                    pending = v.pending;
                    mirror =
                        v.mirror
                        ∙ ap (λ x. p.ref_read ++ x) moved
                        ∙ sym (
                            append_assoc p.ref_read out
                              (contents_of (read p.ref_ringbuf true (pos (frame_bytes b))).2));
                  })
                  (λ k. record {
                    cap_ok = ok;
                    pb_ok = v.pb_ok;
                    ref_ok = v.ref_ok;
                    array_ok = v.array_ok;
                    pending = v.pending;
                    mirror = v.mirror;
                  }))
              (λ k. record {
                cap_ok = ok;
                pb_ok = v.pb_ok;
                ref_ok = v.ref_ok;
                array_ok = v.array_ok;
                pending = v.pending;
                mirror = v.mirror;
              })))

flush_playback-Good :
    (b : Build) (p : Pipeline) → 0 < b.ptime_ms → Good b p → Good b (flush_playback b p)
unfolding flush_playback discard_pending_playback
flush_playback-Good b p h v = record {
  cap_ok = v.cap_ok;
  pb_ok = (drain_ringbuf_lem (frame_bytes b) p.pb_ringbuf v.pb_ok (omega arith)).0;
  ref_ok = v.ref_ok;
  array_ok = v.array_ok;
  pending = λ h. absurd (omega arith);
  mirror = v.mirror;
}

flush_send-Good : (b : Build) (p : Pipeline) → 0 < b.ptime_ms → Good b p → Good b (flush_send b p)
unfolding flush_send
flush_send-Good b p h v =
    let cap_ok = (drain_ringbuf_lem (frame_bytes b) p.cap_ringbuf v.cap_ok (omega arith)).0 in
    if-keep (Good b) b.cloud_aec
      (λ k. record {
        cap_ok = cap_ok;
        pb_ok = v.pb_ok;
        ref_ok = (drain_ringbuf_lem (frame_bytes b) p.ref_ringbuf v.ref_ok (omega arith)).0;
        array_ok = v.array_ok;
        pending = v.pending;
        mirror =
            v.mirror
            ∙ ap (λ x. p.ref_read ++ x) (drained_bytes_lem (frame_bytes b) p.ref_ringbuf v.ref_ok)
            ∙ sym (
                append_assoc p.ref_read (drained_bytes (frame_bytes b) p.ref_ringbuf)
                  (contents_of (drain_ringbuf (frame_bytes b) p.ref_ringbuf)));
      })
      (λ k. record {
        cap_ok = cap_ok;
        pb_ok = v.pb_ok;
        ref_ok = v.ref_ok;
        array_ok = v.array_ok;
        pending = v.pending;
        mirror = v.mirror;
      })

-- A turn of one worker, its part of the flush of a session, or calls of other threads.
pub data Step : Type 0 where
  playback : Turn → Step
  capture : List Frame → Step
  send : Step
  playback_flush : Step
  send_flush : Step
  others : List OtherCall → Step

unfoldable pub step : Build → Step → Pipeline → Pipeline
step b (playback t) p = playback_timer b t p
step b (capture frames) p = capture_timer b frames p
step b send p = send_timer b p
step b playback_flush p = flush_playback b p
step b send_flush p = flush_send b p
step b (others is) p = other_calls is p

unfoldable pub run : Build → List Step → Pipeline → Pipeline
run b [] p = p
run b (s ∷ ss) p = run b ss (step b s p)

step-Good :
    (b : Build) (s : Step) (p : Pipeline)
    → b.cloud_aec ≡ true
    → 0 < b.ptime_ms
    → Good b p
    → Good b (step b s p)
unfolding step
step-Good b (playback t) p e h v = playback_timer-Good b t p e h v
step-Good b (capture frames) p e h v = capture_timer-Good b frames p v
step-Good b send p e h v = send_timer-Good b p v
step-Good b playback_flush p e h v = flush_playback-Good b p h v
step-Good b send_flush p e h v = flush_send-Good b p h v
step-Good b (others is) p e h v = Untouched-Good (other_calls-Untouched is p) v

-- With echo cancellation in the cloud, a positive frame length and a pipeline in which this holds, in
-- whatever order the workers' turns, their flushes of a session and the calls of other threads fall, the
-- rings stay sound, the pending array keeps the samples of one frame and what is pending lies inside it,
-- and the RTC audio that the device took is, byte for byte and in order, what the send worker has read of
-- the reference, in its turns and flushes, followed by what the reference ring holds.
pub run-Good :
    (b : Build) (ss : List Step) (p : Pipeline)
    → b.cloud_aec ≡ true
    → 0 < b.ptime_ms
    → Good b p
    → Good b (run b ss p)
unfolding run
run-Good b [] p e h v = v
run-Good b (s ∷ ss) p e h v = run-Good b ss (step b s p) e h (step-Good b s p e h v)
