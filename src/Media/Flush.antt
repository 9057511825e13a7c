-- ===== src/Media/Flush.antt =====
-- The end of a session leaves no audio of it behind.
-- No audio is left to be played or sent.
use mybot.Media.Rings.{drain_ringbuf_lem, RingOk, contents_of}
use mybot.Common.{if◌then◌else◌, refl, if-keep, arith, true, ◌<◌, [], false, ◌≡◌}
use mybot.Media.Session.{
  Calls, flush_playback, flush_send, set_rtc_connected, flush_session, end_session,
}
use mybot.Media.{frame_bytes, discard_pending_playback, Pipeline, Build}

pub record Flushed (b : Build) (p : Pipeline) : Type 0 where
  pub offline : p.rtc_connected ≡ false
  pub no_request : p.announce_clear_pb ≡ false
  pub nothing_pending : p.pb_pending_frames ≡ 0
  pub cap_empty : contents_of p.cap_ringbuf ≡ []
  pub pb_empty : contents_of p.pb_ringbuf ≡ []
  pub ref_empty : (if b.cloud_aec then contents_of p.ref_ringbuf else []) ≡ []

-- With a positive frame length, sound rings and three worker queues that take the calls, the end of a
-- session succeeds and leaves RTC off, no flush request, nothing pending, and the capture and playback
-- rings empty, and with echo cancellation the reference ring too.
pub end_session-Flushed :
    (b : Build) (p : Pipeline)
    → 0 < b.ptime_ms
    → RingOk p.cap_ringbuf
    → RingOk p.pb_ringbuf
    → RingOk p.ref_ringbuf
    → (p.cap_mpq ≡ true) × (p.pb_mpq ≡ true) × (p.send_mpq ≡ true)
    → (c : Calls) → (c.on_capture ≡ true) × (c.on_playback ≡ true) × (c.on_send ≡ true)
    → ((end_session b c p).0 ≡ true) × Flushed b (end_session b c p).1
unfolding end_session flush_session set_rtc_connected flush_send flush_playback
    discard_pending_playback
end_session-Flushed b p h v w x (i, j, k) c (l, m, n) =
    let cap = drain_ringbuf_lem (frame_bytes b) p.cap_ringbuf v (omega arith) in
    let pb = drain_ringbuf_lem (frame_bytes b) p.pb_ringbuf w (omega arith) in
    let ref = drain_ringbuf_lem (frame_bytes b) p.ref_ringbuf x (omega arith) in
    rw (i, j, k, l, m, n)
      (
        refl,
        if-keep (Flushed b) b.cloud_aec
            (λ t. record {
              offline = refl;
              no_request = refl;
              nothing_pending = refl;
              cap_empty = cap.1;
              pb_empty = pb.1;
              ref_empty = rw t ref.1;
            })
            (λ t. record {
              offline = refl;
              no_request = refl;
              nothing_pending = refl;
              cap_empty = cap.1;
              pb_empty = pb.1;
              ref_empty = rw t refl;
            }),
      )
