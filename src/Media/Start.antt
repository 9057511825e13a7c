-- ===== src/Media/Start.antt =====
-- Starting and stopping the pipeline.
use mybot.Common.{
  pos, none, ℕ, ℤ, List, ◌||◌, true, some, not, Bool, ◌&&◌, Option, if◌then◌else◌, false,
}
use mybot.Media.{Build, Pipeline, ringbuf_size}
use mybot.Announce.{announce_init, announce_stop, announce_deinit}
use mybot.Audio.{VolumeOps, context_init, device_volume_init, device_volume_deinit}
use mybot.Ringbuf.{Ring, create, Created, ring, null, undefined}

-- What the platform and the allocator answer while the pipeline starts.
pub record Boot : Type 0 where
  pub has_send : Bool
  pub capture_ops : Bool
  pub playback_ops : Bool
  pub volume_ops : Option VolumeOps
  pub announce_ops : Bool
  pub announce_locked : Bool
  pub announce_started : Bool
  pub cap_init : Bool
  pub pb_init : Bool
  pub volume_started : Bool
  pub volume_reported : Option ℤ
  pub cap_storage : Bool × Option (List ℕ)
  pub pb_storage : Bool × Option (List ℕ)
  pub ref_storage : Bool × Option (List ℕ)
  pub cap_start : Bool
  pub pb_start : Bool
  pub cap_worker : Bool
  pub pb_worker : Bool
  pub send_worker : Bool

-- Whether the workers' queues can be destroyed.
pub record Joins : Type 0 where
  pub send_joined : Bool
  pub cap_joined : Bool
  pub pb_joined : Bool

abbrev pub Result : Type 0
Result = Bool × Pipeline

-- The next step, unless one has failed.
abbrev pub and_then : Result → (Pipeline → Result) → Result
and_then (true, p) next = next p
and_then (false, p) next = (false, p)

abbrev pub ring_of : Created → Option Ring
ring_of (ring rb) = some rb
ring_of null = none
ring_of undefined = none

abbrev pub created_ring : Bool × Option (List ℕ) → Option Ring
created_ring (got, storage) = ring_of (create (pos ringbuf_size) got storage)

abbrev pub is_set : Option Ring → Bool
is_set none = false
is_set (some rb) = true

unfoldable pub start_devices : Boot → Pipeline → Result
start_devices boot p =
    if not p.audio.capture_ops || not p.audio.playback_ops
    then (false, p)
    else (let q = record p {
      announce =
          (announce_init boot.announce_ops boot.announce_locked boot.announce_started p.announce).1;
    } in
        if not boot.cap_init
        then (false, q)
        else if not boot.pb_init
        then (false, record q { cap_ctx = true })
        else (
          true,
          record q {
            cap_ctx = true;
            pb_ctx = true;
            audio = (device_volume_init boot.volume_started boot.volume_reported q.audio).1;
          },
        ))

unfoldable pub start_buffers : Build → Boot → Pipeline → Result
start_buffers b boot p =
    let q = record p {
      cap_ringbuf = created_ring boot.cap_storage;
      pb_ringbuf = created_ring boot.pb_storage;
    } in
    if not (is_set q.cap_ringbuf) || not (is_set q.pb_ringbuf)
    then (false, q)
    else if not b.cloud_aec
    then (true, q)
    else (
      is_set (created_ring boot.ref_storage),
      record q { ref_ringbuf = created_ring boot.ref_storage },
    )

unfoldable pub start_workers : Boot → Pipeline → Result
start_workers boot p =
    if not boot.cap_start
    then (false, p)
    else if not boot.pb_start
    then (false, record p { cap_started = true })
    else (
      boot.cap_worker && boot.pb_worker && boot.send_worker,
      record p {
        cap_started = true;
        pb_started = true;
        cap_mpq = boot.cap_worker;
        pb_mpq = boot.pb_worker;
        send_mpq = boot.send_worker;
      },
    )

unfoldable pub stop_devices : Pipeline → Pipeline
stop_devices p = record p {
  running = false;
  rtc_connected = false;
  cap_started = p.cap_started && not p.audio.capture_ops;
  pb_started = p.pb_started && not p.audio.playback_ops;
}

unfoldable pub stop_workers : Joins → Pipeline → Result
stop_workers j p =
    if p.send_mpq && not j.send_joined
    then (false, p)
    else if p.cap_mpq && not j.cap_joined
    then (false, record p { send_mpq = false })
    else if p.pb_mpq && not j.pb_joined
    then (false, record p { send_mpq = false; cap_mpq = false })
    else (true, record p { send_mpq = false; cap_mpq = false; pb_mpq = false })

unfoldable pub release_devices : Pipeline → Pipeline
release_devices p = record p {
  announce = announce_stop p.announce;
  cap_ctx = p.cap_ctx && not p.audio.capture_ops;
  pb_ctx = p.pb_ctx && not p.audio.playback_ops;
  audio = device_volume_deinit p.audio;
  stop_complete = true;
}

unfoldable pub pipeline_stop : Joins → Pipeline → Result
pipeline_stop j p =
    if p.stop_complete
    then (true, p)
    else and_then (stop_workers j (stop_devices p)) (λ q. (true, release_devices q))

unfoldable pub pipeline_destroy : Pipeline → Result
pipeline_destroy p = if not p.stop_complete then (false, p) else (
  true,
  record p {
    announce = announce_deinit p.announce;
    cap_ringbuf = none;
    pb_ringbuf = none;
    ref_ringbuf = none;
    initialized = false;
  },
)

-- The cleanup of a start that failed.
unfoldable pub start_failed : Joins → Result → Result
start_failed j (true, p) = (true, p)
start_failed j (false, p) = (false, (and_then (pipeline_stop j p) pipeline_destroy).1)

unfoldable pub in_use : Pipeline → Bool
in_use p = p.running || p.cap_ctx || p.pb_ctx || is_set p.cap_ringbuf || is_set p.pb_ringbuf

unfoldable pub pipeline_start : Build → Boot → Joins → Pipeline → Result
pipeline_start b boot j p =
    if not p.initialized || not boot.has_send || in_use p
    then (false, p)
    else (let q = record p {
      stop_complete = false;
      audio = context_init boot.capture_ops boot.playback_ops boot.volume_ops;
      running = true;
    } in
        start_failed j
          (and_then (and_then (start_devices boot q) (start_buffers b boot)) (start_workers boot)))
