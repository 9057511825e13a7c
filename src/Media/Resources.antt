-- ===== src/Media/Resources.antt =====
-- A start that fails gives back what it took, and one that succeeds has all of it.
use mybot.Common.{◌∙◌, not, if-keep, refl, arith, none, ℤ, ◌||◌, Option, true, false, Bool, ◌≡◌}
use mybot.Media.{Build, Pipeline}
use mybot.Media.Start.{
  created_ring, in_use, Boot, pipeline_start, start_buffers, start_devices, Result, start_workers,
  start_failed, Joins, and_then, is_set, stop_devices, stop_workers, release_devices, pipeline_stop,
  pipeline_destroy,
}
use mybot.Announce.{Announce, close_queued_sounds, announce_stop, announce_deinit}
use mybot.Audio.{context_init, Audio, device_volume_init, device_volume_deinit}

-- No device, worker, buffer or prompt is held.
pub record Released (p : Pipeline) : Type 0 where
  pub idle : p.running ≡ false
  pub no_contexts : (p.cap_ctx ≡ false) × (p.pb_ctx ≡ false)
  pub devices_stopped : (p.cap_started ≡ false) × (p.pb_started ≡ false)
  pub no_workers : (p.cap_mpq ≡ false) × (p.pb_mpq ≡ false) × (p.send_mpq ≡ false)
  pub no_buffers : (p.cap_ringbuf ≡ none) × (p.pb_ringbuf ≡ none) × (p.ref_ringbuf ≡ none)
  pub no_volume : p.audio.volume_active ≡ false
  pub no_prompt : p.announce.active ≡ false

pub record Acquired (b : Build) (p : Pipeline) : Type 0 where
  pub on : p.running ≡ true
  pub contexts : (p.cap_ctx ≡ true) × (p.pb_ctx ≡ true)
  pub devices_started : (p.cap_started ≡ true) × (p.pb_started ≡ true)
  pub workers : (p.cap_mpq ≡ true) × (p.pb_mpq ≡ true) × (p.send_mpq ≡ true)
  pub buffers :
      (is_set p.cap_ringbuf ≡ true)
      × (is_set p.pb_ringbuf ≡ true)
      × (is_set p.ref_ringbuf ≡ b.cloud_aec)

-- A context or a started device has the operations that release it.
record Held (p : Pipeline) : Type 0 where
  fresh : p.stop_complete ≡ false
  cap_ops : (p.cap_ctx || p.cap_started) ≡ true → p.audio.capture_ops ≡ true
  pb_ops : (p.pb_ctx || p.pb_started) ≡ true → p.audio.playback_ops ≡ true

deinit_inactive : (a : Announce) → (announce_deinit a).active ≡ false
unfolding announce_deinit close_queued_sounds
deinit_inactive a = ground arith

workers_joined :
    (j : Joins) (p : Pipeline)
    → (j.send_joined ≡ true) × (j.cap_joined ≡ true) × (j.pb_joined ≡ true)
    → stop_workers j p ≡ (true, record p { send_mpq = false; cap_mpq = false; pb_mpq = false })
unfolding stop_workers
workers_joined j p (s, c, d) = ground arith

abbrev stopped : Pipeline → Pipeline
stopped p = record (stop_devices p) { send_mpq = false; cap_mpq = false; pb_mpq = false }

stop-joined :
    (j : Joins) (p : Pipeline)
    → (j.send_joined ≡ true) × (j.cap_joined ≡ true) × (j.pb_joined ≡ true)
    → p.stop_complete ≡ false
    → pipeline_stop j p ≡ (true, release_devices (stopped p))
unfolding pipeline_stop
stop-joined j p joined e = simp (workers_joined j (stop_devices p) joined, e)

destroyed-Released :
    (p : Pipeline) → Held p → Released (pipeline_destroy (release_devices (stopped p))).1
unfolding pipeline_destroy stop_devices release_devices device_volume_deinit
destroyed-Released p h = record {
  idle = refl;
  no_contexts = (ground (arith, h.cap_ops, h.pb_ops), ground (arith, h.cap_ops, h.pb_ops));
  devices_stopped = (ground (arith, h.cap_ops, h.pb_ops), ground (arith, h.cap_ops, h.pb_ops));
  no_workers = (refl, refl, refl);
  no_buffers = (refl, refl, refl);
  no_volume = refl;
  no_prompt = deinit_inactive (announce_stop p.announce);
}

cleanup :
    (j : Joins) (p : Pipeline)
    → (j.send_joined ≡ true) × (j.cap_joined ≡ true) × (j.pb_joined ≡ true)
    → Held p
    → Released (and_then (pipeline_stop j p) pipeline_destroy).1
cleanup j p joined h = rw (stop-joined j p joined h.fresh) (destroyed-Released p h)

volume_ops_kept :
    (started : Bool) (reported : Option ℤ) (a : Audio)
    → ((device_volume_init started reported a).1.capture_ops ≡ a.capture_ops)
      × ((device_volume_init started reported a).1.playback_ops ≡ a.playback_ops)
unfolding device_volume_init
volume_ops_kept started reported a = ground arith

-- Whatever a step answers, what it took can be released, and if it succeeds `Q` holds too.
Step : (Pipeline → Type 0) → Result → Type 0
Step Q r = Held r.1 × (r.0 ≡ true → Q r.1)

and_then-Step :
    (Q R : Pipeline → Type 0) (r : Result) (next : Pipeline → Result)
    → Step Q r
    → ((p : Pipeline) → Held p → Q p → Step R (next p))
    → Step R (and_then r next)
unfolding Step
and_then-Step Q R (true, p) next (held, q) h = h p held (q refl)
and_then-Step Q R (false, p) next (held, q) h = (held, λ e. absurd (ground (arith, e)))

-- Both devices have a context.
record Opened (p : Pipeline) : Type 0 where
  on : p.running ≡ true
  cap : p.cap_ctx ≡ true
  pb : p.pb_ctx ≡ true
  no_ref : p.ref_ringbuf ≡ none

-- Both, and the buffers.
record Buffered (b : Build) (p : Pipeline) : Type 0 where
  on : p.running ≡ true
  cap : p.cap_ctx ≡ true
  pb : p.pb_ctx ≡ true
  buffers :
      (is_set p.cap_ringbuf ≡ true)
      × (is_set p.pb_ringbuf ≡ true)
      × (is_set p.ref_ringbuf ≡ b.cloud_aec)

start_devices-Step :
    (boot : Boot) (p : Pipeline)
    → p.running ≡ true
    → p.stop_complete ≡ false
    → (p.cap_ctx ≡ false) × (p.pb_ctx ≡ false)
    → (p.cap_started ≡ false) × (p.pb_started ≡ false)
    → p.ref_ringbuf ≡ none
    → Step Opened (start_devices boot p)
unfolding start_devices Step
start_devices-Step boot p on fresh (a, b) (c, d) no_ref =
    if-keep (λ (r : Result). Held r.1 × (r.0 ≡ true → Opened r.1))
      (not p.audio.capture_ops || not p.audio.playback_ops)
      (λ t. (
        record { fresh = fresh; cap_ops = λ e. ground arith; pb_ops = λ e. ground arith },
        λ e. absurd (ground (arith, e)),
      ))
      (λ t.
        if-keep (λ (r : Result). Held r.1 × (r.0 ≡ true → Opened r.1)) (not boot.cap_init)
          (λ u. (
            record { fresh = fresh; cap_ops = λ e. ground arith; pb_ops = λ e. ground arith },
            λ e. absurd (ground (arith, e)),
          ))
          (λ u.
            if-keep (λ (r : Result). Held r.1 × (r.0 ≡ true → Opened r.1)) (not boot.pb_init)
              (λ w. (
                record { fresh = fresh; cap_ops = λ e. ground arith; pb_ops = λ e. ground arith },
                λ e. absurd (ground (arith, e)),
              ))
              (λ w.
                let (k, l) = volume_ops_kept boot.volume_started boot.volume_reported p.audio in
                (
                  record {
                    fresh = fresh;
                    cap_ops = λ e. k ∙ ground arith;
                    pb_ops = λ e. l ∙ ground arith;
                  },
                  λ e. record { on = on; cap = refl; pb = refl; no_ref = no_ref },
                ))))

start_buffers-Step :
    (b : Build) (boot : Boot) (p : Pipeline)
    → Held p
    → Opened p
    → Step (Buffered b) (start_buffers b boot p)
unfolding start_buffers Step
start_buffers-Step b boot p h o =
    if-keep (λ (r : Result). Held r.1 × (r.0 ≡ true → Buffered b r.1))
      (not (is_set (created_ring boot.cap_storage)) || not (is_set (created_ring boot.pb_storage)))
      (λ t. (
        record { fresh = h.fresh; cap_ops = h.cap_ops; pb_ops = h.pb_ops },
        λ e. absurd (ground (arith, e)),
      ))
      (λ t.
        if-keep (λ (r : Result). Held r.1 × (r.0 ≡ true → Buffered b r.1)) (not b.cloud_aec)
          (λ u. (
            record { fresh = h.fresh; cap_ops = h.cap_ops; pb_ops = h.pb_ops },
            λ e. record {
              on = o.on;
              cap = o.cap;
              pb = o.pb;
              buffers = (ground arith, ground arith, rw o.no_ref (ground arith));
            },
          ))
          (λ u. (
            record { fresh = h.fresh; cap_ops = h.cap_ops; pb_ops = h.pb_ops },
            λ e. record {
              on = o.on;
              cap = o.cap;
              pb = o.pb;
              buffers = (ground arith, ground arith, e ∙ ground arith);
            },
          )))

start_workers-Step :
    (b : Build) (boot : Boot) (p : Pipeline)
    → Held p
    → Buffered b p
    → Step (Acquired b) (start_workers boot p)
unfolding start_workers Step
start_workers-Step b boot p h o =
    if-keep (λ (r : Result). Held r.1 × (r.0 ≡ true → Acquired b r.1)) (not boot.cap_start)
      (λ t. (h, λ e. absurd (ground (arith, e))))
      (λ t.
        if-keep (λ (r : Result). Held r.1 × (r.0 ≡ true → Acquired b r.1)) (not boot.pb_start)
          (λ u. (
            record {
              fresh = h.fresh;
              cap_ops = λ e. ground (arith, h.cap_ops, o.cap);
              pb_ops = λ e. ground (arith, h.pb_ops, o.pb);
            },
            λ e. absurd (ground (arith, e)),
          ))
          (λ u. (
            record {
              fresh = h.fresh;
              cap_ops = λ e. ground (arith, h.cap_ops, o.cap);
              pb_ops = λ e. ground (arith, h.pb_ops, o.pb);
            },
            λ e. record {
              on = o.on;
              contexts = (o.cap, o.pb);
              devices_started = (refl, refl);
              workers = (ground arith, ground arith, ground arith);
              buffers = o.buffers;
            },
          )))

-- All of it, or nothing.
abbrev pub AllOrNothing : Build → Result → Type 0
AllOrNothing b (true, p) = Acquired b p
AllOrNothing b (false, p) = Released p

start_failed-AllOrNothing :
    (b : Build) (j : Joins) (r : Result)
    → (j.send_joined ≡ true) × (j.cap_joined ≡ true) × (j.pb_joined ≡ true)
    → Step (Acquired b) r
    → AllOrNothing b (start_failed j r)
unfolding start_failed Step
start_failed-AllOrNothing b j (true, p) joined (h, a) = a refl
start_failed-AllOrNothing b j (false, p) joined (h, a) = cleanup j p joined h

-- A pipeline that holds nothing is started, and the workers can be joined: if the start fails, nothing is
-- held afterwards, and if it succeeds, all of the devices, workers and buffers are.
pub pipeline_start-AllOrNothing :
    (b : Build) (boot : Boot) (j : Joins) (p : Pipeline)
    → (j.send_joined ≡ true) × (j.cap_joined ≡ true) × (j.pb_joined ≡ true)
    → Released p
    → AllOrNothing b (pipeline_start b boot j p)
unfolding pipeline_start in_use
pipeline_start-AllOrNothing b boot j p joined h =
    if-keep (AllOrNothing b) (not p.initialized || not boot.has_send || in_use p) (λ t. h)
      (λ t.
        let q = record p {
          stop_complete = false;
          audio = context_init boot.capture_ops boot.playback_ops boot.volume_ops;
          running = true;
        } in
        start_failed-AllOrNothing b j
          (and_then (and_then (start_devices boot q) (start_buffers b boot)) (start_workers boot))
          joined
          (and_then-Step (Buffered b) (Acquired b)
            (and_then (start_devices boot q) (start_buffers b boot)) (start_workers boot)
            (and_then-Step Opened (Buffered b) (start_devices boot q) (start_buffers b boot)
              (start_devices-Step boot q refl refl h.no_contexts h.devices_stopped h.no_buffers.2)
              (λ r held o. start_buffers-Step b boot r held o))
            (λ r held o. start_workers-Step b boot r held o)))
