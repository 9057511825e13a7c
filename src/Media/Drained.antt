-- ===== src/Media/Drained.antt =====
-- What a drain takes from a ring is what the ring held before what it holds after.
use mybot.Media.Buffers.{drain, drained, drain_ringbuf, drained_bytes, is_done}
use mybot.Media.Rings.{RingOk, contents_of, read_parts}
use mybot.Ringbuf.{Ring, Reply, done, refused, overflow, get_data_size, read}
use mybot.Common.{
  true, ℕ, zero, suc, ◌==◌, min, pos, Option, some, none, ◌++◌, ◌≡◌, ◌⊎◌, inl, inr, refl, ap, sym,
  ◌∙◌, append_assoc, Bool-cases,
}

reply_cases : (r : Reply) → ((n : ℕ) × (r ≡ done n)) ⊎ ((r ≡ refused) ⊎ (r ≡ overflow))
reply_cases (done n) = inl (n, refl)
reply_cases refused = inr (inl refl)
reply_cases overflow = inr (inr refl)

drained_parts :
    (fuel scratch : ℕ) (o : Option Ring)
    → RingOk o
    → contents_of o ≡ drained fuel scratch o ++ contents_of (drain fuel scratch o)
unfolding drain drained
drained_parts zero scratch o v = refl
drained_parts (suc fuel) scratch o v = elim (reply_cases (get_data_size o)) [
  | inl (n, size) ↦
      let (v', parts) = read_parts o (min n scratch) v in
      elim (Bool-cases (n == 0)) [
        | inl z ↦ rw (drain, drained, size, z) refl
        | inr z ↦
            elim (Bool-cases (is_done (min n scratch) (read o true (pos (min n scratch))).0)) [
              | inl d ↦
                  rw (drain, drained, size, z, d)
                    (parts
                      ∙ ap (λ t. (read o true (pos (min n scratch))).1 ++ t)
                          (drained_parts fuel scratch (read o true (pos (min n scratch))).2 v')
                      ∙ sym (
                          append_assoc (read o true (pos (min n scratch))).1
                            (drained fuel scratch (read o true (pos (min n scratch))).2)
                            (contents_of
                              (drain fuel scratch (read o true (pos (min n scratch))).2))))
              | inr d ↦ rw (drain, drained, size, z, d) parts
            ]
      ]
  | inr (inl size) ↦ rw (drain, drained, size) refl
  | inr (inr size) ↦ rw (drain, drained, size) refl
]

pub drained_bytes_lem :
    (scratch : ℕ) (o : Option Ring)
    → RingOk o
    → contents_of o ≡ drained_bytes scratch o ++ contents_of (drain_ringbuf scratch o)
unfolding drain_ringbuf drained_bytes
drained_bytes_lem scratch none v = refl
drained_bytes_lem scratch (some rb) v = drained_parts rb.size scratch (some rb) v
