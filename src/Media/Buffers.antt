-- ===== src/Media/Buffers.antt =====
-- The byte queues of the pipeline: draining, and frames as bytes.
use mybot.Ringbuf.{Ring, Reply, done, refused, overflow, get_data_size, read}
use mybot.Announce.{Frame}
use mybot.Common.{
  ◌++◌, zero, if◌then◌else◌, true, false, none, some, ◌==◌, leb, [], suc, ◌∷◌, Option, Bool, List,
  ℕ, min, pos,
}

abbrev pub is_done : ℕ → Reply → Bool
is_done n (done m) = m == n
is_done n refused = false
is_done n overflow = false

-- Whether a size is at least `n`; -1 is not.
abbrev pub at_least : ℕ → Reply → Bool
at_least n (done m) = leb n m
at_least n refused = false
at_least n overflow = false

abbrev pub bytes_of : List Frame → List ℕ
bytes_of [] = []
bytes_of ((low, high) ∷ fs) = low ∷ high ∷ bytes_of fs

abbrev pub frames_of : List ℕ → List Frame
frames_of [] = []
frames_of (b ∷ []) = []
frames_of (low ∷ high ∷ bs) = (low, high) ∷ frames_of bs

-- `drain_ringbuf`; every round takes at least one byte.
unfoldable pub drain : ℕ → ℕ → Option Ring → Option Ring
drain zero scratch_size rb = rb
drain (suc fuel) scratch_size rb = elim (get_data_size rb) [
  | refused ↦ rb
  | overflow ↦ rb
  | done available ↦
      let (reply, bytes, rest) = read rb true (pos (min available scratch_size)) in
      if available == 0
      then rb
      else if is_done (min available scratch_size) reply
      then drain fuel scratch_size rest
      else rest
]

-- The bytes that `drain` takes, in order.
unfoldable pub drained : ℕ → ℕ → Option Ring → List ℕ
drained zero scratch_size rb = []
drained (suc fuel) scratch_size rb = elim (get_data_size rb) [
  | refused ↦ []
  | overflow ↦ []
  | done available ↦
      let (reply, bytes, rest) = read rb true (pos (min available scratch_size)) in
      if available == 0
      then []
      else if is_done (min available scratch_size) reply
      then bytes ++ drained fuel scratch_size rest
      else bytes
]

unfoldable pub drain_ringbuf : ℕ → Option Ring → Option Ring
drain_ringbuf scratch_size none = none
drain_ringbuf scratch_size (some rb) = drain rb.size scratch_size (some rb)

unfoldable pub drained_bytes : ℕ → Option Ring → List ℕ
drained_bytes scratch_size none = []
drained_bytes scratch_size (some rb) = drained rb.size scratch_size (some rb)
