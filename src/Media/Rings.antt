-- ===== src/Media/Rings.antt =====
-- What the byte queues of the pipeline do, by the theorems of the ring buffer.
use mybot.Media.Buffers.{is_done, at_least, drain, drain_ringbuf}
use mybot.Ringbuf.{
  Ring, Reply, done, get_data_size, get_free_size, read, write, read_bytes, write_bytes,
}
use mybot.Ringbuf.Window.{IsValid, contents}
use mybot.Ringbuf.Fill.{write_refines}
use mybot.Ringbuf.Drain.{read_refines}
use mybot.Ringbuf.Refine.{sizes_refine}
use mybot.Ringbuf.Queue
use mybot.Common.{
  length-append, ap, false, if-keep, min, le→leb, ◌==◌, ◌∷◌, subst, leb→le, ◌-◌, ◌≤◌, ◌+◌, zero,
  take, refl, arith, suc, ◌++◌, length, none, ◌<◌, true, pos, ◌≡◌, [], ℕ, some, List, Option,
  take_all, length-take, take-append-drop,
}

unfoldable pub RingOk : Option Ring → Type 0
RingOk none = Unit
RingOk (some rb) = IsValid rb

unfoldable pub contents_of : Option Ring → List ℕ
contents_of none = []
contents_of (some rb) = contents rb

parts_lem :
    (q : List ℕ) (n : ℕ) (r : Reply × List ℕ × Ring)
    → (r.0, r.1, contents r.2) ≡ Queue.read q n
    → q ≡ r.1 ++ contents r.2
unfolding Queue.read
parts_lem q n r e = ground (arith, take-append-drop n q)

-- A read takes its bytes off the front, and nothing if it is refused.
pub read_parts :
    (o : Option Ring) (n : ℕ)
    → RingOk o
    → let (reply, out, o') = read o true (pos n) in
      RingOk o' × (contents_of o ≡ out ++ contents_of o')
unfolding read RingOk contents_of
read_parts none n v = (tt, refl)
read_parts (some rb) zero v = (v, refl)
read_parts (some rb) (suc n) v =
    let (v', same, e) = read_refines (suc n) v in (v', parts (read_bytes rb (suc n)) e)
  where
    parts :
        (r : Reply × List ℕ × Ring)
        → (r.0, r.1, contents r.2) ≡ Queue.read (contents rb) (suc n)
        → contents rb ≡ r.1 ++ contents r.2
    parts r e = parts_lem (contents rb) (suc n) r e

pub write_ok :
    (o : Option Ring) (src : List ℕ) (n : ℕ) → RingOk o → RingOk (write o (some src) (pos n)).1
unfolding write RingOk
write_ok none src n v = tt
write_ok (some rb) src zero v = v
write_ok (some rb) src (suc n) v = (write_refines (take (suc n) src) v).0

pair_lem :
    (r : Reply × Ring) (q src : List ℕ) (capacity : ℕ)
    → (r.0, contents r.1) ≡ Queue.write capacity q src
    → length q + length src ≤ capacity
    → (r.0 ≡ done (length src)) × (contents r.1 ≡ q ++ src)
unfolding Queue.write
pair_lem r q src capacity e h = ground (arith, e)

bytes_room :
    {rb : Ring} (src : List ℕ)
    → IsValid rb
    → length src ≤ rb.size - 1 - length (contents rb)
    → ((write_bytes rb src).0 ≡ done (length src))
      × (contents (write_bytes rb src).1 ≡ contents rb ++ src)
bytes_room {rb} src v h =
    let (v', same, e) = write_refines src v in
    let (d, f, bound) = sizes_refine v in
    pair_lem (write_bytes rb src) (contents rb) src (rb.size - 1) e (omega arith)

room_lem :
    {rb : Ring} (n : ℕ)
    → IsValid rb
    → at_least n (get_free_size (some rb)) ≡ true
    → n ≤ rb.size - 1 - length (contents rb)
room_lem {rb} n v k =
    let (d, f, bound) = sizes_refine v in
    leb→le n (rb.size - 1 - length (contents rb)) (subst (λ r. at_least n r ≡ true) f k)

no_ring : (n : ℕ) → at_least n (get_free_size none) ≡ true → ⊥
unfolding get_free_size
no_ring n k = cc

-- With room for them, the bytes are appended.
pub write_room :
    (o : Option Ring) (src : List ℕ) (n : ℕ)
    → RingOk o
    → length src ≡ n
    → 0 < n
    → at_least n (get_free_size o) ≡ true
    → (is_done n (write o (some src) (pos n)).0 ≡ true)
      × (contents_of (write o (some src) (pos n)).1 ≡ contents_of o ++ src)
unfolding write RingOk contents_of
write_room none src n v l h k = absurd (no_ring n k)
write_room (some rb) src zero v l h k = absurd (omega arith)
write_room (some rb) src (suc n) v l h k =
    let whole : take (suc n) src ≡ src = take_all src (suc n) (omega arith) in
    let (reply, stored) = bytes_room src v (rw l (room_lem (suc n) v k)) in
    rw (whole, reply, l) (ground arith, stored)

reply_lem :
    (r : Reply × List ℕ × Ring) (q : List ℕ) (n : ℕ)
    → (r.0, r.1, contents r.2) ≡ Queue.read q n
    → n ≤ length q
    → (r.0 ≡ done n) × (length r.1 ≡ n)
unfolding Queue.read
reply_lem r q n e h = ground (arith, e, length-take n q)

data_lem :
    {rb : Ring} (n : ℕ)
    → IsValid rb
    → at_least n (get_data_size (some rb)) ≡ true
    → n ≤ length (contents rb)
data_lem {rb} n v k =
    let (d, f, bound) = sizes_refine v in
    leb→le n (length (contents rb)) (subst (λ r. at_least n r ≡ true) d k)

no_data : (n : ℕ) → at_least n (get_data_size none) ≡ true → ⊥
unfolding get_data_size
no_data n k = cc

-- With enough bytes in the ring, a read is done and takes as many as it asks for.
pub read_there :
    (o : Option Ring) (n : ℕ)
    → RingOk o
    → 0 < n
    → at_least n (get_data_size o) ≡ true
    → (is_done n (read o true (pos n)).0 ≡ true) × (length (read o true (pos n)).1 ≡ n)
unfolding read RingOk
read_there none n v h k = absurd (no_data n k)
read_there (some rb) zero v h k = absurd (omega arith)
read_there (some rb) (suc n) v h k =
    let (v', same, e) = read_refines (suc n) v in
    let (reply, size) =
      reply_lem (read_bytes rb (suc n)) (contents rb) (suc n) e (data_lem (suc n) v k) in
    rw reply (ground arith, size)

size_of : {rb : Ring} → IsValid rb → get_data_size (some rb) ≡ done (length (contents rb))
size_of v = (sizes_refine v).0

empty_lem : (xs : List ℕ) → length xs ≡ 0 → xs ≡ []
empty_lem [] e = refl
empty_lem (x ∷ xs) e = absurd (omega arith)

Empty : Option Ring → Type 0
Empty o = RingOk o × (contents_of o ≡ [])

nothing_drained : (fuel scratch : ℕ) → Empty (drain (suc fuel) scratch none)
unfolding drain Empty get_data_size RingOk contents_of
nothing_drained fuel scratch = (tt, refl)

ok : {rb : Ring} → RingOk (some rb) → IsValid rb
unfolding RingOk
ok v = v

ring_count : (rb : Ring) → length (contents_of (some rb)) ≡ length (contents rb)
unfolding contents_of
ring_count rb = refl

count_lem : (rb : Ring) → (length (contents rb) == 0) ≡ true → length (contents_of (some rb)) ≡ 0
unfolding contents_of
count_lem rb e = ground arith

low : (rb : Ring) → (length (contents rb) == 0) ≡ false → 0 < length (contents rb)
low rb e = ground arith

enough :
    (rb : Ring) (n : ℕ)
    → get_data_size (some rb) ≡ done (length (contents rb))
    → n ≤ length (contents rb)
    → at_least n (get_data_size (some rb)) ≡ true
enough rb n e h = rw e (le→leb n (length (contents rb)) h)

none_empty : contents_of none ≡ []
unfolding contents_of
none_empty = refl

contents_fit : (rb : Ring) → RingOk (some rb) → length (contents_of (some rb)) < rb.size
unfolding RingOk contents_of
contents_fit rb v = let (d, f, bound) = sizes_refine v in omega (arith, v.head_in)

drain_lem :
    (fuel scratch : ℕ) (o : Option Ring)
    → RingOk o
    → 0 < scratch
    → length (contents_of o) < fuel
    → Empty (drain fuel scratch o)
unfolding drain Empty
drain_lem zero scratch o v h k = absurd (omega arith)
drain_lem (suc fuel) scratch none v h k = nothing
  where
    nothing : Empty (drain (suc fuel) scratch none)
    nothing = nothing_drained fuel scratch
drain_lem (suc fuel) scratch (some rb) v h k =
    let size = size_of (ok v) in
    let chunk = min (length (contents rb)) scratch in
    rw (drain, size)
      (if-keep Empty (length (contents rb) == 0)
        (λ e. (v, empty_lem (contents_of (some rb)) (count_lem rb e)))
        (λ e.
          let there =
            read_there (some rb) chunk v (omega (arith, low rb e))
              (enough rb chunk size (omega arith)) in
          let (v', parts) = read_parts (some rb) chunk v in
          rw there.0 (
            drain_lem fuel scratch (read (some rb) true (pos chunk)).2 v' h (
              omega (
                arith,
                ring_count rb,
                low rb e,
                there.1,
                ap length parts,
                length-append (read (some rb) true (pos chunk)).1
                    (contents_of (read (some rb) true (pos chunk)).2),
              )))))

-- Draining empties a ring.
pub drain_ringbuf_lem :
    (scratch : ℕ) (o : Option Ring)
    → RingOk o
    → 0 < scratch
    → RingOk (drain_ringbuf scratch o) × (contents_of (drain_ringbuf scratch o) ≡ [])
unfolding drain_ringbuf Empty
drain_ringbuf_lem scratch none v h = (v, none_empty)
drain_ringbuf_lem scratch (some rb) v h =
    drain_lem rb.size scratch (some rb) v h (contents_fit rb v)
