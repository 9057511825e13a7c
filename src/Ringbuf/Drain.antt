-- ===== src/Ringbuf/Drain.antt =====
-- `mybot_ringbuf_read` of mybot_ringbuf.c against the queue.
use mybot.Ringbuf.Window.{at, contents, IsValid, wrap, get_or-take, get_or-drop, get_or-append}
use mybot.Ringbuf.Fill.{used_lem, sums_fit_lem, length-contents}
use mybot.Ringbuf.Queue
use mybot.Ringbuf.{Ring, copy_out, read_bytes, slice, used}
use mybot.Common.{
  drop-append_at, take-append_at, tabulate-get_or, tabulate_ext, tabulate-add, ◌∙◌, length-drop,
  tabulate, length-take, length-append, length, ◌++◌, ◌%◌, take, arith, drop, get_or, ◌-◌, ◌+◌, ◌≡◌,
  ◌<◌, ◌≤◌, ℕ, ap, ap₂, dec_lt, sym, not_lt→ltb, lt→ltb, refl,
}

-- A byte that the copy takes is the byte of the contents at the same distance.
get_or-copy_out :
    {rb : Ring} (n i : ℕ)
    → IsValid rb
    → n < rb.size
    → i < n
    → get_or (copy_out rb n) i 0 ≡ at rb.buf rb.size rb.tail i
unfolding copy_out
get_or-copy_out {rb} n i v h k = ground (
  arith,
  wrap rb.size (rb.tail + n) (omega arith),
  wrap rb.size (rb.tail + i) (omega arith),
  get_or-append (slice rb.buf rb.tail (rb.size - rb.tail))
      (slice rb.buf 0 (n - (rb.size - rb.tail))) i,
  length-take (rb.size - rb.tail) (drop rb.tail rb.buf),
  length-drop rb.tail rb.buf,
  get_or-take (rb.size - rb.tail) (drop rb.tail rb.buf) i,
  get_or-take n (drop rb.tail rb.buf) i,
  get_or-drop rb.tail rb.buf i,
  get_or-take (n - (rb.size - rb.tail)) rb.buf (i - (rb.size - rb.tail)),
)

length-copy_out : {rb : Ring} (n : ℕ) → IsValid rb → n < rb.size → length (copy_out rb n) ≡ n
unfolding copy_out
length-copy_out {rb} n v h = ground (
  arith,
  wrap rb.size (rb.tail + n) (omega arith),
  v.storage,
  length-append (slice rb.buf rb.tail (rb.size - rb.tail))
      (slice rb.buf 0 (n - (rb.size - rb.tail))),
  length-take (rb.size - rb.tail) (drop rb.tail rb.buf),
  length-take n (drop rb.tail rb.buf),
  length-drop rb.tail rb.buf,
  length-take (n - (rb.size - rb.tail)) (drop 0 rb.buf),
  length-drop 0 rb.buf,
)

abbrev taken : Ring → ℕ → Ring
taken rb n = record rb { tail = (rb.tail + n) % rb.size }

module _ {rb : Ring} (n : ℕ) (v : IsValid rb) (there : n ≤ used rb) where
  taken-IsValid : IsValid (taken rb n)
  taken-IsValid = ground (arith, v.storage, v.head_in, v.tail_in, v.small)

  used-taken : used (taken rb n) ≡ used rb - n
  used-taken =
      ground (arith, used_lem v, used_lem taken-IsValid, wrap rb.size (rb.tail + n) (omega arith))

  later_byte :
      (i : ℕ)
      → i < used rb - n
      → at rb.buf rb.size ((rb.tail + n) % rb.size) i ≡ at rb.buf rb.size rb.tail (n + i)
  later_byte i h =
      ap (λ k. get_or rb.buf k 0)
        (ground (
          arith,
          used_lem v,
          wrap rb.size (rb.tail + n) (omega arith),
          wrap rb.size ((rb.tail + n) % rb.size + i) (omega arith),
          wrap rb.size (rb.tail + (n + i)) (omega arith),
        ))

  parts : contents rb ≡ copy_out rb n ++ contents (taken rb n)
  unfolding contents
  parts =
      ap (λ k. tabulate k stored) (let e : used rb ≡ n + (used rb - n) = omega arith in e)
      ∙ tabulate-add n (used rb - n) stored
      ∙ ap₂ ◌++◌
          (tabulate_ext n stored (λ i. get_or (copy_out rb n) i 0)
              (λ i h. sym (get_or-copy_out n i v (omega arith) h))
            ∙ ap (λ k. tabulate k (λ i. get_or (copy_out rb n) i 0))
                (sym (length-copy_out n v (omega arith)))
            ∙ tabulate-get_or (copy_out rb n) 0)
          (tabulate_ext (used rb - n) (λ i. stored (n + i))
              (at rb.buf rb.size ((rb.tail + n) % rb.size)) (λ i h. sym (later_byte i h))
            ∙ ap (λ k. tabulate k (at rb.buf rb.size ((rb.tail + n) % rb.size))) (sym used-taken))
    where
      stored : ℕ → ℕ
      stored = at rb.buf rb.size rb.tail

  take-contents : take n (contents rb) ≡ copy_out rb n
  take-contents =
      ap (take n) parts
      ∙ take-append_at (copy_out rb n) (contents (taken rb n)) (length-copy_out n v (omega arith))

  drop-contents : drop n (contents rb) ≡ contents (taken rb n)
  drop-contents =
      ap (drop n) parts
      ∙ drop-append_at (copy_out rb n) (contents (taken rb n)) (length-copy_out n v (omega arith))

-- A read is refused and changes nothing where the queue holds fewer bytes; otherwise it takes the
-- oldest. The reply and the bytes are the queue's, and the ring stays valid.
pub read_refines :
    {rb : Ring} (n : ℕ)
    → IsValid rb
    → let (reply, out, rb') = read_bytes rb n in
      IsValid rb' × (rb'.size ≡ rb.size) × ((reply, out, contents rb') ≡ Queue.read (contents rb) n)
unfolding read_bytes Queue.read
read_refines {rb} n v = elim (dec_lt (used rb) n) [
  | yes short ↦ rw (sums_fit_lem v, length-contents rb, lt→ltb (used rb) n short) (v, refl, refl)
  | no there ↦
      rw
        (
          sums_fit_lem v,
          length-contents rb,
          not_lt→ltb (used rb) n (omega arith),
          take-contents n v (omega arith),
          drop-contents n v (omega arith),
        )
        (taken-IsValid n v (omega arith), refl, refl)
]
