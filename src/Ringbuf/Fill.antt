-- ===== src/Ringbuf/Fill.antt =====
-- `mybot_ringbuf_write` of mybot_ringbuf.c against the queue.

use mybot.Ringbuf.Window.{
  at, contents, get_or-drop, get_or-take, get_or-memcpy, length-memcpy, wrap, IsValid,
}
use mybot.Ringbuf.Queue
use mybot.Common.{
  refl, tabulate-get_or, tabulate_ext, lt→ltb, ap₂, tabulate-add, inr, not_lt→ltb, tabulate, inl,
  ◌++◌, ◌⊎◌, if-keep, length-tabulate, ap, lt→not_leb, ◌∙◌, mod-eq-sub-mod, ◌%◌, mod-eq_of_lt,
  dec_lt, ◌≤◌, length-take, length-drop, drop, take, int_max, arith, ltb, ◌+◌, ◌-◌, ◌&&◌, le→leb,
  leb, if◌then◌else◌, true, get_or, ◌≡◌, ◌<◌, length, ℕ, List,
}
use mybot.Ringbuf.{done, write_bytes, memcpy, sums_fit, used, Ring, copy_in}

pub used_lem :
    {rb : Ring}
    → IsValid rb
    → used rb ≡ (if leb rb.tail rb.head then rb.head - rb.tail else rb.head + rb.size - rb.tail)
used_lem {rb} v = ground (arith, wrap rb.size (rb.head + rb.size - rb.tail) (omega arith))

pub sums_fit_lem : {rb : Ring} → IsValid rb → sums_fit rb ≡ true
sums_fit_lem {rb} v = le→leb (rb.head + rb.size) int_max (omega arith)

-- What `copy_in` leaves at an index: a new byte on the way from `head`, round the end, the old one elsewhere.
get_or-copy_in :
    {rb : Ring} (bytes : List ℕ) (j : ℕ)
    → IsValid rb
    → length bytes < rb.size
    → j < rb.size
    → get_or (copy_in rb bytes) j 0 ≡ (
        if leb rb.head j && ltb j (rb.head + length bytes)
        then get_or bytes (j - rb.head) 0
        else if ltb (j + rb.size) (rb.head + length bytes)
        then get_or bytes (j + rb.size - rb.head) 0
        else get_or rb.buf j 0)
unfolding copy_in
get_or-copy_in {rb} bytes j v n h = elim (dec_lt (rb.head + length bytes) rb.size) [
  | yes p ↦
      rw (mod-eq_of_lt p, le→leb rb.head (rb.head + length bytes) (omega arith))
        (ground (arith, get_or-memcpy rb.buf rb.head bytes j (omega arith)))
  | no p ↦
      let round : (rb.head + length bytes) % rb.size ≡ rb.head + length bytes - rb.size =
        mod-eq-sub-mod {n = rb.head + length bytes} {m = rb.size} (omega arith)
        ∙ mod-eq_of_lt {n = rb.head + length bytes - rb.size} {m = rb.size} (omega arith) in
      rw (round, lt→not_leb rb.head (rb.head + length bytes - rb.size) (omega arith))
        (ground (
          arith,
          get_or-memcpy (memcpy rb.buf rb.head front) 0 back j fits_back,
          get_or-memcpy rb.buf rb.head front j fits_front,
          length_front p,
          length_back,
          get_or-take (rb.size - rb.head) bytes (j - rb.head),
          get_or-drop (rb.size - rb.head) bytes (j - 0),
          ap (λ k. get_or bytes k 0) (shift p),
        ))
]
  where
    front : List ℕ
    front = take (rb.size - rb.head) bytes

    back : List ℕ
    back = drop (rb.size - rb.head) bytes

    length_back : length back ≡ length bytes - (rb.size - rb.head)
    length_back = length-drop (rb.size - rb.head) bytes

    length_front : ¬ (rb.head + length bytes < rb.size) → length front ≡ rb.size - rb.head
    length_front p = omega (arith, length-take (rb.size - rb.head) bytes)

    fits_front : rb.head + length front ≤ length rb.buf
    fits_front = omega (arith, length-take (rb.size - rb.head) bytes, v.storage)

    fits_back : 0 + length back ≤ length (memcpy rb.buf rb.head front)
    fits_back = omega (arith, length-memcpy rb.buf rb.head front fits_front, length_back, v.storage)

    shift :
        ¬ (rb.head + length bytes < rb.size) → rb.size - rb.head + (j - 0) ≡ j + rb.size - rb.head
    shift p = omega arith

pub length-contents : (rb : Ring) → length (contents rb) ≡ used rb
unfolding contents
length-contents rb = length-tabulate (used rb) (at rb.buf rb.size rb.tail)

abbrev written : Ring → List ℕ → Ring
written rb bytes = record rb { buf = copy_in rb bytes; head = (rb.head + length bytes) % rb.size }

length-copy_in :
    {rb : Ring} (bytes : List ℕ)
    → IsValid rb
    → length bytes < rb.size
    → length (copy_in rb bytes) ≡ rb.size
unfolding copy_in
length-copy_in {rb} bytes v n =
    if-keep (λ (b : List ℕ). length b ≡ rb.size) (leb rb.head ((rb.head + length bytes) % rb.size))
      (λ t. length-memcpy rb.buf rb.head bytes (ground (arith, turn)) ∙ v.storage)
      (λ t.
        length-memcpy (memcpy rb.buf rb.head front) 0 back
          (omega (arith, length-drop (rb.size - rb.head) bytes, whole, v.storage))
        ∙ whole
        ∙ v.storage)
  where
    front : List ℕ
    front = take (rb.size - rb.head) bytes

    back : List ℕ
    back = drop (rb.size - rb.head) bytes

    turn : (rb.head + length bytes) % rb.size ≡ (
        if ltb (rb.head + length bytes) rb.size
        then rb.head + length bytes
        else rb.head + length bytes - rb.size)
    turn = wrap rb.size (rb.head + length bytes) (omega arith)

    whole : length (memcpy rb.buf rb.head front) ≡ length rb.buf
    whole =
        length-memcpy rb.buf rb.head front
          (omega (arith, length-take (rb.size - rb.head) bytes, v.storage))

module _ {rb : Ring} (bytes : List ℕ) (v : IsValid rb)
    (room : used rb + length bytes < rb.size) where
  written-IsValid : IsValid (written rb bytes)
  written-IsValid = ground (arith, length-copy_in bytes v (omega arith))

  used-written : used (written rb bytes) ≡ used rb + length bytes
  used-written = ground (
    arith,
    used_lem v,
    used_lem written-IsValid,
    wrap rb.size (rb.head + length bytes) (omega arith),
  )

  -- An index of the old contents is not written.
  old_byte :
      (i : ℕ) → i < used rb → at (copy_in rb bytes) rb.size rb.tail i ≡ at rb.buf rb.size rb.tail i
  old_byte i h = ground (
    arith,
    used_lem v,
    get_or-copy_in bytes ((rb.tail + i) % rb.size) v (omega arith) (omega arith),
    wrap rb.size (rb.tail + i) (omega arith),
  )

  -- The new bytes follow the old ones.
  spot :
      (i : ℕ)
      → i < length bytes
      → let j = (rb.tail + (used rb + i)) % rb.size in
        (j ≡ rb.head + i) ⊎ (j + rb.size ≡ rb.head + i)
  spot i h = ground (arith, used_lem v, wrap rb.size (rb.tail + (used rb + i)) (omega arith))

  new_byte :
      (i : ℕ)
      → i < length bytes
      → at (copy_in rb bytes) rb.size rb.tail (used rb + i) ≡ get_or bytes i 0
  new_byte i h =
      let j = (rb.tail + (used rb + i)) % rb.size in
      let placed = get_or-copy_in bytes j v (omega arith) (omega arith) in
      elim (spot i h) [
        | inl e ↦
            let back : j - rb.head ≡ i = omega arith in
            ground (arith, placed, ap (λ k. get_or bytes k 0) back)
        | inr e ↦
            let back : j + rb.size - rb.head ≡ i = omega arith in
            ground (arith, placed, ap (λ k. get_or bytes k 0) back)
      ]

  contents-written : contents (written rb bytes) ≡ contents rb ++ bytes
  unfolding contents
  contents-written =
      ap (λ n. tabulate n stored) used-written
      ∙ tabulate-add (used rb) (length bytes) stored
      ∙ ap₂ ◌++◌ (tabulate_ext (used rb) stored (at rb.buf rb.size rb.tail) old_byte) (
          tabulate_ext (length bytes) (λ i. stored (used rb + i)) (λ i. get_or bytes i 0) new_byte
          ∙ tabulate-get_or bytes 0)
    where
      stored : ℕ → ℕ
      stored = at (copy_in rb bytes) rb.size rb.tail

-- A write is refused and changes nothing where the queue has no room for all its bytes; otherwise it
-- appends them. The reply is the queue's, and the ring stays valid.
pub write_refines :
    {rb : Ring} (bytes : List ℕ)
    → IsValid rb
    → let (reply, rb') = write_bytes rb bytes in
      IsValid rb'
      × (rb'.size ≡ rb.size)
      × ((reply, contents rb') ≡ Queue.write (rb.size - 1) (contents rb) bytes)
unfolding write_bytes Queue.write
write_refines {rb} bytes v = elim (dec_lt (used rb + length bytes) rb.size) [
  | yes room ↦
      rw
        (
          sums_fit_lem v,
          length-contents rb,
          not_lt→ltb (rb.size - used rb - 1) (length bytes) (omega arith),
          not_lt→ltb (rb.size - 1) (used rb + length bytes) (omega arith),
        )
        (
          written-IsValid bytes v room,
          refl,
          ap (λ (c : List ℕ). (done (length bytes), c)) (contents-written bytes v room),
        )
  | no full ↦
      rw
        (
          sums_fit_lem v,
          length-contents rb,
          lt→ltb (rb.size - used rb - 1) (length bytes) (omega (arith, used_lem v)),
          lt→ltb (rb.size - 1) (used rb + length bytes) (omega arith),
        )
        (v, refl, refl)
]
