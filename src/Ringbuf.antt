-- ===== src/Ringbuf.antt =====
-- src/support/mybot_ringbuf.c: a byte queue over an array and two indices, with one byte kept free to
-- tell full from empty. A null handle is `none`. An `int` sum past INT_MAX is undefined in C and is
-- the reply `overflow`; the refusals with -1 are `refused`.
pub mod Queue
pub mod Window
pub mod Fill
pub mod Drain
pub mod Refine
mod Tests
-- `ringbuf_internal_t`; `size` counts the guard byte.
use mybot.Common.{
  true, false, zero, none, ◌==◌, suc, length, ltb, drop, ◌++◌, ◌%◌, pos, int_max, take, ◌-◌, ◌+◌,
  [], not, some, leb, negsuc, if◌then◌else◌, Option, ℕ, Bool, List, ℤ,
}

pub record Ring : Type 0 where
  pub size : ℕ
  pub buf : List ℕ
  pub head : ℕ
  pub tail : ℕ

pub data Reply : Type 0 where
  done : ℕ → Reply
  refused overflow : Reply

-- The bytes in use. The operands are non-negative.
abbrev pub used : Ring → ℕ
used rb = (rb.head + rb.size - rb.tail) % rb.size

abbrev pub sums_fit : Ring → Bool
sums_fit rb = leb (rb.head + rb.size) int_max

unfoldable pub data_size : Ring → Reply
data_size rb = if sums_fit rb then done (used rb) else overflow

unfoldable pub free_size : Ring → Reply
free_size rb = if sums_fit rb then done (rb.size - used rb - 1) else overflow

unfoldable pub get_data_size : Option Ring → Reply
get_data_size none = refused
get_data_size (some rb) = data_size rb

unfoldable pub get_free_size : Option Ring → Reply
get_free_size none = refused
get_free_size (some rb) = free_size rb

pub data Created : Type 0 where
  ring : Ring → Created
  null undefined : Created

-- The two allocations succeed or fail; `storage` is what the second one returns.
unfoldable pub create : ℤ → Bool → Option (List ℕ) → Created
create (negsuc n) got storage = null
create (pos n) got storage =
    if n == 0
    then null
    else if not got
    then null
    else if leb int_max n
    then undefined
    else elim storage [
      | none ↦ null
      | some bytes ↦ ring (record { size = n + 1; buf = bytes; head = 0; tail = 0 })
    ]

-- `write` reads `writelen` bytes at `src` and `read` fills `readlen` bytes at `dst`: the caller has that many.
-- `memcpy(buf + at, bytes, n)` for a list of n bytes.
unfoldable pub memcpy : List ℕ → ℕ → List ℕ → List ℕ
memcpy buf at bytes = take at buf ++ (bytes ++ drop (at + length bytes) buf)

abbrev pub slice : List ℕ → ℕ → ℕ → List ℕ
slice buf at n = take n (drop at buf)

-- The copy of `write`, in one piece or in two round the end.
unfoldable pub copy_in : Ring → List ℕ → List ℕ
copy_in rb bytes =
    if leb rb.head ((rb.head + length bytes) % rb.size)
    then memcpy rb.buf rb.head bytes
    else memcpy (memcpy rb.buf rb.head (take (rb.size - rb.head) bytes)) 0
        (drop (rb.size - rb.head) bytes)

-- `write` past its guards, for the `writelen` bytes at `src`.
unfoldable pub write_bytes : Ring → List ℕ → Reply × Ring
write_bytes rb bytes =
    if not (sums_fit rb)
    then (overflow, rb)
    else if ltb (rb.size - used rb - 1) (length bytes)
    then (refused, rb)
    else (
      done (length bytes),
      record rb { buf = copy_in rb bytes; head = (rb.head + length bytes) % rb.size },
    )

unfoldable pub write : Option Ring → Option (List ℕ) → ℤ → Reply × Option Ring
write none src n = (refused, none)
write (some rb) none n = (refused, some rb)
write (some rb) (some src) (negsuc n) = (refused, some rb)
write (some rb) (some src) (pos zero) = (refused, some rb)
write (some rb) (some src) (pos (suc n)) =
    let (reply, rb') = write_bytes rb (take (suc n) src) in (reply, some rb')

-- The copy of `read`, in one piece or in two.
unfoldable pub copy_out : Ring → ℕ → List ℕ
copy_out rb n =
    if leb rb.tail ((rb.tail + n) % rb.size)
    then slice rb.buf rb.tail n
    else slice rb.buf rb.tail (rb.size - rb.tail) ++ slice rb.buf 0 (n - (rb.size - rb.tail))

-- `read` past its guards: the bytes written to `dst`, which are none unless the reply is `done`.
unfoldable pub read_bytes : Ring → ℕ → Reply × List ℕ × Ring
read_bytes rb n =
    if not (sums_fit rb)
    then (overflow, [], rb)
    else if ltb (used rb) n
    then (refused, [], rb)
    else (done n, copy_out rb n, record rb { tail = (rb.tail + n) % rb.size })

unfoldable pub read : Option Ring → Bool → ℤ → Reply × List ℕ × Option Ring
read none dst n = (refused, [], none)
read (some rb) false n = (refused, [], some rb)
read (some rb) true (negsuc n) = (refused, [], some rb)
read (some rb) true (pos zero) = (refused, [], some rb)
read (some rb) true (pos (suc n)) =
    let (reply, bytes, rb') = read_bytes rb (suc n) in (reply, bytes, some rb')
