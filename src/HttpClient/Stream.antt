-- ===== src/HttpClient/Stream.antt =====
-- The loops over the byte stream, `send_all` and `read_all`. What the peer and the clock do in each
-- round is a list; an empty list is a deadline that has passed.
pub mod Order
pub mod Buffer
use mybot.HttpClient.Complete.{response_complete}
use mybot.Common.{
  ◌*◌, ◌/◌, length, true, ◌-◌, not, false, none, ◌∷◌, [], some, ◌&&◌, Text, if◌then◌else◌, Option,
  List, ℕ, Bool, ◌++◌, drop, take, ltb,
}

-- What `stream_send` returns: a count, AOSL_HAL_RET_EINTR, AOSL_HAL_RET_EAGAIN or another negative value.
pub data Sent : Type 0 where
  count : ℕ → Sent
  interrupted would_block broken : Sent

pub record SendRound : Type 0 where
  pub in_time : Bool
  pub answer : Sent

-- The bytes taken by the peer and whether all were; the length underflows where the peer claims more
-- than it was offered.
pub data SendResult : Type 0 where
  sent_all failed underflow : SendResult

-- What follows an answer; `next` is the rest of the loop.
unfoldable pub send_answer : Bool → Text → (Text → SendResult × Text) → Sent → SendResult × Text
send_answer tls data_left next interrupted = if tls then (failed, []) else next data_left
send_answer tls data_left next would_block = if tls then (failed, []) else next data_left
send_answer tls data_left next broken = (failed, [])
send_answer tls data_left next (count n) =
    if ltb (length data_left) n
    then (underflow, [])
    else (let (result, taken) = next (drop n data_left) in (result, take n data_left ++ taken))

unfoldable pub send_all : Bool → List SendRound → Text → SendResult × Text
send_all tls rounds [] = (sent_all, [])
send_all tls [] (c ∷ cs) = (failed, [])
send_all tls (r ∷ rs) (c ∷ cs) =
    if not r.in_time then (failed, []) else send_answer tls (c ∷ cs) (send_all tls rs) r.answer

pub data Received : Type 0 where
  bytes : List ℕ → Received
  closed would_block broken : Received

-- `grown` is whether `realloc` succeeds.
pub record ReadRound : Type 0 where
  pub in_time : Bool
  pub answer : Received
  pub grown : Bool

abbrev pub buf_size : ℕ
buf_size = 4096

abbrev pub buf_max : ℕ
buf_max = 32768

-- The size after a receive that leaves `len` bytes, and whether `realloc` is called.
unfoldable pub next_size : ℕ → ℕ → ℕ × Bool
next_size cap len =
    if ltb cap buf_max && ltb (cap - len) (buf_size / 2)
    then (if ltb buf_max (cap * 2) then buf_max else cap * 2, true)
    else (cap, false)

unfoldable pub read_answer :
    Bool → Bool → (ℕ → Text → Option (Text × Bool)) → ℕ → Text → Received → Option (Text × Bool)
read_answer tls grown next cap buf closed = some (buf, true)
read_answer tls grown next cap buf would_block = if tls then none else next cap buf
read_answer tls grown next cap buf broken = none
read_answer tls grown next cap buf (bytes new) =
    let (cap', grows) = next_size cap (length (buf ++ new)) in
    if ltb (cap - length buf - 1) (length new)
    then none
    else if response_complete (buf ++ new)
    then some (buf ++ new, false)
    else if grows && not grown
    then none
    else next cap' (buf ++ new)

-- The bytes read and whether the peer has closed. A receive of no bytes is `closed`.
unfoldable pub read_loop : Bool → List ReadRound → ℕ → Text → Option (Text × Bool)
read_loop tls [] cap buf = some (buf, false)
read_loop tls (r ∷ rs) cap buf =
    if not r.in_time
    then some (buf, false)
    else read_answer tls r.grown (read_loop tls rs) cap buf r.answer

unfoldable pub read_all : Bool → Bool → List ReadRound → Option (Text × Bool)
read_all allocated tls rounds = if allocated then read_loop tls rounds buf_size [] else none
