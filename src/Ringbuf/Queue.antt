-- ===== src/Ringbuf/Queue.antt =====
-- A first-in first-out queue of at most `capacity` bytes, oldest first, and the calls that a client
-- makes of it.
use mybot.Ringbuf.{done, refused, Reply}
use mybot.Common.{
  zero, suc, ◌-◌, ◌∷◌, drop, ◌++◌, take, ◌+◌, length, ltb, [], if◌then◌else◌, ℕ, List,
}

unfoldable pub write : ℕ → List ℕ → List ℕ → Reply × List ℕ
write capacity q bytes =
    if ltb capacity (length q + length bytes)
    then (refused, q)
    else (done (length bytes), q ++ bytes)

unfoldable pub read : List ℕ → ℕ → Reply × List ℕ × List ℕ
read q n = if ltb (length q) n then (refused, [], q) else (done n, take n q, drop n q)

-- The calls that a client makes: a write or a read of nothing is refused.
unfoldable pub offer : ℕ → List ℕ → List ℕ → Reply × List ℕ
offer capacity q [] = (refused, q)
offer capacity q (b ∷ bs) = write capacity q (b ∷ bs)

unfoldable pub serve : List ℕ → ℕ → Reply × List ℕ × List ℕ
serve q zero = (refused, [], q)
serve q (suc n) = read q (suc n)

pub data Op : Type 0 where
  put : List ℕ → Op
  get : ℕ → Op
  data_in_use room_left : Op

-- The replies and the bytes read, in order.
unfoldable pub run : ℕ → List ℕ → List Op → List (Reply × List ℕ)
run capacity q [] = []
run capacity q (put bytes ∷ ops) =
    let (reply, q') = offer capacity q bytes in (reply, []) ∷ run capacity q' ops
run capacity q (get n ∷ ops) =
    let (reply, out, q') = serve q n in (reply, out) ∷ run capacity q' ops
run capacity q (data_in_use ∷ ops) = (done (length q), []) ∷ run capacity q ops
run capacity q (room_left ∷ ops) = (done (capacity - length q), []) ∷ run capacity q ops
