-- ===== src/Ringbuf/Refine.antt =====
-- Sequences of writes and reads of mybot_ringbuf.c, from a new buffer, against the queue.
use mybot.Common.{
  Option, ◌≤◌, ◌%◌, ap₂, tabulate, refl, ap, ◌∙◌, arith, some, true, pos, ◌+◌, length, sym, ◌^◌,
  ◌-◌, ◌<◌, ◌≡◌,
}
use mybot.Ringbuf.Window.{wrap, at, contents, IsValid}
use mybot.Ringbuf.Fill.{used_lem, length-contents, sums_fit_lem, write_refines}
use mybot.Ringbuf.Drain.{read_refines}
use mybot.Ringbuf.{
  done, free_size, data_size, get_free_size, get_data_size, [], List, ℕ, Ring, Reply, write_bytes,
  read_bytes, create, ring,
}
use mybot.Common.{◌∷◌, []}
use mybot.Ringbuf.{write, read}
use mybot.Common.{zero, suc, take, take_all}
use mybot.Ringbuf.Queue.{Op, put, get, data_in_use, room_left}
use mybot.Ringbuf.Queue

-- The reported sizes of a valid ring are the length of its contents and the room that is left, and the
-- two sum to the capacity.
pub sizes_refine :
    {rb : Ring}
    → IsValid rb
    → (get_data_size (some rb) ≡ done (length (contents rb)))
      × (get_free_size (some rb) ≡ done (rb.size - 1 - length (contents rb)))
      × (length (contents rb) ≤ rb.size - 1)
unfolding get_data_size get_free_size data_size free_size
sizes_refine {rb} v =
    rw (sums_fit_lem v, length-contents rb)
      (refl, ap done (omega (arith, used_lem v)), ground (arith, used_lem v))

-- The public calls, each with the bytes that it is given or asked for.
unfoldable pub run : Option Ring → List Op → List (Reply × List ℕ)
run rb [] = []
run rb (put bytes ∷ ops) =
    let (reply, rb') = write rb (some bytes) (pos (length bytes)) in (reply, []) ∷ run rb' ops
run rb (get n ∷ ops) = let (reply, out, rb') = read rb true (pos n) in (reply, out) ∷ run rb' ops
run rb (data_in_use ∷ ops) = (get_data_size rb, []) ∷ run rb ops
run rb (room_left ∷ ops) = (get_free_size rb, []) ∷ run rb ops

-- The replies and the bytes read are those of a queue one byte smaller than the array.
pub run_refines :
    {rb : Ring} (ops : List Op)
    → IsValid rb
    → run (some rb) ops ≡ Queue.run (rb.size - 1) (contents rb) ops
unfolding run Queue.run Queue.offer Queue.serve write read
run_refines {rb} [] v = refl
run_refines {rb} (put [] ∷ ops) v = rw (run_refines {rb = rb} ops v) refl
run_refines {rb} (put (b ∷ bs) ∷ ops) v =
    let whole : take (length (b ∷ bs)) (b ∷ bs) ≡ b ∷ bs =
      take_all (b ∷ bs) (length (b ∷ bs)) (omega arith) in
    let (v', same, e) = write_refines (b ∷ bs) v in
    let rest = run_refines {rb = (write_bytes rb (b ∷ bs)).1} ops v' in
    rw (whole, rest, same, sym e) refl
run_refines {rb} (get zero ∷ ops) v = rw (run_refines {rb = rb} ops v) refl
run_refines {rb} (get (suc n) ∷ ops) v =
    let (v', same, e) = read_refines (suc n) v in
    let rest = run_refines {rb = (read_bytes rb (suc n)).2} ops v' in rw (rest, same, sym e) refl
run_refines {rb} (data_in_use ∷ ops) v = rw ((sizes_refine v).0, run_refines {rb = rb} ops v) refl
run_refines {rb} (room_left ∷ ops) v = rw ((sizes_refine v).1, run_refines {rb = rb} ops v) refl

abbrev new_ring : ℕ → List ℕ → Ring
new_ring n bytes = record { size = n + 1; buf = bytes; head = 0; tail = 0 }

module _ (n : ℕ) (storage : List ℕ) (low : 0 < n) (high : n < 2 ^ 30)
    (enough : length storage ≡ n + 1) where
  create_lem : create (pos n) true (some storage) ≡ ring (new_ring n storage)
  unfolding create
  create_lem = ground arith

  new_ring-IsValid : IsValid (new_ring n storage)
  new_ring-IsValid = ground (arith, enough)

  contents-new_ring : contents (new_ring n storage) ≡ []
  unfolding contents
  contents-new_ring =
      ap (λ k. tabulate k (at storage (n + 1) 0))
        (let e : (0 + (n + 1) - 0) % (n + 1) ≡ 0 =
            ground (arith, wrap (n + 1) (0 + (n + 1) - 0) (omega arith)) in
          e)

  -- A buffer created for n bytes, 0 < n < 2^30, with both allocations successful, starts without content,
  -- and any sequence of the public writes, reads and questions for the sizes has the replies and the bytes
  -- of a first-in first-out queue of n bytes, in which a write or a read of nothing is refused.
  pub create_refines :
      (ops : List Op)
      → (rb : Ring) × (create (pos n) true (some storage) ≡ ring rb)
        × (run (some rb) ops ≡ Queue.run n [] ops)
  create_refines ops = (
    new_ring n storage,
    create_lem,
    run_refines ops new_ring-IsValid
        ∙ ap₂ (λ k c. Queue.run k c ops) (let e : n + 1 - 1 ≡ n = omega arith in e)
            contents-new_ring,
  )
