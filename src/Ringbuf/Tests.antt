-- ===== src/Ringbuf/Tests.antt =====
-- Runs of the ring buffer at concrete inputs.
use mybot.Ringbuf.Refine.{create_refines, run, run_refines}
use mybot.Ringbuf.Window.{IsValid, contents}
use mybot.Ringbuf.{Ring, done, refused, ring, create}
use mybot.Ringbuf.Queue.{room_left, data_in_use, Op, put, get}
use mybot.Ringbuf.Queue
use mybot.Common.{refl, List, ◌∷◌, [], ℕ, ◌≡◌, arith, ◌-◌, true, pos, some}

abbrev cells : List ℕ
cells = 0 ∷ 0 ∷ 0 ∷ 0 ∷ []

-- The head has gone round; 7 and 8 are in use.
abbrev turned : Ring
turned = record { size = 4; buf = 8 ∷ 5 ∷ 6 ∷ 7 ∷ []; head = 1; tail = 3 }

turned-IsValid : IsValid turned
turned-IsValid = ground arith

abbrev calls : List Op
calls =
    put (1 ∷ 2 ∷ [])
    ∷ get 1
    ∷ put (3 ∷ 4 ∷ [])
    ∷ put (5 ∷ [])
    ∷ get 4
    ∷ get 3
    ∷ get 1
    ∷ put []
    ∷ get 0
    ∷ room_left
    ∷ data_in_use
    ∷ []

create_refines_example :
    (rb : Ring) × (create (pos 3) true (some cells) ≡ ring rb)
    × (run (some rb) calls ≡ Queue.run 3 [] calls)
create_refines_example = create_refines 3 cells (omega arith) (omega arith) refl calls

run_refines_example : run (some turned) calls ≡ Queue.run (4 - 1) (contents turned) calls
run_refines_example = run_refines calls turned-IsValid

-- A write that goes round the end, and reads of what it stored.
run_test :
    Queue.run 3 [] calls
    ≡ (done 2, [])
      ∷ (done 1, 1 ∷ [])
      ∷ (done 2, [])
      ∷ (refused, [])
      ∷ (refused, [])
      ∷ (done 3, 2 ∷ 3 ∷ 4 ∷ [])
      ∷ (refused, [])
      ∷ (refused, [])
      ∷ (refused, [])
      ∷ (done 3, [])
      ∷ (done 0, [])
      ∷ []
unfolding Queue.offer Queue.serve Queue.run Queue.write Queue.read
run_test = refl
