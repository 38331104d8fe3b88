-- ===== src/Tests/Containers.antt =====
-- The containers.
use glucose.Prelude.{ℕ, ◌≡◌, refl, inr, [], ◌∷◌, ◌++◌, arith}
use glucose.Container.Queue.{Queue, peek, pop, insert, at}
use glucose.Container.Queue.Fifo.{IsQueue, items, queue_insert_lem, queue_pop_lem}
use glucose.Container.Bqueue.{Bqueue, getsum, pushes, grow_to, fastclear}
use glucose.Container.Bqueue.Window.{Holds, last_of, bqueue_pushes_lem}

-- A full ring of three cells, with 5 and then 6 in it.
abbrev full_ring : Queue ℕ
full_ring = record { buf = 6 ∷ 9 ∷ 5 ∷ []; first = 2; end = 1 }

grown : insert 0 full_ring 7 ≡ record { buf = 5 ∷ 6 ∷ 7 ∷ 0 ∷ 0 ∷ []; first = 0; end = 3 }
unfolding insert
grown = refl

second : at 0 full_ring 1 ≡ 6
unfolding at
second = refl

queue_insert_lem_example :
    IsQueue (insert 0 full_ring 7) × (items 0 (insert 0 full_ring 7) ≡ items 0 full_ring ++ 7 ∷ [])
queue_insert_lem_example = queue_insert_lem 0 full_ring 7 (omega arith, omega arith)

queue_pop_lem_example :
    IsQueue (pop full_ring) × (items 0 full_ring ≡ peek 0 full_ring ∷ items 0 (pop full_ring))
queue_pop_lem_example = queue_pop_lem 0 full_ring (omega arith, omega arith) (omega arith)

abbrev three_empty : Bqueue
three_empty = record { elems = []; first = 0; last = 0; sumofqueue = 0; maxsize = 0; queuesize = 0 }

-- Three places, with 7 the oldest number.
abbrev three : Bqueue
three = record {
  elems = 9 ∷ 7 ∷ 8 ∷ [];
  first = 1;
  last = 1;
  sumofqueue = 24;
  maxsize = 3;
  queuesize = 3;
}

three-Holds : Holds three (7 ∷ 8 ∷ 9 ∷ [])
three-Holds = record {
  sized = omega arith;
  in_ring = omega arith;
  window = refl;
  phase = inr (refl, refl);
  summed = refl;
}

last_three : getsum (pushes (grow_to three_empty 3) (1 ∷ 2 ∷ 3 ∷ 4 ∷ 5 ∷ [])) ≡ 12
unfolding getsum pushes grow_to
last_three = refl

bqueue_pushes_lem_example :
    Holds
      (pushes (grow_to three_empty 3) (1 ∷ 2 ∷ 3 ∷ 4 ∷ 5 ∷ []))
      (last_of 3 (1 ∷ 2 ∷ 3 ∷ 4 ∷ 5 ∷ []))
    × Holds (pushes (fastclear three) (1 ∷ 2 ∷ 3 ∷ 4 ∷ 5 ∷ [])) (last_of 3 (1 ∷ 2 ∷ 3 ∷ 4 ∷ 5 ∷ []))
bqueue_pushes_lem_example =
    bqueue_pushes_lem three_empty three 3 (1 ∷ 2 ∷ 3 ∷ 4 ∷ 5 ∷ []) (7 ∷ 8 ∷ 9 ∷ []) (omega arith)
      refl three-Holds
