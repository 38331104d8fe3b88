-- ===== src/Container/Bqueue.antt =====
-- core/BoundedQueue.h: the last numbers pushed, at most `maxsize` of them, and their sum. The sum is
-- of 64 bits and the numbers are of 32, at most 2^31 of them: it does not overflow. `expComputed`,
-- `exp` and `value`, which serve getAvgExp in floating point, are left out.
pub mod Window
use glucose.Prelude.{
  ℕ, zero, suc, ◌+◌, ◌-◌, ◌*◌, ◌/◌, ◌%◌, ◌^◌, ◌≤◌, ◌<◌, ◌≡◌, refl, sym, ap, subst, ◌∙◌, ◌≢◌, ◌↔◌,
  ◌⊎◌, inl, inr, Bool, true, false, not, ◌&&◌, ◌||◌, Option, none, some, List, [], ◌∷◌, ◌++◌, map,
  arith, ltb, leb, ◌==◌, if◌then◌else◌, ==_iff, ==_refl, ==_ne, eq_of_==, Bool-cases, Option-cases,
  update, xor,
}
use glucose.Prelude.Lists.{length, get_or, set, replicate}
use glucose.Container.Queue.{next, from}

pub record Bqueue : Type 0 where
  pub elems : List ℕ
  pub first : ℕ
  pub last : ℕ
  pub sumofqueue : ℕ
  pub maxsize : ℕ
  pub queuesize : ℕ

-- The constructor.
unfoldable pub empty : Bqueue
empty = record { elems = []; first = 0; last = 0; sumofqueue = 0; maxsize = 0; queuesize = 0 }

-- growTo, which leaves the sum as it is. `vec::growTo` never shrinks.
unfoldable pub grow_to : Bqueue → ℕ → Bqueue
unfolding from
grow_to q size = record {
  elems = replicate size 0 ++ from size q.elems;
  first = 0;
  last = 0;
  sumofqueue = q.sumofqueue;
  maxsize = size;
  queuesize = 0;
}

unfoldable pub push : Bqueue → ℕ → Bqueue
push q x =
    let full = q.queuesize == q.maxsize in
    let sum = if full then q.sumofqueue - get_or q.elems q.last 0 else q.sumofqueue in
    let last = if full then next q.maxsize q.last else q.last in
    let round = q.first + 1 == q.maxsize in
    record q {
      queuesize = if full then q.queuesize else q.queuesize + 1;
      sumofqueue = sum + x;
      elems = set q.elems q.first x;
      first = if round then 0 else q.first + 1;
      last = if round then 0 else last;
    }

unfoldable pub peek : Bqueue → ℕ
peek q = get_or q.elems q.last 0

unfoldable pub pop : Bqueue → Bqueue
pop q = record q {
  sumofqueue = q.sumofqueue - get_or q.elems q.last 0;
  queuesize = q.queuesize - 1;
  last = next q.maxsize q.last;
}

unfoldable pub getsum : Bqueue → ℕ
getsum q = q.sumofqueue

-- The result is of 32 bits.
unfoldable pub getavg : Bqueue → ℕ
getavg q = q.sumofqueue / q.queuesize % 2 ^ 32

unfoldable pub isvalid : Bqueue → Bool
isvalid q = q.queuesize == q.maxsize

unfoldable pub fastclear : Bqueue → Bqueue
fastclear q = record q { first = 0; last = 0; queuesize = 0; sumofqueue = 0 }

-- `last` stays as it is.
unfoldable pub clear : Bqueue → Bqueue
clear q = record q { elems = []; first = 0; maxsize = 0; queuesize = 0; sumofqueue = 0 }

unfoldable pub pushes : Bqueue → List ℕ → Bqueue
unfolding push
pushes q [] = q
pushes q (x ∷ xs) = pushes (push q x) xs
