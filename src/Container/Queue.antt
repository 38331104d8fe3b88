-- ===== src/Container/Queue.antt =====
-- mtl/Queue.h: a queue in a ring buffer that grows by a half when it is full. `d` is the value that
-- a new cell of `vec` has, and that reading out of range gives here.
pub mod Items
pub mod Fifo
use glucose.Prelude.{
  ℕ, zero, suc, ◌+◌, ◌-◌, ◌*◌, ◌/◌, ◌%◌, ◌^◌, ◌≤◌, ◌<◌, ◌≡◌, refl, sym, ap, subst, ◌∙◌, ◌≢◌, ◌↔◌,
  ◌⊎◌, inl, inr, Bool, true, false, not, ◌&&◌, ◌||◌, Option, none, some, List, [], ◌∷◌, ◌++◌, map,
  arith, ltb, leb, ◌==◌, if◌then◌else◌, ==_iff, ==_refl, ==_ne, eq_of_==, Bool-cases, Option-cases,
  update, xor,
}
use glucose.Prelude.Lists.{length, get_or, set, replicate}

pub record Queue {ℓ} (A : Type ℓ) : Type ℓ where
  pub buf : List A
  pub first : ℕ
  pub end : ℕ

-- One place further in a ring of `n` cells.
abbrev pub next : ℕ → ℕ → ℕ
next n i = if i + 1 == n then 0 else i + 1

module _ {ℓ} {A : Type ℓ} where
  -- The constructor, and `clear`.
  unfoldable pub empty : A → Queue A
  empty d = record { buf = d ∷ []; first = 0; end = 0 }

  unfoldable pub size : Queue A → ℕ
  size q = if leb q.first q.end then q.end - q.first else q.end + length q.buf - q.first

  -- `q[index]`
  unfoldable pub at : A → Queue A → ℕ → A
  at d q i = get_or q.buf ((q.first + i) % length q.buf) d

  unfoldable pub peek : A → Queue A → A
  peek d q = get_or q.buf q.first d

  unfoldable pub pop : Queue A → Queue A
  pop q = record q { first = next (length q.buf) q.first }

  -- The cells from place `k` on, and those before it.
  unfoldable pub from : ℕ → List A → List A
  from zero xs = xs
  from (suc k) [] = []
  from (suc k) (x ∷ xs) = from k xs

  unfoldable pub before : ℕ → List A → List A
  before zero xs = []
  before (suc k) [] = []
  before (suc k) (x ∷ xs) = x ∷ before k xs

  -- The new buffer, with the two parts of the ring in order; its other cells are new.
  unfoldable pub resize : A → Queue A → Queue A
  unfolding from before
  resize d q =
      let n = length q.buf in
      record {
        buf =
            from q.first q.buf
            ++ (before q.end q.buf ++ replicate ((n * 3 + 1) / 2 - (n - q.first) - q.end) d);
        first = 0;
        end = n;
      }

  unfoldable pub insert : A → Queue A → A → Queue A
  unfolding resize
  insert d q x =
      let r : Queue A = record q { buf = set q.buf q.end x; end = next (length q.buf) q.end } in
      if r.first == r.end then resize d r else r
