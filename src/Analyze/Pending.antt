-- ===== src/Analyze/Pending.antt =====
-- The literals of the trail that `analyze` has still to resolve.
use glucose.Prelude.{
  ℕ, suc, ◌<◌, ◌≡◌, refl, subst, inl, inr, Bool, true, false, ◌&&◌, List, [], ◌∷◌, arith, leb, ◌==◌,
  if◌then◌else◌, ==_refl, eq_of_==, Bool-cases, update,
}
use glucose.Prelude.Lists.{All, All-In, In}
use glucose.Lit.{Lit, Var, var}
use glucose.Solver.{Solver, decision_level}

-- Marked, and of the current level.
abbrev pub waits : Solver → (Var → Bool) → Lit → Bool
waits s seen l = seen (var l) && leb (decision_level s) (s.level (var l))

abbrev pub pending : Solver → (Var → Bool) → List Lit → ℕ
pending s seen [] = 0
pending s seen (l ∷ ls) = if waits s seen l then suc (pending s seen ls) else pending s seen ls

-- The variable is not one of the literals'.
abbrev pub Apart : Var → List Lit → Type 0
Apart v ls = All (λ m. (v == var m) ≡ false) ls

-- No two literals are of the same variable.
abbrev pub AreApart : List Lit → Type 0
AreApart [] = Unit
AreApart (l ∷ ls) = Apart (var l) ls × AreApart ls

pub pending-Apart :
    (s : Solver) (seen : Var → Bool) (v : Var) (b : Bool) (ls : List Lit)
    → Apart v ls
    → pending s (update seen v b) ls ≡ pending s seen ls
pending-Apart s seen v b [] h = refl
pending-Apart s seen v b (l ∷ ls) h = rw (h.0, pending-Apart s seen v b ls h.1) refl

pub pending-lower :
    (s : Solver) (seen : Var → Bool) (v : Var) (b : Bool) (ls : List Lit)
    → s.level v < decision_level s
    → pending s (update seen v b) ls ≡ pending s seen ls
pending-lower s seen v b [] h = refl
pending-lower s seen v b (l ∷ ls) h = elim (Bool-cases (v == var l)) [
  | inr other ↦ rw (other, pending-lower s seen v b ls h) refl
  | inl same ↦
      let lt : s.level (var l) < decision_level s =
        subst (λ w. s.level w < decision_level s) (eq_of_== v (var l) same) h in
      let off : leb (decision_level s) (s.level (var l)) ≡ false = ground arith in
      ground (arith, pending-lower s seen v b ls h)
]

-- A literal of the current level that is marked.
pub pending-marked :
    (s : Solver) (seen : Var → Bool) (m : Lit) (ls : List Lit)
    → AreApart ls
    → In m ls
    → seen (var m) ≡ false
    → leb (decision_level s) (s.level (var m)) ≡ true
    → pending s (update seen (var m) true) ls ≡ suc (pending s seen ls)
pending-marked s seen m [] d i f h = absurd i
pending-marked s seen m (l ∷ ls) d (inl e) f h =
    let apart : Apart (var m) ls = subst (λ l. Apart (var l) ls) e d.0 in
    let here : (var m == var l) ≡ true = rw e (==_refl (var m)) in
    let f' : seen (var l) ≡ false = rw e f in
    let h' : leb (decision_level s) (s.level (var l)) ≡ true = rw e h in
    rw (here, f', h', pending-Apart s seen (var m) true ls apart) refl
pending-marked s seen m (l ∷ ls) d (inr i) f h = elim (Bool-cases (var m == var l)) [
  | inr other ↦ ground (arith, pending-marked s seen m ls d.1 i f h)
  | inl same ↦ absurd (ground (arith, All-In (λ n. (var l == var n) ≡ false) ls d.0 i))
]

-- A marked literal counts.
pub pending-In :
    (s : Solver) (seen : Var → Bool) (m : Lit) (ls : List Lit)
    → In m ls
    → waits s seen m ≡ true
    → 0 < pending s seen ls
pending-In s seen m [] i h = absurd i
pending-In s seen m (l ∷ ls) (inl e) h = let h' : waits s seen l ≡ true = rw e h in ground arith
pending-In s seen m (l ∷ ls) (inr i) h = ground (arith, pending-In s seen m ls i h)

pub pending-none :
    (s : Solver) (seen : Var → Bool) (ls : List Lit)
    → All (λ m. s.level (var m) < decision_level s) ls
    → pending s seen ls ≡ 0
pending-none s seen [] h = refl
pending-none s seen (l ∷ ls) h =
    let off : leb (decision_level s) (s.level (var l)) ≡ false = ground arith in
    ground (arith, pending-none s seen ls h.1)
