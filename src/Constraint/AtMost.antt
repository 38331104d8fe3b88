-- ===== src/Constraint/AtMost.antt =====
-- constraints/AtMost.cc: at most `threshold` of the literals are true. The threshold is taken to be
-- no negative number.
pub mod Loop
pub mod Sound
pub mod Reason
use glucose.Prelude.{
  ℕ, zero, suc, ◌+◌, ◌-◌, ◌*◌, ◌/◌, ◌%◌, ◌^◌, ◌≤◌, ◌<◌, ◌≡◌, refl, sym, ap, ◌∙◌, ◌≢◌, ◌↔◌, ◌⊎◌, inl,
  inr, Bool, true, false, not, ◌&&◌, ◌||◌, Option, none, some, List, [], ◌∷◌, ◌++◌, map, arith, ltb,
  leb, ◌==◌, if◌then◌else◌, ==_iff, ==_refl, ==_ne, eq_of_==, Bool-cases, Option-cases, update, xor,
}
use glucose.Lit.{Lit, Var, neg, var}
use glucose.Lbool.{Lbool, l_true, l_false, l_undef, eq}
use glucose.Solver.{Solver, ConstraintRef, value, register_undo, enqueue, add_watch}

pub record AtMost : Type 0 where
  pub lits : List Lit
  pub threshold : ℕ
  pub n_true : ℕ

-- std::sort, by insertion: the literals are distinct, so every sort gives the same list.
unfoldable pub insert_lit : Lit → List Lit → List Lit
insert_lit p [] = p ∷ []
insert_lit p (q ∷ ps) = if leb p q then p ∷ q ∷ ps else q ∷ insert_lit p ps

unfoldable pub sort_lits : List Lit → List Lit
sort_lits [] = []
sort_lits (p ∷ ps) = insert_lit p (sort_lits ps)

-- The constructor.
unfoldable pub at_most : List Lit → ℕ → AtMost
unfolding sort_lits insert_lit
at_most lits threshold = record { lits = sort_lits lits; threshold = threshold; n_true = 0 }

-- The loop of `propagate` that makes the undefined literals false.
unfoldable pub enqueue_undef : Solver → ConstraintRef → List Lit → Solver × Bool
enqueue_undef s self [] = (s, true)
enqueue_undef s self (l ∷ ls) =
    let (t, done) = if eq (value s l) l_undef then enqueue s (neg l) self else (s, true) in
    let rest = enqueue_undef t self ls in if done then rest else (t, false)

-- The rest of `propagate`, at the new count.
unfoldable pub react : Solver → ConstraintRef → AtMost → Solver × Bool
unfolding enqueue_undef
react s self c =
    if ltb c.threshold c.n_true
    then (s, false)
    else if c.n_true == c.threshold
    then enqueue_undef s self c.lits
    else (s, true)

unfoldable pub propagate : Solver → ConstraintRef → AtMost → Lit → Solver × AtMost × Bool
unfolding react
propagate s self c p =
    let c' = record c { n_true = c.n_true + 1 } in
    let (t, done) = react (register_undo s (var p) self) self c' in (t, c', done)

unfoldable pub undo : AtMost → AtMost
undo c = record c { n_true = c.n_true - 1 }

-- The first loop of `initialize`.
unfoldable pub watch_all : Solver → ConstraintRef → List Lit → Solver
watch_all s self [] = s
watch_all s self (l ∷ ls) = watch_all (add_watch s l self) self ls

-- The second loop of `initialize`, over the literals that are true already.
unfoldable pub propagate_true : Solver → ConstraintRef → AtMost → List Lit → Solver × AtMost × Bool
propagate_true s self c [] = (s, c, true)
propagate_true s self c (l ∷ ls) =
    let (t, d, done) = if eq (value s l) l_true then propagate s self c l else (s, c, true) in
    let rest = propagate_true t self d ls in if done then rest else (t, d, false)

-- The literals to push at the end of `initialize`, and the loop that enqueues them.
unfoldable pub undefined : Solver → List Lit → List Lit
undefined s [] = []
undefined s (l ∷ ls) =
    let rest = undefined s ls in if eq (value s l) l_undef then neg l ∷ rest else rest

unfoldable pub enqueue_all : Solver → ConstraintRef → List Lit → Solver × Bool
enqueue_all s self [] = (s, true)
enqueue_all s self (p ∷ ps) =
    let (t, done) = enqueue s p self in
    let rest = enqueue_all t self ps in if done then rest else (t, false)

-- The tests of `initialize` after its loops.
unfoldable pub settle : Solver → ConstraintRef → AtMost → Solver × AtMost × Bool
settle s self c =
    if ltb c.threshold c.n_true
    then (s, c, false)
    else (if c.n_true == c.threshold
        then (let (t, done) = enqueue_all s self (undefined s c.lits) in (t, c, done))
        else (s, c, true))

unfoldable pub initialize : Solver → ConstraintRef → AtMost → Solver × AtMost × Bool
initialize s self c =
    let (t, d, done) = propagate_true (watch_all s self c.lits) self c c.lits in
    if done then settle t self d else (t, d, false)

unfoldable pub is_lit : Option Lit → Lit → Bool
is_lit none l = false
is_lit (some p) l = p == l

-- The true literals that `calcReason` pushes; `p` is `none` for lit_Undef.
unfoldable pub true_but : Solver → Option Lit → List Lit → List Lit
true_but s p [] = []
true_but s p (l ∷ ls) =
    let rest = true_but s p ls in
    if eq (value s l) l_true && not (is_lit p l) then l ∷ rest else rest

unfoldable pub calc_reason : Solver → AtMost → Option Lit → Option Lit → List Lit
unfolding true_but is_lit
calc_reason s c p none = true_but s p c.lits
calc_reason s c p (some extra) = extra ∷ true_but s p c.lits
