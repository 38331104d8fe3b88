-- ===== src/Constraint/Linear.antt =====
-- constraints/OrderEncodingLinear.cc: a sum of integer terms and a constant is at least 0. A term
-- takes one of the values of its domain, in rising order, and its literals say in turn that it is at
-- least the next value. -1 in `undo_list_` is `none`. A place out of range, where the source's
-- behaviour is undefined, reads an empty term, the value 0 or the literal 0.
pub mod Undo
pub mod Bounds
pub mod State
pub mod Sound
pub mod Reason
pub mod Laws
use glucose.Prelude.{
  ℕ, zero, suc, ◌+◌, ◌-◌, ◌*◌, ◌/◌, ◌%◌, ◌^◌, ◌≤◌, ◌<◌, ◌≡◌, refl, sym, ap, subst, ◌∙◌, ◌≢◌, ◌↔◌,
  ◌⊎◌, inl, inr, Bool, true, false, not, ◌&&◌, ◌||◌, Option, none, some, List, [], ◌∷◌, ◌++◌, map,
  arith, ltb, leb, ◌==◌, if◌then◌else◌, ==_iff, ==_refl, ==_ne, eq_of_==, Bool-cases, Option-cases,
  update, xor,
}
use glucose.Prelude.Lists.{length, get_or, set}
use glucose.Prelude.Int.{ℤ, pos, negsuc, ◌+ℤ◌, ◌-ℤ◌, ◌*ℤ◌, ltb_ℤ}
use mathlib.Core.List.{reverse}
use glucose.Lit.{Lit, neg, var, sign}
use glucose.Lbool.{Lbool, l_true, l_false, l_undef, eq}
use glucose.Solver.{Solver, ConstraintRef, value, register_undo, enqueue, add_watch}

pub record LinearTerm : Type 0 where
  pub lits : List Lit
  pub domain : List ℤ
  pub coef : ℤ

-- LinearTerm::normalize
unfoldable pub normalize : LinearTerm → LinearTerm
normalize t =
    let flipped = ltb_ℤ t.coef (pos 0) in
    record {
      lits = if flipped then map neg (reverse t.lits) else t.lits;
      domain = map (λ d. d *ℤ t.coef) (if flipped then reverse t.domain else t.domain);
      coef = t.coef;
    }

-- A literal, its term and its place in the term.
abbrev pub Entry : Type 0
Entry = Lit × ℕ × ℕ

pub record Linear : Type 0 where
  pub terms : List LinearTerm
  pub lits : List Entry
  pub ub_index : List ℕ
  pub undo_list : List (Option (ℕ × ℕ))
  pub active_lits : List Lit
  pub constant : ℤ
  pub total_ub : ℤ

abbrev pub empty_term : LinearTerm
empty_term = record { lits = []; domain = []; coef = pos 1 }

-- `terms_[i].domain[k]`
abbrev pub domain_at : List LinearTerm → ℕ → ℕ → ℤ
domain_at terms i k = get_or (get_or terms i empty_term).domain k (pos 0)

-- `domain.back()`
unfoldable pub back : List ℤ → ℤ
back [] = pos 0
back (d ∷ []) = d
back (d ∷ e ∷ ds) = back (e ∷ ds)

-- The order of std::tuple.
unfoldable pub entry_less : Entry → Entry → Bool
entry_less (l, i, j) (m, k, n) = ltb l m || (l == m && (ltb i k || (i == k && ltb j n)))

unfoldable pub insert_entry : Entry → List Entry → List Entry
unfolding entry_less
insert_entry e [] = e ∷ []
insert_entry e (f ∷ es) = if entry_less f e then f ∷ insert_entry e es else e ∷ f ∷ es

unfoldable pub entries_of : List Lit → ℕ → ℕ → List Entry → List Entry
unfolding insert_entry
entries_of [] i j es = es
entries_of (l ∷ ls) i j es = insert_entry (l, i, j) (entries_of ls i (suc j) es)

-- The loop of the constructor over the terms, from term `i` on.
unfoldable pub all_entries : List LinearTerm → ℕ → List Entry
unfolding entries_of
all_entries [] i = []
all_entries (t ∷ ts) i = entries_of t.lits i 0 (all_entries ts (suc i))

unfoldable pub sum_back : List LinearTerm → ℤ → ℤ
unfolding back
sum_back [] total = total
sum_back (t ∷ ts) total = sum_back ts (total +ℤ back t.domain)

abbrev is_one : ℤ → Bool
is_one (pos n) = n == 1
is_one (negsuc n) = false

-- The constructor, which is called with no coefficient 0: the source aborts on one.
unfoldable pub linear_of : List LinearTerm → ℤ → Linear
unfolding normalize all_entries sum_back
linear_of given constant =
    let terms = map (λ t. if is_one t.coef then t else normalize t) given in
    record {
      terms = terms;
      lits = all_entries terms 0;
      ub_index = map (λ t. length t.lits) terms;
      undo_list = [];
      active_lits = [];
      constant = constant;
      total_ub = sum_back terms constant;
    }

-- The statements of the first loop of `propagate` that lower the upper bound of a term.
unfoldable pub tighten : Linear → ℕ → ℕ → Linear
tighten c i j =
    let ub = get_or c.ub_index i 0 in
    record c {
      undo_list = some (i, ub) ∷ c.undo_list;
      total_ub = c.total_ub -ℤ (domain_at c.terms i ub -ℤ domain_at c.terms i j);
      ub_index = set c.ub_index i j;
    }

-- std::lower_bound for the literal: the entries from its first one on.
unfoldable pub from_lit : Lit → List Entry → List Entry
from_lit q [] = []
from_lit q ((l, i, j) ∷ es) = if ltb l q then from_lit q es else (l, i, j) ∷ es

-- The first loop, over the entries of the literal `q`.
unfoldable pub narrow : Lit → List Entry → Linear → Linear × Bool
narrow q [] c = (c, true)
narrow q ((l, i, j) ∷ es) c =
    let lower = ltb j (get_or c.ub_index i 0) in
    let d = if lower then tighten c i j else c in
    let rest = narrow q es d in
    if l == q then (if lower && ltb_ℤ d.total_ub (pos 0) then (d, false) else rest) else (c, true)

-- std::lower_bound in a domain: how many of its first values are below `x`.
unfoldable pub lower_bound : List ℤ → ℤ → ℕ
lower_bound [] x = 0
lower_bound (d ∷ ds) x = if ltb_ℤ d x then suc (lower_bound ds x) else 0

-- Whether the second loop has nothing to enqueue for a term with the upper bound `ub`.
unfoldable pub slack : ℤ → LinearTerm → ℕ → Bool
slack total t ub =
    ub == 0
    || not (ltb_ℤ (total -ℤ (get_or t.domain ub (pos 0) -ℤ get_or t.domain 0 (pos 0))) (pos 0))

-- The literal that it enqueues.
unfoldable pub forced_lit : ℤ → LinearTerm → ℕ → Lit
unfolding lower_bound
forced_lit total t ub =
    get_or t.lits (lower_bound t.domain (get_or t.domain ub (pos 0) -ℤ total) - 1) 0

-- The second loop, over the terms with their upper bounds.
unfoldable pub force : Solver → ConstraintRef → ℤ → List LinearTerm → List ℕ → Solver × Bool
unfolding slack forced_lit
force s self total [] us = (s, true)
force s self total (t ∷ ts) [] = (s, true)
force s self total (t ∷ ts) (u ∷ us) =
    let (s', done) = if slack total t u then (s, true) else enqueue s (forced_lit total t u) self in
    let rest = force s' self total ts us in if done then rest else (s', false)

-- The two pushes at the start.
unfoldable pub start : Linear → Lit → Linear
start c p = record c { active_lits = p ∷ c.active_lits; undo_list = none ∷ c.undo_list }

unfoldable pub propagate : Solver → ConstraintRef → Linear → Lit → Solver × Linear × Bool
unfolding start from_lit narrow force
propagate s self c p =
    let s' = register_undo s (var p) self in
    let (d, ok) = narrow (neg p) (from_lit (neg p) c.lits) (start c p) in
    let (t, done) = force s' self d.total_ub d.terms d.ub_index in
    if ok then (t, d, done) else (s', d, false)

-- The literals for the upper bounds that are not the greatest values.
unfoldable pub bound_lits : List LinearTerm → List ℕ → List Lit
bound_lits [] us = []
bound_lits (t ∷ ts) [] = []
bound_lits (t ∷ ts) (u ∷ us) =
    let rest = bound_lits ts us in
    if ltb u (length t.lits) then neg (get_or t.lits u 0) ∷ rest else rest

-- `p` is not read.
unfoldable pub calc_reason : Linear → Option Lit → List Lit
unfolding bound_lits
calc_reason c extra = bound_lits c.terms c.ub_index ++ (elim extra [ none ↦ [] | some e ↦ e ∷ [] ])

-- The loop of `undo`.
unfoldable pub unwind : List (Option (ℕ × ℕ)) → Linear → Linear
unwind [] c = c
unwind (none ∷ us) c = record c { undo_list = us }
unwind (some (i, j) ∷ us) c = unwind us (record c {
  undo_list = us;
  total_ub = c.total_ub +ℤ (domain_at c.terms i j -ℤ domain_at c.terms i (get_or c.ub_index i 0));
  ub_index = set c.ub_index i j;
})

abbrev pub pop : List Lit → List Lit
pop [] = []
pop (l ∷ ls) = ls

unfoldable pub undo : Linear → Linear
unfolding unwind
undo c = let d = unwind c.undo_list c in record d { active_lits = pop d.active_lits }

-- std::set<Lit> with the negations of the literals.
unfoldable pub insert_set : Lit → List Lit → List Lit
insert_set l [] = l ∷ []
insert_set l (m ∷ ms) =
    if l == m then m ∷ ms else if ltb l m then l ∷ m ∷ ms else m ∷ insert_set l ms

unfoldable pub watchers : List Entry → List Lit
unfolding insert_set
watchers [] = []
watchers ((l, i, j) ∷ es) = insert_set (neg l) (watchers es)

unfoldable pub watch_all : Solver → ConstraintRef → List Lit → Solver
watch_all s self [] = s
watch_all s self (l ∷ ls) = watch_all (add_watch s l self) self ls

unfoldable pub propagate_true : Solver → ConstraintRef → Linear → List Lit → Solver × Linear × Bool
unfolding propagate
propagate_true s self c [] = (s, c, true)
propagate_true s self c (l ∷ ls) =
    let (t, d, done) = if eq (value s l) l_true then propagate s self c l else (s, c, true) in
    let rest = propagate_true t self d ls in if done then rest else (t, d, false)

unfoldable pub initialize : Solver → ConstraintRef → Linear → Solver × Linear × Bool
unfolding watchers watch_all propagate_true
initialize s self c =
    let ls = watchers c.lits in
    let (t, d, done) = propagate_true (watch_all s self ls) self c ls in
    if done then (t, d, not (ltb_ℤ d.total_ub (pos 0))) else (t, d, false)
