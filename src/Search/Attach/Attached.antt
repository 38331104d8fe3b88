-- ===== src/Search/Attach/Attached.antt =====
-- Attaching a clause, and detaching it.
use glucose.Prelude.{
  ℕ, ◌<◌, ◌≡◌, refl, sym, ap, subst, ◌∙◌, inl, inr, true, false, List, [], ◌∷◌, ◌++◌, arith, ◌==◌,
  ==_refl, eq_of_==, Bool-cases, update,
}
use glucose.Prelude.Lists.{length, All, All-append}
use glucose.Lit.{Lit, neg}
use glucose.Lit.Laws.{neg-neg}
use glucose.Lit.Truth.{Assignment, holds, holds-neg}
use glucose.Solver.{Solver, CRef}
use glucose.Search.{Watcher, Search, push_watch}
use glucose.Search.Times.{times, IsUnique}
use glucose.Search.Watched.{Heads}
use glucose.Search.Guards.{IsClause, Guards, crefs, IsList, unique_snoc}
use glucose.Search.Binaries.{Implied}
use glucose.Search.Sound.{Sane}
use glucose.Search.Attach.Listed.{first_two, IsWatched, attach_as-IsWatched}
use glucose.Search.Attach.{remove, attach_as, attach_clause, detach_as, detach_clause, push_bin}

-- No watcher of the clause is in the list.
abbrev pub IsNew : CRef → List Watcher → Type 0
IsNew cr ws = times cr (crefs ws) ≡ 0

remove-snoc :
    (cr : CRef) (ws : List Watcher) (w : Watcher)
    → w.cref ≡ cr
    → IsNew cr ws
    → remove cr (ws ++ w ∷ []) ≡ ws
unfolding remove
remove-snoc cr [] w e h = refl
remove-snoc cr (v ∷ []) w e h = let other : (v.cref == cr) ≡ false = ground arith in rw other refl
remove-snoc cr (v ∷ u ∷ ws) w e h =
    let other : (v.cref == cr) ≡ false = ground arith in
    rw (other, remove-snoc cr (u ∷ ws) w e (ground arith)) refl

module _ (a : Assignment) (n : ℕ) (ca : CRef → List Lit) where
  push-IsList :
      (W : Lit → List Watcher) (p : Lit) (w : Watcher)
      → ((q : Lit) → IsList a n ca q (W q))
      → IsNew w.cref (W p)
      → Guards a n ca p w
      → (q : Lit) → IsList a n ca q (update W p (W p ++ w ∷ []) q)
  push-IsList W p w h new g q = elim (Bool-cases (p == q)) [
    | inr other ↦ rw other (h q)
    | inl same ↦ rw same (
        subst (λ q. IsList a n ca q (W p ++ w ∷ [])) (eq_of_== p q same)
          (
            All-append (Guards a n ca p) (W p) (w ∷ []) (h p).0 (g, tt),
            λ x. unique_snoc x (W p) w new ((h p).1 x),
          ))
  ]

push-Implied :
    (a : Assignment) (n : ℕ) (W : Lit → List Watcher) (p : Lit) (w : Watcher)
    → ((q : Lit) → holds a q ≡ true → All (Implied a n) (W q))
    → (holds a p ≡ true → Implied a n w)
    → (q : Lit) → holds a q ≡ true
    → All (Implied a n) (update W p (W p ++ w ∷ []) q)
push-Implied a n W p w h new q t = elim (Bool-cases (p == q)) [
  | inr other ↦ rw other (h q t)
  | inl same ↦
      let e = eq_of_== p q same in
      let t' = ap (holds a) e ∙ t in
      rw same (All-append (Implied a n) (W p) (w ∷ []) (h p t') (new t', tt))
]

attached :
    {X : Type 0} (a : Assignment) (n : ℕ) (Holds : Solver → X → Type 0) (S : Search X) (cr : CRef)
    (c : List Lit)
    → S.ca cr ≡ c
    → IsClause a n c
    → ((q : Lit) → IsNew cr (S.watches q))
    → Sane a n Holds S
    → Sane a n Holds (attach_as cr c S)
unfolding attach_as
attached a n Holds S cr [] e is new sane = sane
attached a n Holds S cr (x ∷ []) e is new sane = sane
attached a n Holds S cr (x ∷ y ∷ []) e is new sane =
    let v : Watcher = record { cref = cr; blocker = y } in
    let w : Watcher = record { cref = cr; blocker = x } in
    let T = push_bin S (neg x) v in
    let bins =
      push-Implied a n S.watches_bin (neg x) v sane.bins
        (λ t. (ground (arith, is.0, holds-neg a x), is.2 y (inr (inl refl)))) in
    record {
      fine = sane.fine;
      lists = sane.lists;
      bins =
          push-Implied a n T.watches_bin (neg y) w bins
            (λ t. (ground (arith, is.0, holds-neg a y), is.2 x (inl refl)));
      are_held = sane.are_held;
    }
attached a n Holds S cr (x ∷ y ∷ z ∷ zs) e is new sane =
    let v : Watcher = record { cref = cr; blocker = y } in
    let w : Watcher = record { cref = cr; blocker = x } in
    let T = push_watch S (neg x) v in
    let is' : IsClause a n (S.ca cr) = subst (IsClause a n) (sym e) is in
    let first : Guards a n S.ca (neg x) v =
      (is', subst (Heads (neg x)) (sym e) (inl (sym (neg-neg x)))) in
    let second : Guards a n S.ca (neg y) w =
      (is', subst (Heads (neg y)) (sym e) (inr (sym (neg-neg y)))) in
    let apart = first_two x y (z ∷ zs) is.1 in
    let lists = push-IsList a n S.ca S.watches (neg x) v sane.lists (new (neg x)) first in
    record {
      fine = sane.fine;
      lists = push-IsList a n S.ca T.watches (neg y) w lists (rw apart (new (neg y))) second;
      bins = sane.bins;
      are_held = sane.are_held;
    }

-- Let the solver's state be one that `propagate` starts from, for an assignment. A clause that is
-- true in the assignment, of two literals at least, all of the first `n` variables and without
-- duplicates, and that is not watched yet, can be attached: the state is again one that `propagate`
-- starts from. The lists of watchers are as they were, but for one new watcher of the clause at the
-- end of the list of the negation of its first literal, with the second as blocker, and one in that
-- of the negation of its second, with the first as blocker: for a binary clause in the lists of
-- binary clauses, for a longer one in the others.
pub attach_clause-Sane :
    {X : Type 0} (a : Assignment) (n : ℕ) (Holds : Solver → X → Type 0) (S : Search X) (cr : CRef)
    → IsClause a n (S.ca cr)
    → 1 < length (S.ca cr)
    → ((q : Lit) → IsNew cr (S.watches q))
    → Sane a n Holds S
    → Sane a n Holds (attach_clause cr S) × IsWatched cr (S.ca cr) S (attach_clause cr S)
attach_clause-Sane a n Holds S cr is long new sane = (
  attached a n Holds S cr (S.ca cr) refl is new sane,
  attach_as-IsWatched S cr (S.ca cr) long is.1,
)

-- Two pushes, undone.
two_pushes :
    (W : Lit → List Watcher) (cr : CRef) (p q : Lit) (v w : Watcher)
    → v.cref ≡ cr
    → w.cref ≡ cr
    → ((r : Lit) → IsNew cr (W r))
    → (p == q) ≡ false
    → let A = update W p (W p ++ v ∷ []) in
      let B = update A q (A q ++ w ∷ []) in
      let C = update B p (remove cr (B p)) in (r : Lit) → update C q (remove cr (C q)) r ≡ W r
two_pushes W cr p q v w e f new apart r =
    let apart' : (q == p) ≡ false = ground arith in
    let here = ==_refl p in
    let there = ==_refl q in
    elim (Bool-cases (q == r)) [
      | inl same ↦
          rw (same, apart, there, remove-snoc cr (W q) w f (new q)) (ap W (eq_of_== q r same))
      | inr other ↦ elim (Bool-cases (p == r)) [
        | inl same ↦
            rw (other, same, apart', here, remove-snoc cr (W p) v e (new p))
              (ap W (eq_of_== p r same))
        | inr neither ↦ rw (other, neither) refl
      ]
    ]

ca-attach_as : {X : Type 0} (cr : CRef) (c : List Lit) (S : Search X) → (attach_as cr c S).ca ≡ S.ca
unfolding attach_as
ca-attach_as cr [] S = refl
ca-attach_as cr (x ∷ []) S = refl
ca-attach_as cr (x ∷ y ∷ []) S = refl
ca-attach_as cr (x ∷ y ∷ z ∷ zs) S = refl

-- The lists of watchers are the same.
abbrev pub SameLists : {X : Type 0} → Search X → Search X → Type 0
SameLists S T =
    ((q : Lit) → T.watches q ≡ S.watches q) × ((q : Lit) → T.watches_bin q ≡ S.watches_bin q)

detach_as-attach_as :
    {X : Type 0} (S : Search X) (cr : CRef) (c : List Lit)
    → IsUnique c
    → ((q : Lit) → IsNew cr (S.watches q))
    → ((q : Lit) → IsNew cr (S.watches_bin q))
    → SameLists S (detach_as cr c (attach_as cr c S))
unfolding attach_as detach_as
detach_as-attach_as S cr [] u new new_bin = ((λ q. refl), (λ q. refl))
detach_as-attach_as S cr (x ∷ []) u new new_bin = ((λ q. refl), (λ q. refl))
detach_as-attach_as S cr (x ∷ y ∷ []) u new new_bin = (
  (λ q. refl),
  two_pushes S.watches_bin cr (neg x) (neg y) (record { cref = cr; blocker = y })
      (record { cref = cr; blocker = x }) refl refl new_bin (first_two x y [] u),
)
detach_as-attach_as S cr (x ∷ y ∷ z ∷ zs) u new new_bin = (
  two_pushes S.watches cr (neg x) (neg y) (record { cref = cr; blocker = y })
      (record { cref = cr; blocker = x }) refl refl new (first_two x y (z ∷ zs) u),
  (λ q. refl),
)

-- Detaching a clause that has been attached, strictly, brings back the lists of watchers, where the
-- clause has no literal twice and no watcher of it was in them.
pub detach_clause-attach_clause :
    {X : Type 0} (S : Search X) (cr : CRef)
    → IsUnique (S.ca cr)
    → ((q : Lit) → IsNew cr (S.watches q))
    → ((q : Lit) → IsNew cr (S.watches_bin q))
    → SameLists S (detach_clause cr (attach_clause cr S))
detach_clause-attach_clause S cr u new new_bin =
    let T = attach_clause cr S in
    let same : T.ca cr ≡ S.ca cr = ap (λ f. f cr) (ca-attach_as cr (S.ca cr) S) in
    subst (λ c. SameLists S (detach_as cr c T)) (sym same)
      (detach_as-attach_as S cr (S.ca cr) u new new_bin)
