-- ===== src/Search/Attach/Listed.antt =====
-- The lists of watchers after a clause has been attached.
use glucose.Prelude.{
  ◌<◌, ◌≡◌, refl, ap, inl, inr, true, false, List, [], ◌∷◌, ◌++◌, arith, ◌==◌, if◌then◌else◌,
  eq_of_==, Bool-cases, update,
}
use glucose.Prelude.Lists.{length}
use glucose.Lit.{Lit, neg}
use glucose.Lit.Laws.{neg-injective}
use glucose.Solver.{CRef}
use glucose.Search.{Watcher, Search}
use glucose.Search.Times.{IsUnique}
use glucose.Search.Attach.{attach_as}

pub first_two : (x y : Lit) (c : List Lit) → IsUnique (x ∷ y ∷ c) → (neg x == neg y) ≡ false
first_two x y c u = elim (Bool-cases (neg x == neg y)) [
  | inr other ↦ other
  | inl same ↦
      let e = neg-injective x y (eq_of_== (neg x) (neg y) same) in absurd (ground (arith, u x))
]

-- The first list of watchers is the second one with the watchers of the clause `cr` at its end: one
-- in the list of each negation of its two first literals `x` and `y`, which has the other one as its
-- blocker.
abbrev pub Watches : CRef → Lit → Lit → (Lit → List Watcher) → (Lit → List Watcher) → Type 0
Watches cr x y W' W =
    (q : Lit)
    → W' q ≡ (
        if q == neg x
        then W q ++ record { cref = cr; blocker = y } ∷ []
        else if q == neg y
        then W q ++ record { cref = cr; blocker = x } ∷ []
        else W q)

-- The lists after the clause has been attached: a binary clause is watched in `watchesBin` only, a
-- longer one in `watches` only, and a shorter one cannot be.
abbrev pub IsWatched : {X : Type 0} → CRef → List Lit → Search X → Search X → Type 0
IsWatched cr [] S T = ⊥
IsWatched cr (x ∷ []) S T = ⊥
IsWatched cr (x ∷ y ∷ []) S T =
    Watches cr x y T.watches_bin S.watches_bin × ((q : Lit) → T.watches q ≡ S.watches q)
IsWatched cr (x ∷ y ∷ z ∷ zs) S T =
    Watches cr x y T.watches S.watches × ((q : Lit) → T.watches_bin q ≡ S.watches_bin q)

pushed :
    (W : Lit → List Watcher) (cr : CRef) (x y q : Lit)
    → (neg x == neg y) ≡ false
    → let v : Watcher = record { cref = cr; blocker = y } in
      let w : Watcher = record { cref = cr; blocker = x } in
      let A = update W (neg x) (W (neg x) ++ v ∷ []) in
      update A (neg y) (A (neg y) ++ w ∷ []) q
      ≡ (if q == neg x then W q ++ v ∷ [] else if q == neg y then W q ++ w ∷ [] else W q)
pushed W cr x y q apart = elim (Bool-cases (neg y == q)) [
  | inl same ↦
      let e = eq_of_== (neg y) q same in
      let turned : (q == neg x) ≡ false = ground arith in
      let here : (q == neg y) ≡ true = ground arith in
      rw (same, apart, turned, here) (ap (λ z. W z ++ record { cref = cr; blocker = x } ∷ []) e)
  | inr other ↦
      let not_y : (q == neg y) ≡ false = ground arith in
      elim (Bool-cases (neg x == q)) [
        | inl same ↦
            let e = eq_of_== (neg x) q same in
            let here : (q == neg x) ≡ true = ground arith in
            rw (other, same, here) (ap (λ z. W z ++ record { cref = cr; blocker = y } ∷ []) e)
        | inr neither ↦
            let not_x : (q == neg x) ≡ false = ground arith in
            rw (other, neither, not_x, not_y) refl
      ]
]

pub attach_as-IsWatched :
    {X : Type 0} (S : Search X) (cr : CRef) (c : List Lit)
    → 1 < length c
    → IsUnique c
    → IsWatched cr c S (attach_as cr c S)
unfolding attach_as
attach_as-IsWatched S cr [] long u = absurd (ground arith)
attach_as-IsWatched S cr (x ∷ []) long u = absurd (ground arith)
attach_as-IsWatched S cr (x ∷ y ∷ []) long u =
    ((λ q. pushed S.watches_bin cr x y q (first_two x y [] u)), (λ q. refl))
attach_as-IsWatched S cr (x ∷ y ∷ z ∷ zs) long u =
    ((λ q. pushed S.watches cr x y q (first_two x y (z ∷ zs) u)), (λ q. refl))
