-- ===== src/Constraint/Graph/States.antt =====
-- Case splits on the state of a vertex, and the constructors that are apart or injective.
use mathlib.Core.Option.{some-injective}
use glucose.Prelude.{◌≡◌, refl, ◌≢◌, ◌⊎◌, inl, inr, true, false, some, arith}
use glucose.Constraint.Graph.{NodeState, undecided, active, inactive, is_active, is_inactive}

pub some_of {ℓ} : {A : Type ℓ} {x y : A} → some x ≡ some y → x ≡ y
some_of k = some-injective _ _ k

pub true-ne-false : true ≢ false
true-ne-false e = ground arith

pub State-cases : (x : NodeState) → (x ≡ undecided) ⊎ ((x ≡ active) ⊎ (x ≡ inactive))
State-cases undecided = inl refl
State-cases active = inr (inl refl)
State-cases inactive = inr (inr refl)

pub State-split : (x : NodeState) → (is_active x ≡ true) × (x ≡ active) ⊎ (is_active x ≡ false)
unfolding is_active
State-split undecided = inr refl
State-split active = inl (refl, refl)
State-split inactive = inr refl

pub active-known : (x : NodeState) → is_active x ≡ true → x ≢ undecided
unfolding is_active
active-known undecided e k = ground arith
active-known active e k = ground arith
active-known inactive e k = ground arith

pub inactive-known : (x : NodeState) → is_inactive x ≡ true → x ≢ undecided
unfolding is_inactive
inactive-known undecided e k = ground arith
inactive-known active e k = ground arith
inactive-known inactive e k = ground arith
