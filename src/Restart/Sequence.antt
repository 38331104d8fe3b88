-- ===== src/Restart/Sequence.antt =====
-- `luby` gives the sequence of Luby, Sinclair and Zuckerman.
use glucose.Prelude.{
  ℕ, zero, suc, ◌+◌, ◌-◌, ◌*◌, ◌/◌, ◌%◌, ◌≤◌, ◌<◌, ◌≡◌, refl, sym, ap, subst, ◌∙◌, inl, inr, true,
  Option, none, some, arith, ltb, ◌==◌, Bool-cases,
}
use native.Mathlib.Nat.{mod-eq_of_lt, add-mod_right}
use glucose.Restart.{grow, shrink, luby}

-- 2 to the `k + 1`, less 1.
abbrev pub full : ℕ → ℕ
full zero = 1
full (suc k) = 2 * full k + 1

-- The sequence: up to place `full k - 1` it is twice the sequence up to place `full (k - 1) - 1`, and
-- then `k`.
pub data Luby : ℕ → ℕ → Type 0 where
  last : (x v : ℕ) → x + 1 ≡ full v → Luby x v
  again : (x v k : ℕ) → full k ≤ x → x < 2 * full k → Luby (x - full k) v → Luby x v

full-lt : (k : ℕ) → k < full k
full-lt zero = omega arith
full-lt (suc k) = omega (arith, full-lt k)

half_full : (k : ℕ) → (full (suc k) - 1) / 2 ≡ full k
half_full k = omega arith

mod_below : (x k : ℕ) → full k ≤ x → x < 2 * full k → x % full k ≡ x - full k
mod_below x k le lt =
    let e : x ≡ (x - full k) + full k = omega arith in
    let small : x - full k < full k = omega arith in
    ap (λ y. y % full k) e ∙ add-mod_right (x - full k) (full k) ∙ mod-eq_of_lt small

-- The result of the second loop.
abbrev pub IsLuby : ℕ → Option ℕ → Type 0
IsLuby x none = ⊥
IsLuby x (some v) = Luby x v

IsLuby-again :
    (x k : ℕ) (r : Option ℕ) → full k ≤ x → x < 2 * full k → IsLuby (x - full k) r → IsLuby x r
IsLuby-again x k none le lt h = absurd h
IsLuby-again x k (some v) le lt h = again x v k le lt h

shrink-IsLuby : (fuel k x : ℕ) → k < fuel → x < full k → IsLuby x (shrink fuel (full k) k x)
unfolding shrink
shrink-IsLuby zero k x lt h = absurd (omega arith)
shrink-IsLuby (suc fuel) zero x lt h =
    let here : (1 - 1 == x) ≡ true = ground arith in rw (shrink, here) (last x 0 (omega arith))
shrink-IsLuby (suc fuel) (suc k) x lt h = elim (Bool-cases (full (suc k) - 1 == x)) [
  | inl here ↦ rw (shrink, here) (last x (suc k) (ground arith))
  | inr other ↦
      let low : x < 2 * full k = ground arith in
      let before : suc k - 1 ≡ k = omega arith in
      elim (Bool-cases (ltb x (full k))) [
        | inl below ↦
            let small : x < full k = ground arith in
            rw (shrink, other, half_full k, before, mod-eq_of_lt small)
              (shrink-IsLuby fuel k x (omega arith) small)
        | inr above ↦
            let le : full k ≤ x = ground arith in
            rw (shrink, other, half_full k, before, mod_below x k le low)
              (IsLuby-again x k (shrink fuel (full k) k (x - full k)) le low
                (shrink-IsLuby fuel k (x - full k) (omega arith) (omega arith)))
      ]
]

-- The first loop ends at a full subsequence that contains the index.
Contains : ℕ → ℕ × ℕ → Type 0
Contains x (size, seq) = (size ≡ full seq) × (x < size)

grow-Contains : (fuel k x : ℕ) → x < full k + fuel → Contains x (grow fuel (full k) k x)
unfolding grow Contains
grow-Contains zero k x h = (refl, omega (arith, h))
grow-Contains (suc fuel) k x h = elim (Bool-cases (ltb (full k) (x + 1))) [
  | inr enough ↦ rw (grow, enough) (refl, ground arith)
  | inl more ↦
      let next : k + 1 ≡ suc k = omega arith in
      rw (grow, more, next) (grow-Contains fuel (suc k) x (omega (arith, h)))
]

-- The two loops end, and `luby` gives at each index the exponent of Luby's sequence there.
pub luby-IsLuby : (x : ℕ) → IsLuby x (luby x)
unfolding luby Contains
luby-IsLuby x =
    let c = grow-Contains (x + 1) 0 x (omega arith) in
    let (size, seq) = grow (x + 1) 1 0 x in
    let e : size ≡ full seq = c.0 in
    subst (λ n. IsLuby x (shrink n n seq x)) (sym e)
      (shrink-IsLuby (full seq) seq x (full-lt seq) (omega (arith, c.0, c.1)))
