-- ===== src/Simp/Stack/Front.antt =====
-- What `mkElimClause` stores of a clause: a block of its literal on `v` and the others.
use mathlib.Core.List.{reverse}
use mathlib.Core.Path.{ap₂}
use glucose.Prelude.{
  ℕ, suc, ◌≡◌, refl, sym, ap, ◌∙◌, ◌≢◌, inl, inr, ◌||◌, none, some, List, [], ◌∷◌, ◌++◌, arith,
}
use glucose.Prelude.Lists.{length, get_or, set, length-set, In, All-In}
use glucose.Lit.{Lit, Var, var}
use glucose.Lit.Truth.{Assignment, holds, satisfies}
use glucose.Simp.Merge.{without}
use glucose.Simp.Merge.Size.{Avoids, IsProper, without-Avoids}
use glucose.Simp.Stack.{v_pos, to_front, push_clause}
use glucose.Simp.Stack.Extend.{Block, words}

v_pos-Avoids : (v : Var) (c : List Lit) → Avoids v c → v_pos v c ≡ none
unfolding v_pos
v_pos-Avoids v [] h = refl
v_pos-Avoids v (p ∷ c) h = ground (arith, v_pos-Avoids v c h.1, h.0)

-- The literal `p` on `v` is at `i`, and another literal takes its place there.
record At (v : Var) (c : List Lit) (p : Lit) (i : ℕ) : Type 0 where
  found : v_pos v c ≡ some i
  read : get_or c i 0 ≡ p
  others : (q : Lit) → var q ≢ v → Avoids v (set c i q)
  truth :
      (a : Assignment) (q : Lit)
      → satisfies a (set c i q) ≡ (holds a q || satisfies a (without v c))

v_pos-At :
    (v : Var) (c : List Lit) (p : Lit) → IsProper c → In p c → var p ≡ v → (i : ℕ) × At v c p i
unfolding v_pos without
v_pos-At v [] p h m e = absurd m
v_pos-At v (r ∷ c) p h (inl same) e =
    let here : var r ≡ v = ap var same ∙ e in
    let away : Avoids v c = rw here at h.0 in
    (
      0,
      record {
        found = ground (arith, v_pos-Avoids v c away);
        read = same;
        others = λ q n. (n, away);
        truth = λ a q. ground (arith, without-Avoids v c away);
      },
    )
v_pos-At v (r ∷ c) p h (inr m) e =
    let (i, at) = v_pos-At v c p h.1 m e in
    let off = All-In (λ q. var q ≢ var r) c h.0 m in
    (
      suc i,
      record {
        found = ground (arith, at.found);
        read = at.read;
        others = λ q n. (λ k. off (e ∙ sym k), at.others q n);
        truth = λ a q. ground (arith, at.truth a q);
      },
    )

-- The block that stands for the clause on the stack.
pub record Stores (v : Var) (p : Lit) (c : List Lit) (b : Block) : Type 0 where
  pub first : b.0 ≡ p
  pub rest_avoids : Avoids v b.1
  pub rest_truth : (a : Assignment) → satisfies a b.1 ≡ satisfies a (without v c)

pub to_front-Stores :
    (v : Var) (c : List Lit) (p : Lit)
    → IsProper c
    → In p c
    → var p ≡ v
    → (b : Block) × (to_front v c ≡ b.0 ∷ b.1) × (length c ≡ suc (length b.1)) × Stores v p c b
unfolding to_front v_pos without
to_front-Stores v [] p h m e = absurd m
to_front-Stores v (r ∷ c) p h (inl same) e =
    let here : var r ≡ v = ap var same ∙ e in
    let away : Avoids v c = rw here at h.0 in
    (
      (r, c),
      ground (arith, v_pos-Avoids v c away),
      refl,
      record {
        first = same;
        rest_avoids = away;
        rest_truth = λ a. ground (arith, without-Avoids v c away);
      },
    )
to_front-Stores v (r ∷ c) p h (inr m) e =
    let (i, at) = v_pos-At v c p h.1 m e in
    let off = All-In (λ q. var q ≢ var r) c h.0 m in
    let away : var r ≢ v = λ k. off (e ∙ sym k) in
    (
      (p, set c i r),
      ground (arith, at.found, at.read),
      ap suc (sym (length-set c i r)),
      record {
        first = refl;
        rest_avoids = at.others r away;
        rest_truth = λ a. ground (arith, at.truth a r);
      },
    )

-- Pushing a clause pushes one block.
pub push_clause-Stores :
    (bs : List Block) (v : Var) (c : List Lit) (p : Lit)
    → IsProper c
    → In p c
    → var p ≡ v
    → (b : Block) × (push_clause (words bs) v c ≡ words (b ∷ bs)) × Stores v p c b
unfolding push_clause
push_clause-Stores bs v c p h m e =
    let (b, front, size, s) = to_front-Stores v c p h m e in
    (b, ap₂ (λ n l. n ∷ (reverse l ++ words bs)) size front, s)
