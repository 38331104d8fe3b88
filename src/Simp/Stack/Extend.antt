-- ===== src/Simp/Stack/Extend.antt =====
-- `extendModel` on a stack of blocks: each block is a clause whose first literal is made true if
-- all others are false.
use mathlib.Core.List.{reverse, reverse-cons, append_assoc}
use mathlib.Core.Path.{fun_ext}
use glucose.Prelude.{
  ℕ, zero, suc, ◌+◌, ◌≤◌, ◌<◌, ◌≡◌, refl, ap, ◌∙◌, inl, inr, Bool, not, List, [], ◌∷◌, ◌++◌, arith,
  if◌then◌else◌, Bool-cases, update,
}
use glucose.Prelude.Lists.{length, length-append}
use glucose.Lit.{Lit, Var, var, sign}
use glucose.Lit.Truth.{Assignment, holds, satisfies, satisfies-append}
use glucose.Lbool.{l_false, of_bool, eq}
use glucose.Simp.Stack.{Words, Model, model_value, drop, scan_block, extend_loop, extend_model}

-- The literal that a block repairs, and the others.
abbrev pub Block : Type 0
Block = Lit × List Lit

-- The stack of blocks as words, the newest block first.
abbrev pub words : List Block → Words
words [] = []
words ((x, c) ∷ bs) = suc (length c) ∷ (reverse (x ∷ c) ++ words bs)

abbrev pub repair : Assignment → Block → Assignment
repair a (x, c) = if satisfies a c then a else update a (var x) (not (sign x))

abbrev pub repair_all : Assignment → List Block → Assignment
repair_all a [] = a
repair_all a (b ∷ bs) = repair_all (repair a b) bs

-- A model with a value for each variable.
abbrev pub full : Assignment → Model
full a v = of_bool (a v)

model_value-full :
    (a : Assignment) (p : Lit) → eq (model_value (full a) p) l_false ≡ not (holds a p)
unfolding model_value holds
model_value-full a p = ground arith

update-full :
    (a : Assignment) (v : Var) (b : Bool) → update (full a) v (of_bool b) ≡ full (update a v b)
update-full a v b = fun_ext λ w. ground arith

drop-append : (c e : Words) (x : ℕ) → drop (suc (length c)) (c ++ x ∷ e) ≡ e
drop-append [] e x = refl
drop-append (p ∷ c) e x = drop-append c e x

scan_block-words :
    (a : Assignment) (c : List Lit) (x : Lit) (e : Words)
    → scan_block (full a) (suc (length c)) (c ++ x ∷ e) ≡ (full (repair a (x, c)), e)
unfolding scan_block
scan_block-words a [] x e = ap (λ m. (m, e)) (update-full a (var x) (not (sign x)))
scan_block-words a (p ∷ c) x e = elim (Bool-cases (holds a p)) [
  | inl t ↦ rw (model_value-full a p, t) (ap (λ r. (full a, r)) (drop-append c e x))
  | inr f ↦ rw (model_value-full a p, f) (scan_block-words a c x e)
]

satisfies-reverse : (a : Assignment) (c : List Lit) → satisfies a (reverse c) ≡ satisfies a c
satisfies-reverse a [] = refl
satisfies-reverse a (p ∷ c) =
    rw (reverse-cons p c, satisfies-append a (reverse c) (p ∷ []), satisfies-reverse a c)
      (ground arith)

length-reverse : (c : List Lit) → length (reverse c) ≡ length c
length-reverse [] = refl
length-reverse (p ∷ c) =
    rw (reverse-cons p c, length-append (reverse c) (p ∷ []), length-reverse c) (omega arith)

-- The inner loop on one block of the stack.
scan_block-block :
    (a : Assignment) (b : Block) (e : Words)
    → scan_block (full a) (suc (length b.1)) (reverse (b.0 ∷ b.1) ++ e) ≡ (full (repair a b), e)
scan_block-block a (x, c) e =
    rw (reverse-cons x c, append_assoc (reverse c) (x ∷ []) e, ← length-reverse c)
      (scan_block-words a (reverse c) x e
        ∙ ap (λ s. (full (if s then a else update a (var x) (not (sign x))), e))
            (satisfies-reverse a c))

extend_loop_step :
    (fuel : ℕ) (m : Model) (n : ℕ) (l : Words)
    → 0 < length l
    → extend_loop (suc fuel) m (n ∷ l) ≡ extend_loop fuel (scan_block m n l).0 (scan_block m n l).1
unfolding extend_loop
extend_loop_step fuel m n [] h = elim h [ ]
extend_loop_step fuel m n (p ∷ l) h = refl

length-block :
    (x : Lit) (c : List Lit) (e : Words) → length (reverse (x ∷ c) ++ e) ≡ suc (length c) + length e
length-block x c e = omega (arith, length-append (reverse (x ∷ c)) e, length-reverse (x ∷ c))

extend_loop-words :
    (fuel : ℕ) (a : Assignment) (bs : List Block)
    → length (words bs) ≤ fuel
    → extend_loop fuel (full a) (words bs) ≡ full (repair_all a bs)
unfolding extend_loop
extend_loop-words zero a [] h = refl
extend_loop-words (suc fuel) a [] h = refl
extend_loop-words zero a ((x, c) ∷ bs) h = absurd (omega arith)
extend_loop-words (suc fuel) a ((x, c) ∷ bs) h =
    let block = scan_block-block a (x, c) (words bs) in
    let size = length-block x c (words bs) in
    extend_loop_step fuel (full a) (suc (length c)) (reverse (x ∷ c) ++ words bs) (omega arith)
    ∙ rw block (extend_loop-words fuel (repair a (x, c)) bs (omega arith))

-- `extendModel` on a model with a value for each variable repairs it block by block, from the last
-- pushed to the first; the loop ends at the bottom of the stack.
pub extend_model-repairs :
    (a : Assignment) (bs : List Block) → extend_model (full a) (words bs) ≡ full (repair_all a bs)
unfolding extend_model
extend_model-repairs a bs = extend_loop-words (length (words bs)) a bs (omega arith)
