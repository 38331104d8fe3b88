-- ===== src/Analyze/Redundant/Visit.antt =====
-- What `litRedundant` does with the reason of one literal.
use glucose.Prelude.{
  ℕ, zero, suc, ◌+◌, ◌≤◌, ◌<◌, ◌≡◌, refl, sym, subst, ◌∙◌, ◌⊎◌, inl, inr, Bool, true, false, not,
  ◌&&◌, List, [], ◌∷◌, arith, ltb, ◌==◌, if◌then◌else◌, ==_refl, eq_of_==, Bool-cases, update,
}
use glucose.Prelude.Lists.{All, In, length}
use glucose.Lit.{Lit, Var, neg, var}
use glucose.Lit.Laws.{var-neg}
use glucose.Lbool.{l_true, l_false}
use glucose.Solver.{Solver, value}
use glucose.Search.Watched.{value-neg}
use glucose.Analyze.Marks.{same_false}
use glucose.Analyze.Redundant.{Marks, has_clause, may_go, visit, clear_each}

-- How many of the first `n` variables are not marked.
abbrev pub unseen : ℕ → (Var → Bool) → ℕ
unseen zero f = 0
unseen (suc n) f = if f n then unseen n f else suc (unseen n f)

unseen-update_out : (n v : ℕ) (f : Var → Bool) → n ≤ v → unseen n (update f v true) ≡ unseen n f
unseen-update_out zero v f h = refl
unseen-update_out (suc n) v f h =
    let apart : (v == n) ≡ false = ground arith in
    rw (apart, unseen-update_out n v f (omega arith)) refl

unseen-update :
    (n v : ℕ) (f : Var → Bool) → v < n → f v ≡ false → suc (unseen n (update f v true)) ≡ unseen n f
unseen-update zero v f h e = absurd (omega arith)
unseen-update (suc n) v f h e = elim (Bool-cases (v == n)) [
  | inl here ↦
      let e' : f n ≡ false = subst (λ v. f v ≡ false) (eq_of_== v n here) e in
      ground (arith, unseen-update_out n v f (ground arith))
  | inr below ↦ ground (arith, unseen-update n v f (ground arith) e)
]

clear_each-same :
    (ps : List Lit) (f g : Var → Bool)
    → ((v : Var) → f v ≡ g v)
    → (v : Var) → clear_each ps f v ≡ clear_each ps g v
clear_each-same [] f g h v = h v
clear_each-same (p ∷ ps) f g h v =
    clear_each-same ps (update f (var p) false) (update g (var p) false)
      (λ w. elim (Bool-cases (var p == w)) [ inl same ↦ rw same refl | inr other ↦ rw other (h w) ])
      v

-- A literal that is false on the trail, of the first `n` variables.
abbrev pub IsFalse : Solver → ℕ → Lit → Type 0
IsFalse s n p = (value s p ≡ l_false) × In (neg p) s.trail × (var p < n)

abbrev pub OnStack : Solver → ℕ → Lit → Type 0
OnStack s n p = (has_clause (s.reason (var p)) ≡ true) × IsFalse s n p

-- What the loop leaves: marks are added, for literals that are put on the stack, and can be taken
-- back.
pub record Grown (s : Solver) (n : ℕ) (m t : Marks) : Type 0 where
  pub same_ca : t.ca ≡ m.ca
  pub mono : (v : Var) → m.seen v ≡ true → t.seen v ≡ true
  pub stays : (q : Lit) → In q m.stack → In q t.stack
  pub fresh :
      (l : Lit)
      → value s l ≡ l_true
      → t.seen (var l) ≡ true
      → (m.seen (var l) ≡ true) ⊎ In (neg l) t.stack
  pub on_stack : All (OnStack s n) m.stack → All (OnStack s n) t.stack
  pub size : length t.stack + unseen n t.seen ≡ length m.stack + unseen n m.seen
  pub restores : (v : Var) → clear_each t.added t.seen v ≡ clear_each m.added m.seen v

Grown-refl : (s : Solver) (n : ℕ) (m : Marks) → Grown s n m m
Grown-refl s n m = record {
  same_ca = refl;
  mono = λ v h. h;
  stays = λ q i. i;
  fresh = λ l t h. inl h;
  on_stack = λ h. h;
  size = refl;
  restores = λ v. refl;
}

abbrev pushed : Marks → Lit → Marks
pushed m p = record m {
  seen = update m.seen (var p) true;
  stack = p ∷ m.stack;
  added = p ∷ m.added;
}

-- A literal that is put on the stack, before the rest of the loop.
Grown-pushed :
    (s : Solver) (n : ℕ) (m t : Marks) (p : Lit)
    → m.seen (var p) ≡ false
    → OnStack s n p
    → Grown s n (pushed m p) t
    → Grown s n m t
Grown-pushed s n m t p new on g = record {
  same_ca = g.same_ca;
  mono = λ v h. g.mono v (ground arith);
  stays = λ q i. g.stays q (inr i);
  fresh = λ l tr h. elim (g.fresh l tr h) [
    | inr i ↦ inr i
    | inl e ↦ elim (Bool-cases (var p == var l)) [
      | inr other ↦ inl (ground arith)
      | inl same ↦
          let e' : p ≡ neg l =
            same_false s p (neg l) (eq_of_== (var p) (var l) same ∙ sym (var-neg l)) on.1.0
              (value-neg s l tr) in
          inr (subst (λ q. In q t.stack) e' (g.stays p (inl refl)))
    ]
  ];
  on_stack = λ h. g.on_stack (on, h);
  size = omega (arith, g.size, unseen-update n (var p) m.seen on.1.2 new);
  restores = λ v.
      g.restores v
      ∙ clear_each-same m.added (update (update m.seen (var p) true) (var p) false) m.seen
          (λ w. elim (Bool-cases (var p == w)) [
            | inl same ↦ rw same (sym (subst (λ w. m.seen w ≡ false) (eq_of_== (var p) w same) new))
            | inr other ↦ rw other refl
          ])
          v;
}

-- With the marks, the literals of the reason are marked or of level 0, if the loop comes to its end.
pub visit-Grown :
    (s : Solver) (n levels : ℕ) (ps : List Lit) (m : Marks)
    → All (IsFalse s n) ps
    → let (t, done) = visit s levels ps m in
      Grown s n m t
      × (done ≡ true → (q : Lit) → In q ps → (t.seen (var q) ≡ true) ⊎ (s.level (var q) ≡ 0))
unfolding visit
visit-Grown s n levels [] m h = (Grown-refl s n m, λ e q i. absurd i)
visit-Grown s n levels (p ∷ ps) m h =
    elim (Bool-cases (not (m.seen (var p)) && ltb 0 (s.level (var p)))) [
      | inr skip ↦
          let rest = visit-Grown s n levels ps m h.1 in
          let here : (m.seen (var p) ≡ true) ⊎ (s.level (var p) ≡ 0) = marked_or_root m p skip in
          let t = (visit s levels ps m).0 in
          rw (visit, skip)
            (
              rest.0,
              λ e q i. elim i [
                | inr j ↦ rest.1 e q j
                | inl f ↦
                    subst (λ q. (t.seen (var q) ≡ true) ⊎ (s.level (var q) ≡ 0)) f
                      (elim here [ inl a ↦ inl (rest.0.mono (var p) a) | inr b ↦ inr b ])
              ],
            )
      | inl go ↦ elim (Bool-cases (may_go s levels p)) [
        | inr stop ↦ rw (visit, go, stop) (Grown-refl s n m, λ e. cc)
        | inl on ↦
            let new : m.seen (var p) ≡ false = ground arith in
            let u = pushed m p in
            let rest = visit-Grown s n levels ps u h.1 in
            let t = (visit s levels ps u).0 in
            let marked : u.seen (var p) ≡ true = rw (==_refl (var p)) refl in
            rw (visit, go, on)
              (
                Grown-pushed s n m t p new (ground arith, h.0) rest.0,
                λ e q i. elim i [
                  | inr j ↦ rest.1 e q j
                  | inl f ↦ inl (subst (λ q. t.seen (var q) ≡ true) f (rest.0.mono (var p) marked))
                ],
              )
      ]
    ]
  where
    marked_or_root :
        (m : Marks) (p : Lit)
        → not (m.seen (var p)) && ltb 0 (s.level (var p)) ≡ false
        → (m.seen (var p) ≡ true) ⊎ (s.level (var p) ≡ 0)
    marked_or_root m p skip = elim (Bool-cases (m.seen (var p))) [
      | inl a ↦ inl a
      | inr b ↦ inr (ground arith)
    ]
