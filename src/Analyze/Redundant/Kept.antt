-- ===== src/Analyze/Redundant/Kept.antt =====
-- The loop over the learnt clause, where `ccmin_mode` is 2.
use glucose.Prelude.{
  ℕ, zero, suc, ◌+◌, ◌≤◌, ◌<◌, ◌≡◌, refl, sym, ◌∙◌, ◌⊎◌, inl, inr, Bool, true, false, Option, none,
  some, List, [], ◌∷◌, arith, Bool-cases,
}
use glucose.Prelude.Lists.{All, In}
use glucose.Lit.{Lit, Var, neg, var}
use glucose.Lit.Truth.{Assignment}
use glucose.Solver.{Solver, CRef}
use glucose.Analyze.Trail.{IsTrail}
use glucose.Analyze.Redundant.{Marks, has_clause, empty_stack, lit_redundant, keep_irredundant}
use glucose.Analyze.Redundant.Visit.{unseen, IsFalse, OnStack}
use glucose.Analyze.Redundant.Closed.{
  Explained, Explained-mono, SameClauses, Covers, Settled, empty_stack-Settled,
}

unseen-le : (n : ℕ) (f : Var → Bool) → unseen n f ≤ n
unseen-le zero f = omega arith
unseen-le (suc n) f = ground (arith, unseen-le n f)

module _ (a : Assignment) (s : Solver) (ca : CRef → List Lit) (n levels : ℕ)
    (trail : IsTrail a s ca s.trail) (in_range : All (λ l. var l < n) s.trail) where
  -- Each marked literal of the trail is of what is kept or of what is left, or explained.
  pub record Known (seen : Var → Bool) (kept todo : List Lit) : Type 0 where
    pub known :
        (l : Lit)
        → In l s.trail
        → seen (var l) ≡ true
        → In (neg l) kept ⊎ (In (neg l) todo ⊎ Explained s ca seen l)

  -- After the loop over `qs`.
  abbrev pub Kept : (Var → Bool) → List Lit → List Lit → Option (List Lit × (Var → Bool)) → Type 0
  Kept seen kept qs none = ⊥
  Kept seen kept qs (some (rest, t)) =
      ((v : Var) → seen v ≡ true → t v ≡ true)
      × Known t kept rest
      × ((q : Lit) → In q rest → In q qs)

  Kept-cons :
      (f g : Var → Bool) (q : Lit) (kept qs : List Lit) (r : Option (List Lit × (Var → Bool)))
      → ((v : Var) → f v ≡ true → g v ≡ true)
      → Kept g (q ∷ kept) qs r
      → Kept f kept (q ∷ qs) (elim r [ none ↦ none | some (rest, t) ↦ some (q ∷ rest, t) ])
  Kept-cons f g q kept qs none h k = absurd k
  Kept-cons f g q kept qs (some (rest, t)) h k = (
    λ v e. k.0 v (h v e),
    record {
      known = λ l i e. elim (k.1.known l i e) [
        | inl (inl j) ↦ inr (inl (inl j))
        | inl (inr j) ↦ inl j
        | inr (inl j) ↦ inr (inl (inr j))
        | inr (inr x) ↦ inr (inr x)
      ];
    },
    λ p i. elim i [ inl e ↦ inl e | inr j ↦ inr (k.2 p j) ],
  )

  Kept-drop :
      (f g : Var → Bool) (q : Lit) (kept qs : List Lit) (r : Option (List Lit × (Var → Bool)))
      → ((v : Var) → f v ≡ true → g v ≡ true)
      → Kept g kept qs r
      → Kept f kept (q ∷ qs) r
  Kept-drop f g q kept qs none h k = absurd k
  Kept-drop f g q kept qs (some (rest, t)) h k = ((λ v e. k.0 v (h v e)), k.1, λ p i. inr (k.2 p i))

  -- The literal is moved to those that are kept.
  Known-move :
      (f g : Var → Bool) (q : Lit) (kept qs : List Lit)
      → ((v : Var) → f v ≡ g v)
      → Known f kept (q ∷ qs)
      → Known g (q ∷ kept) qs
  Known-move f g q kept qs same k = record {
    known = λ l i e. elim (k.known l i (same (var l) ∙ e)) [
      | inl j ↦ inl (inr j)
      | inr (inl (inl j)) ↦ inl (inl j)
      | inr (inl (inr j)) ↦ inr (inl j)
      | inr (inr x) ↦ inr (inr (Explained-mono s ca f g l (λ v h. sym (same v) ∙ h) x))
    ];
  }

  -- What was known of a literal before `litRedundant`, but for `q`.
  abbrev Before : (Var → Bool) → List Lit → List Lit → Lit → Type 0
  Before seen kept qs l = In (neg l) kept ⊎ (In (neg l) qs ⊎ Explained s ca seen l)

  starts :
      (seen : Var → Bool) (q : Lit) (kept qs : List Lit) (cb : CRef → List Lit)
      → SameClauses s ca cb
      → OnStack s n q
      → Known seen kept (q ∷ qs)
      → Covers a s ca n levels trail in_range
          (Before seen kept qs)
          seen
          (record { ca = cb; seen = seen; stack = q ∷ []; added = [] })
  starts seen q kept qs cb same on k = record {
    same_clauses = same;
    on_stack = (on, tt);
    mono = λ v h. h;
    covered = λ l i h. elim (k.known l i h) [
      | inl j ↦ inl (inl j)
      | inr (inl (inl j)) ↦ inr (inl (inl j))
      | inr (inl (inr j)) ↦ inl (inr (inl j))
      | inr (inr x) ↦ inl (inr (inr x))
    ];
    restores = λ v. refl;
  }

  Known-after :
      (f g : Var → Bool) (kept qs : List Lit)
      → ((v : Var) → f v ≡ true → g v ≡ true)
      → ((l : Lit) → In l s.trail → g (var l) ≡ true → Before f kept qs l ⊎ Explained s ca g l)
      → Known g kept qs
  Known-after f g kept qs mono h = record {
    known = λ l i e. elim (h l i e) [
      | inr x ↦ inr (inr x)
      | inl (inl j) ↦ inl j
      | inl (inr (inl j)) ↦ inr (inl j)
      | inl (inr (inr x)) ↦ inr (inr (Explained-mono s ca f g l mono x))
    ];
  }

  next_literal :
      (fuel : ℕ) (q : Lit) (qs kept : List Lit) (seen : Var → Bool) (r : Option (Marks × Bool))
      → Known seen kept (q ∷ qs)
      → Settled a s ca n levels trail in_range (Before seen kept qs) seen r
      → ((cb : CRef → List Lit) (g : Var → Bool) (k : List Lit)
          → SameClauses s ca cb
          → Known g k qs
          → Kept g k qs (keep_irredundant s levels fuel qs cb g))
      → let next : Option (List Lit × (Var → Bool)) = elim r [
        | none ↦ none
        | some (m, redundant) ↦ elim redundant [
          | true ↦ keep_irredundant s levels fuel qs m.ca m.seen
          | false ↦ elim (keep_irredundant s levels fuel qs m.ca m.seen) [
            | none ↦ none
            | some (rest, t) ↦ some (q ∷ rest, t)
          ]
        ]
      ] in
        Kept seen kept (q ∷ qs) next
  next_literal fuel q qs kept seen none k h rec = absurd h
  next_literal fuel q qs kept seen (some (m, true)) k h rec =
      Kept-drop seen m.seen q kept qs (keep_irredundant s levels fuel qs m.ca m.seen) h.1
        (rec m.ca m.seen kept h.0 (Known-after seen m.seen kept qs h.1 h.2))
  next_literal fuel q qs kept seen (some (m, false)) k h rec =
      Kept-cons seen m.seen q kept qs (keep_irredundant s levels fuel qs m.ca m.seen)
        (λ v e. h.1 v ∙ e)
        (rec m.ca m.seen (q ∷ kept) h.0 (Known-move seen m.seen q kept qs (λ v. sym (h.1 v)) k))

  pub keep_irredundant-Kept :
      (fuel : ℕ) (qs kept : List Lit) (cb : CRef → List Lit) (seen : Var → Bool)
      → n + 1 < fuel
      → All (IsFalse s n) qs
      → SameClauses s ca cb
      → Known seen kept qs
      → Kept seen kept qs (keep_irredundant s levels fuel qs cb seen)
  unfolding keep_irredundant lit_redundant
  keep_irredundant-Kept fuel [] kept cb seen lt f same k = ((λ v h. h), k, (λ q i. i))
  keep_irredundant-Kept fuel (q ∷ qs) kept cb seen lt f same k =
      elim (Bool-cases (has_clause (s.reason (var q)))) [
        | inr stays ↦
            rw (keep_irredundant, stays)
              (Kept-cons seen seen q kept qs (keep_irredundant s levels fuel qs cb seen) (λ v h. h)
                (keep_irredundant-Kept fuel qs (q ∷ kept) cb seen lt f.1 same
                  (Known-move seen seen q kept qs (λ v. refl) k)))
        | inl on ↦
            let m : Marks = record { ca = cb; seen = seen; stack = q ∷ []; added = [] } in
            let settled =
              empty_stack-Settled a s ca n levels trail in_range (Before seen kept qs) seen fuel m
                (omega (arith, unseen-le n seen, lt)) (starts seen q kept qs cb same (on, f.0) k) in
            rw (keep_irredundant, on)
              (next_literal fuel q qs kept seen (empty_stack s levels fuel m) k settled
                (λ cb' g k' same' known. keep_irredundant-Kept fuel qs k' cb' g lt f.1 same' known))
      ]
