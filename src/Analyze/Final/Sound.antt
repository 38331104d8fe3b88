-- ===== src/Analyze/Final/Sound.antt =====
-- The clause that `analyzeFinal` gives.
use glucose.Prelude.{
  ℕ, ◌-◌, ◌≤◌, ◌<◌, ◌≡◌, refl, ap, subst, ◌∙◌, ◌≢◌, ◌⊎◌, inl, inr, Bool, true, false, not, List, [],
  ◌∷◌, ◌++◌, arith, ltb, ◌==◌, ==_refl, Bool-cases, update,
}
use glucose.Prelude.Lists.{All, All-append, All-In, In, length, get_or}
use glucose.Lit.{Lit, Var, neg, var}
use glucose.Lit.Laws.{var-neg, sign-neg}
use glucose.Lit.Truth.{Assignment, holds, holds-neg, satisfies, satisfies_inv, satisfies-append}
use glucose.Lbool.{l_false}
use glucose.Solver.{
  Solver, CRef, Reason, no_reason, by_clause, by_constraint, value, decision_level,
}
use glucose.Analyze.Pending.{Apart}
use glucose.Analyze.Marks.{IsRoot}
use glucose.Analyze.Trail.{Founded, IsTrail, IsTrail-true}
use glucose.Analyze.Final.{looked_at, mark_above, final_loop, analyze_final}
use glucose.Analyze.Final.Marks.{mark_above-stays, mark_above-In, looked_at-In}

-- A literal of the trail that is marked, and false in the assignment.
abbrev Open : Assignment → List Lit → (Var → Bool) → Type 0
Open a ls seen = (m : Lit) × In m ls × (seen (var m) ≡ true) × (holds a m ≡ false)

-- The last `stop` literals of the trail are of level 0, and no others.
abbrev pub IsBased : Solver → ℕ → List Lit → Type 0
IsBased s stop [] = Unit
IsBased s stop (l ∷ ls) =
    (length ls < stop → s.level (var l) ≡ 0)
    × (stop ≤ length ls → 0 < s.level (var l))
    × IsBased s stop ls

-- Not the consequence of a clause.
abbrev pub IsAssumed : Solver → Lit → Type 0
IsAssumed s q =
    (0 < s.level (var q)) × (value s q ≡ l_false) × ((cr : CRef) → s.reason (var q) ≢ by_clause cr)

-- What the loop gives.
pub record Final (a : Assignment) (s : Solver) (p : Lit) (out : List Lit) : Type 0 where
  pub sat : satisfies a out ≡ true
  pub assumed : All (λ q. (q ≡ p) ⊎ IsAssumed s q) out

module _ (a : Assignment) (s : Solver) (ca : CRef → List Lit) (root : IsRoot a s) (p : Lit)
    (stop : ℕ) where
  Open-later :
      (l : Lit) (ls : List Lit) (seen : Var → Bool)
      → Apart (var l) ls
      → (m : Lit) → In m ls
      → seen (var m) ≡ true
      → holds a m ≡ false
      → Open a ls (update seen (var l) false)
  Open-later l ls seen h m i e f =
      let apart = All-In (λ n. (var l == var n) ≡ false) ls h i in (m, i, rw apart e, f)

  -- Beyond the literals of level 0 none is open.
  stopped :
      (ls : List Lit) (seen : Var → Bool) (out : List Lit)
      → IsTrail a s ca ls
      → IsBased s stop ls
      → length ls ≤ stop
      → (satisfies a out ≡ true) ⊎ Open a ls seen
      → satisfies a out ≡ true
  stopped ls seen out is b le (inl h) = h
  stopped [] seen out is b le (inr (m, i, e, f)) = absurd i
  stopped (l ∷ ls) seen out is b le (inr (m, inr i, e, f)) =
      stopped ls seen out is.5 b.2 (omega arith) (inr (m, i, e, f))
  stopped (l ∷ ls) seen out is b le (inr (m, inl e, k, f)) =
      let low = b.0 (omega arith) in
      let false_ : value s (neg l) ≡ l_false = rw (var-neg l, sign-neg l) (ground (arith, is.1)) in
      absurd
        (ground (arith, root (neg l) false_ (rw (var-neg l) low), holds-neg a l, ap (holds a) e))

  -- Through the reason of a literal.
  through :
      (l : Lit) (ls : List Lit) (seen : Var → Bool) (out : List Lit) (cr : CRef)
      → IsTrail a s ca (l ∷ ls)
      → Founded a s ca l ls (by_clause cr)
      → (satisfies a out ≡ true) ⊎ Open a (l ∷ ls) seen
      → (satisfies a out ≡ true)
        ⊎ Open a ls (update (mark_above s (looked_at (ca cr)) seen) (var l) false)
  through l ls seen out cr is found (inl h) = inl h
  through l ls seen out cr is found (inr (m, inr i, e, f)) = inr (
      Open-later l ls (mark_above s (looked_at (ca cr)) seen) is.4 m i
        (mark_above-stays s (looked_at (ca cr)) seen (var m) e) f)
  through l ls seen out cr is found (inr (m, inl e, k, f)) =
      let (d, first, false_, sat) = found in
      let open_d : satisfies a d ≡ true = ground (arith, ap (holds a) e) in
      let (q, i, t) = satisfies_inv a d open_d in
      let fq = All-In (λ q. (value s q ≡ l_false) × In (neg q) ls) d false_ i in
      let up : 0 < s.level (var q) = ground (arith, root q fq.0) in
      let seen' = mark_above s (looked_at (ca cr)) seen in
      inr (
        Open-later l ls seen' is.4 (neg q) fq.1
          (rw (var-neg q)
            (mark_above-In s (looked_at (ca cr)) seen q (looked_at-In s (ca cr) l d q first i) up))
          (holds-neg a q ∙ ap not t))

  -- A literal that is pushed.
  pushed :
      (l : Lit) (ls : List Lit) (seen : Var → Bool) (out : List Lit)
      → IsTrail a s ca (l ∷ ls)
      → (satisfies a out ≡ true) ⊎ Open a (l ∷ ls) seen
      → (satisfies a (out ++ neg l ∷ []) ≡ true) ⊎ Open a ls (update seen (var l) false)
  pushed l ls seen out is (inl h) = inl (rw (satisfies-append a out (neg l ∷ [])) (ground arith))
  pushed l ls seen out is (inr (m, inr i, e, f)) = inr (Open-later l ls seen is.4 m i e f)
  pushed l ls seen out is (inr (m, inl e, k, f)) =
      inl (rw (satisfies-append a out (neg l ∷ []), holds-neg a l) (ground (arith, ap (holds a) e)))

  -- A literal that is not marked.
  skipped :
      (l : Lit) (ls : List Lit) (seen : Var → Bool) (out : List Lit)
      → seen (var l) ≡ false
      → (satisfies a out ≡ true) ⊎ Open a (l ∷ ls) seen
      → (satisfies a out ≡ true) ⊎ Open a ls seen
  skipped l ls seen out new (inl h) = inl h
  skipped l ls seen out new (inr (m, inr i, e, f)) = inr (m, i, e, f)
  skipped l ls seen out new (inr (m, inl e, k, f)) =
      absurd (ground (arith, ap (λ l. seen (var l)) e))

  IsAssumed-push :
      (l : Lit) (ls out : List Lit)
      → IsTrail a s ca (l ∷ ls)
      → IsBased s stop (l ∷ ls)
      → stop ≤ length ls
      → ((cr : CRef) → s.reason (var l) ≢ by_clause cr)
      → All (λ q. (q ≡ p) ⊎ IsAssumed s q) out
      → All (λ q. (q ≡ p) ⊎ IsAssumed s q) (out ++ neg l ∷ [])
  IsAssumed-push l ls out is b le nc h =
      All-append (λ q. (q ≡ p) ⊎ IsAssumed s q) out (neg l ∷ []) h
        (
          inr (
            rw (var-neg l) (b.1 le),
            rw (var-neg l, sign-neg l) (ground (arith, is.1)),
            rw (var-neg l) nc,
          ),
          tt,
        )

  Final-step :
      (r : Reason) (l : Lit) (ls : List Lit) (seen : Var → Bool) (out : List Lit)
      → s.reason (var l) ≡ r
      → Founded a s ca l ls r
      → IsTrail a s ca (l ∷ ls)
      → IsBased s stop (l ∷ ls)
      → stop ≤ length ls
      → ((seen' : Var → Bool) (out' : List Lit)
          → (satisfies a out' ≡ true) ⊎ Open a ls seen'
          → All (λ q. (q ≡ p) ⊎ IsAssumed s q) out'
          → Final a s p (final_loop s ca stop ls seen' out').0)
      → (satisfies a out ≡ true) ⊎ Open a (l ∷ ls) seen
      → All (λ q. (q ≡ p) ⊎ IsAssumed s q) out
      → let next : List Lit × (Var → Bool) = elim r [
        | by_clause cr ↦
            final_loop s ca stop ls
              (update (mark_above s (looked_at (ca cr)) seen) (var l) false)
              out
        | no_reason ↦ final_loop s ca stop ls (update seen (var l) false) (out ++ neg l ∷ [])
        | by_constraint c ↦ final_loop s ca stop ls (update seen (var l) false) (out ++ neg l ∷ [])
      ] in
        Final a s p next.0
  Final-step no_reason l ls seen out e found is b le rec h k =
      rec (update seen (var l) false) (out ++ neg l ∷ []) (pushed l ls seen out is h)
        (IsAssumed-push l ls out is b le (λ cr f. cc) k)
  Final-step (by_constraint c) l ls seen out e found is b le rec h k =
      rec (update seen (var l) false) (out ++ neg l ∷ []) (pushed l ls seen out is h)
        (IsAssumed-push l ls out is b le (λ cr f. cc) k)
  Final-step (by_clause cr) l ls seen out e found is b le rec h k =
      rec (update (mark_above s (looked_at (ca cr)) seen) (var l) false) out
        (through l ls seen out cr is found h) k

  final_loop-Final :
      (ls : List Lit) (seen : Var → Bool) (out : List Lit)
      → IsTrail a s ca ls
      → IsBased s stop ls
      → (satisfies a out ≡ true) ⊎ Open a ls seen
      → All (λ q. (q ≡ p) ⊎ IsAssumed s q) out
      → Final a s p (final_loop s ca stop ls seen out).0
  unfolding final_loop
  final_loop-Final [] seen out is b h k = record {
    sat = stopped [] seen out is b (omega arith) h;
    assumed = k;
  }
  final_loop-Final (l ∷ ls) seen out is b h k = elim (Bool-cases (ltb (length ls) stop)) [
    | inl low ↦
        rw (final_loop, low)
          (record { sat = stopped (l ∷ ls) seen out is b (ground arith) h; assumed = k })
    | inr above ↦ elim (Bool-cases (seen (var l))) [
      | inr new ↦
          rw (final_loop, above, new)
            (final_loop-Final ls seen out is.5 b.2 (skipped l ls seen out new h) k)
      | inl old ↦
          rw (final_loop, above, old)
            (Final-step (s.reason (var l)) l ls seen out refl is.0 is b (ground arith)
              (λ seen' out' h' k'. final_loop-Final ls seen' out' is.5 b.2 h' k') h k)
    ]
  ]

  at_start :
      (seen : Var → Bool)
      → In p s.trail
      → (satisfies a (p ∷ []) ≡ true) ⊎ Open a s.trail (update seen (var p) true)
  at_start seen i = elim (Bool-cases (holds a p)) [
    | inl t ↦ inl (ground arith)
    | inr f ↦ inr (p, i, rw (==_refl (var p)) refl, f)
  ]

level_le :
    (a : Assignment) (s : Solver) (ca : CRef → List Lit) (ls : List Lit) (p : Lit)
    → IsTrail a s ca ls
    → In p ls
    → s.level (var p) ≤ decision_level s
level_le a s ca [] p is i = absurd i
level_le a s ca (l ∷ ls) p is (inl e) = subst (λ l. s.level (var l) ≤ decision_level s) e is.2
level_le a s ca (l ∷ ls) p is (inr i) = level_le a s ca ls p is.5 i

-- Let the trail be one whose literals have clauses or constraints as reasons, which are right in the
-- assignment, as are the values of level 0, and let `p` be true. Then the clause that `analyzeFinal`
-- gives is true in the assignment, and each literal of it but `p` is the negation of a literal of the
-- trail, above level 0, that no clause has made true.
pub analyze_final-Final :
    (a : Assignment) (s : Solver) (ca : CRef → List Lit) (seen : Var → Bool) (p : Lit)
    → IsRoot a s
    → IsTrail a s ca s.trail
    → IsBased s (get_or s.trail_lim (decision_level s - 1) 0) s.trail
    → In p s.trail
    → Final a s p (analyze_final s ca seen p).0
unfolding analyze_final
analyze_final-Final a s ca seen p root is b i = elim (Bool-cases (decision_level s == 0)) [
  | inr above ↦
      rw (analyze_final, above)
        (final_loop-Final a s ca root p (get_or s.trail_lim (decision_level s - 1) 0) s.trail
          (update seen (var p) true) (p ∷ []) is b
          (at_start a s ca root p (get_or s.trail_lim (decision_level s - 1) 0) seen i)
          (inl refl, tt))
  | inl zero_level ↦
      let t = IsTrail-true a s ca s.trail p is i in
      let low : s.level (var p) ≡ 0 = ground (arith, level_le a s ca s.trail p is i) in
      let false_ : value s (neg p) ≡ l_false = rw (var-neg p, sign-neg p) (ground arith) in
      let right : holds a p ≡ true =
        ground (arith, root (neg p) false_ (rw (var-neg p) low), holds-neg a p) in
      rw (analyze_final, zero_level) (record { sat = ground arith; assumed = (inl refl, tt) })
]
