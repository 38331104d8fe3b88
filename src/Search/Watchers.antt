-- ===== src/Search/Watchers.antt =====
-- The loop over the watchers of a literal.
use glucose.Prelude.{
  ℕ, ◌≤◌, ◌≡◌, refl, sym, ap, subst, ◌∙◌, ◌≢◌, inl, inr, false, Option, none, List, [], ◌∷◌, arith,
  ◌==◌, ==_refl, update,
}
use glucose.Prelude.Lists.{In, All}
use glucose.Lit.{Lit, neg}
use glucose.Lit.Laws.{neg-neg}
use glucose.Lit.Truth.{Assignment}
use glucose.Lbool.{l_true}
use glucose.Solver.{CRef, value, assign, by_clause}
use glucose.Solver.Agree.{Keeps, Keeps-trans, assign-Keeps, value-Keeps}
use glucose.Search.{Watcher, Search, with_clause, with_solver, push_watch, visit_watchers}
use glucose.Search.Inspect.{Visit, skip, kept, moved, unit, clash, inspect}
use glucose.Search.Times.{times, IsUnique, Same, Same-In}
use glucose.Search.Watched.{Heads, Stays, Right, inspect-Right}
use glucose.Search.Fine.{Fine, assign-Fine, qhead-assign}
use glucose.Search.Guards.{
  IsClause, Same-IsClause, Guards, crefs, Others, Guards-apart, Others-with_clause, Heads-times,
  Others-push_watch,
}

-- What the loop over `ws`, watchers of `p`, leaves.
pub record Visited {X : Type 0} (a : Assignment) (n : ℕ) (S : Search X) (p : Lit)
    (ws : List Watcher) (r : Search X × List Watcher × Option CRef) : Type 0 where
  pub done : r.2 ≡ none
  pub fine : Fine a n r.0.solver
  pub others : Others a n r.0 p
  pub mine : All (Guards a n r.0.ca p) r.1
  pub fewer : (cr : CRef) → times cr (crefs r.1) ≤ times cr (crefs ws)
  pub clauses : (cr : CRef) → times cr (crefs ws) ≡ 0 → r.0.ca cr ≡ S.ca cr
  pub keeps : Keeps S.solver r.0.solver
  pub same_qhead : r.0.solver.qhead ≡ S.solver.qhead
  pub same_bin : r.0.watches_bin ≡ S.watches_bin
  pub same_constraints : r.0.constraints ≡ S.constraints

tail-IsUnique : (x : CRef) (xs : List CRef) → IsUnique (x ∷ xs) → IsUnique xs
tail-IsUnique x xs u y = ground (arith, u y)

head_fresh : (x : CRef) (xs : List CRef) → IsUnique (x ∷ xs) → times x xs ≡ 0
head_fresh x xs u = ground (arith, u x)

update_else :
    (ca : CRef → List Lit) (x y : CRef) (d : List Lit) → (y == x) ≡ false → update ca x d y ≡ ca y
update_else ca x y d h = ground arith

module _ {X : Type 0} (a : Assignment) (n : ℕ) (p : Lit) where
  -- A watcher that is kept, in front of what the rest of the loop leaves.
  Visited-cons :
      (S T : Search X) (w k : Watcher) (ws : List Watcher)
      (r : Search X × List Watcher × Option CRef)
      → k.cref ≡ w.cref
      → Guards a n T.ca p k
      → times w.cref (crefs ws) ≡ 0
      → ((cr : CRef) → (cr == w.cref) ≡ false → T.ca cr ≡ S.ca cr)
      → Keeps S.solver T.solver
      → T.solver.qhead ≡ S.solver.qhead
      → T.watches_bin ≡ S.watches_bin
      → T.constraints ≡ S.constraints
      → Visited a n T p ws r
      → Visited a n S p (w ∷ ws) (r.0, k ∷ r.1, r.2)
  Visited-cons S T w k ws r same g fresh else_ keeps q b c v = record {
    done = v.done;
    fine = v.fine;
    others = v.others;
    mine = (
      subst (λ d. IsClause a n d × Heads p d)
          (sym (v.clauses k.cref (subst (λ x. times x (crefs ws) ≡ 0) (sym same) fresh))) g,
      v.mine,
    );
    fewer = λ x. ground (arith, v.fewer x, same);
    clauses = λ x h. v.clauses x (ground arith) ∙ else_ x (ground arith);
    keeps = Keeps-trans S.solver T.solver r.0.solver keeps v.keeps;
    same_qhead = v.same_qhead ∙ q;
    same_bin = v.same_bin ∙ b;
    same_constraints = v.same_constraints ∙ c;
  }

  Visited-drop :
      (S T : Search X) (w : Watcher) (ws : List Watcher) (r : Search X × List Watcher × Option CRef)
      → ((cr : CRef) → (cr == w.cref) ≡ false → T.ca cr ≡ S.ca cr)
      → Keeps S.solver T.solver
      → T.solver.qhead ≡ S.solver.qhead
      → T.watches_bin ≡ S.watches_bin
      → T.constraints ≡ S.constraints
      → Visited a n T p ws r
      → Visited a n S p (w ∷ ws) r
  Visited-drop S T w ws r else_ keeps q b c v = record {
    done = v.done;
    fine = v.fine;
    others = v.others;
    mine = v.mine;
    fewer = λ x. ground (arith, v.fewer x);
    clauses = λ x h. v.clauses x (ground arith) ∙ else_ x (ground arith);
    keeps = Keeps-trans S.solver T.solver r.0.solver keeps v.keeps;
    same_qhead = v.same_qhead ∙ q;
    same_bin = v.same_bin ∙ b;
    same_constraints = v.same_constraints ∙ c;
  }

  -- What the loop needs.
  pub record Ready (S : Search X) (ws : List Watcher) : Type 0 where
    pub fine : Fine a n S.solver
    pub p_true : value S.solver p ≡ l_true
    pub others : Others a n S p
    pub mine : All (Guards a n S.ca p) ws
    pub unique : IsUnique (crefs ws)

  -- The state after the clause of the first watcher has been put in a new order.
  reordered :
      (S : Search X) (w : Watcher) (ws : List Watcher) (d : List Lit)
      → Ready S (w ∷ ws)
      → Same (S.ca w.cref) d
      → Stays p (S.ca w.cref) d
      → Ready (with_clause S w.cref d) ws
  reordered S w ws d r same stays = record {
    fine = r.fine;
    p_true = r.p_true;
    others = Others-with_clause a n S p w.cref d same stays r.others;
    mine = Guards-apart a n S.ca p w.cref d ws (head_fresh w.cref (crefs ws) r.unique) r.mine.1;
    unique = tail-IsUnique w.cref (crefs ws) r.unique;
  }

  -- The clause in its new order guards `p` still.
  Guards-ordered :
      (S : Search X) (w : Watcher) (d : List Lit) (first : Lit)
      → IsClause a n (S.ca w.cref)
      → Same (S.ca w.cref) d
      → (rest : List Lit) × (d ≡ first ∷ neg p ∷ rest)
      → Guards a n (update S.ca w.cref d) p (record { cref = w.cref; blocker = first })
  Guards-ordered S w d first c same o =
      let (rest, e) = o in
      rw (==_refl w.cref)
        (Same-IsClause a n (S.ca w.cref) d same c, subst (Heads p) (sym e) (inr refl))

  visited :
      (S : Search X) (w : Watcher) (ws : List Watcher) (o : Visit)
      → inspect S.solver p w.blocker (S.ca w.cref) ≡ o
      → Right a S.solver p (S.ca w.cref) o
      → Ready S (w ∷ ws)
      → ((T : Search X) → Ready T ws → Visited a n T p ws (visit_watchers p ws T))
      → Visited a n S p (w ∷ ws) (visit_watchers p (w ∷ ws) S)
  unfolding visit_watchers
  visited S w ws skip e right r rec =
      rw (visit_watchers, e)
        (Visited-cons S S w w ws (visit_watchers p ws S) refl r.mine.0
          (head_fresh w.cref (crefs ws) r.unique) (λ x h. refl) (λ v b h. h) refl refl refl
          (rec S (record {
            fine = r.fine;
            p_true = r.p_true;
            others = r.others;
            mine = r.mine.1;
            unique = tail-IsUnique w.cref (crefs ws) r.unique;
          })))
  visited S w ws (kept d first) e right r rec =
      let T = with_clause S w.cref d in
      rw (visit_watchers, e)
        (Visited-cons S T w (record { cref = w.cref; blocker = first }) ws (visit_watchers p ws T)
          refl (Guards-ordered S w d first r.mine.0.0 right.0 right.2)
          (head_fresh w.cref (crefs ws) r.unique) (λ x h. update_else S.ca w.cref x d h)
          (λ v b h. h) refl refl refl (rec T (reordered S w ws d r right.0 right.1)))
  visited S w ws (unit d first) e right r rec =
      let T = with_clause S w.cref d in
      let U = with_solver T (assign S.solver first (by_clause w.cref)) in
      let ready = reordered S w ws d r right.0 right.1 in
      let (rest, shape) = right.2 in
      let in_c : In first (S.ca w.cref) =
        Same-In d (S.ca w.cref) first (λ x. sym (right.0 x))
          (subst (In first) (sym shape) (inl refl)) in
      let keeps = assign-Keeps S.solver first (by_clause w.cref) right.4 in
      rw (visit_watchers, e)
        (Visited-cons S U w (record { cref = w.cref; blocker = first }) ws (visit_watchers p ws U)
          refl (Guards-ordered S w d first r.mine.0.0 right.0 right.2)
          (head_fresh w.cref (crefs ws) r.unique) (λ x h. update_else S.ca w.cref x d h) keeps
          (qhead-assign S.solver first (by_clause w.cref)) refl refl
          (rec U (record {
            fine =
                assign-Fine a n S.solver first (by_clause w.cref) right.3 right.4
                  (r.mine.0.0.2 first in_c) r.fine;
            p_true = value-Keeps S.solver U.solver p keeps r.p_true;
            others = ready.others;
            mine = ready.mine;
            unique = ready.unique;
          })))
  visited S w ws (moved d first l) e right r rec =
      let T = with_clause S w.cref d in
      let v : Watcher = record { cref = w.cref; blocker = first } in
      let U = push_watch T (neg l) v in
      let ready = reordered S w ws d r right.0 right.1 in
      let (rest, shape) = right.2 in
      let away : neg l ≢ p = λ same. right.4 (sym (neg-neg l) ∙ ap neg same) in
      let fresh =
        Heads-times a n S.ca (neg l) w.cref (S.watches (neg l)) (r.others (neg l) away).0 right.5 in
      let guards : Guards a n T.ca (neg l) v = rw (==_refl w.cref) (
        Same-IsClause a n (S.ca w.cref) d right.0 r.mine.0.0,
        subst (Heads (neg l)) (sym shape) (inr (sym (neg-neg l))),
      ) in
      rw (visit_watchers, e)
        (Visited-drop S U w ws (visit_watchers p ws U) (λ x h. update_else S.ca w.cref x d h)
          (λ v b h. h) refl refl refl
          (rec U (record {
            fine = ready.fine;
            p_true = ready.p_true;
            others = Others-push_watch a n T p (neg l) v away fresh guards ready.others;
            mine = ready.mine;
            unique = ready.unique;
          })))
  visited S w ws (clash d first) e right r rec = absurd right

  pub visit_watchers-Visited :
      (ws : List Watcher) (S : Search X) → Ready S ws → Visited a n S p ws (visit_watchers p ws S)
  unfolding visit_watchers
  visit_watchers-Visited [] S r = record {
    done = refl;
    fine = r.fine;
    others = r.others;
    mine = tt;
    fewer = λ x. omega arith;
    clauses = λ x h. refl;
    keeps = λ v b h. h;
    same_qhead = refl;
    same_bin = refl;
    same_constraints = refl;
  }
  visit_watchers-Visited (w ∷ ws) S r =
      visited S w ws (inspect S.solver p w.blocker (S.ca w.cref)) refl
        (inspect-Right a S.solver p w.blocker (S.ca w.cref) r.fine.agrees r.p_true r.mine.0.0.1
          r.mine.0.0.0 r.mine.0.1)
        r (λ T ready. visit_watchers-Visited ws T ready)
