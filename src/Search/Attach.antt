-- ===== src/Search/Attach.antt =====
-- core/Solver.cc: `attachClause` and `detachClause`, the latter strict, and `satisfied`. The counters
-- and the lazy detaching, which marks lists for cleaning, are left out. A clause of less than two
-- literals fails an assertion, and is left alone here.
pub mod Attached
pub mod Listed
use glucose.Prelude.{
  ℕ, zero, suc, ◌+◌, ◌-◌, ◌*◌, ◌/◌, ◌%◌, ◌^◌, ◌≤◌, ◌<◌, ◌≡◌, refl, sym, ap, subst, ◌∙◌, ◌≢◌, ◌↔◌,
  ◌⊎◌, inl, inr, Bool, true, false, not, ◌&&◌, ◌||◌, Option, none, some, List, [], ◌∷◌, ◌++◌, map,
  arith, ltb, leb, ◌==◌, if◌then◌else◌, ==_iff, ==_refl, ==_ne, eq_of_==, Bool-cases, Option-cases,
  update, xor,
}
use glucose.Lit.{Lit, neg}
use glucose.Lbool.{l_true, eq}
use glucose.Solver.{Solver, CRef, value}
use glucose.Search.{Watcher, Search, push_watch}

-- `remove` of mtl/Alg.h: the first watcher of the clause, or else the last one of the list.
unfoldable pub remove : CRef → List Watcher → List Watcher
remove cr [] = []
remove cr (w ∷ []) = []
remove cr (w ∷ v ∷ ws) = if w.cref == cr then v ∷ ws else w ∷ remove cr (v ∷ ws)

-- In the default mode.
unfoldable pub satisfied : Solver → List Lit → Bool
satisfied s [] = false
satisfied s (l ∷ ls) = if eq (value s l) l_true then true else satisfied s ls

module _ {X : Type 0} where
  abbrev pub push_bin : Search X → Lit → Watcher → Search X
  push_bin S q w = record S { watches_bin = update S.watches_bin q (S.watches_bin q ++ w ∷ []) }

  unfoldable pub attach_as : CRef → List Lit → Search X → Search X
  attach_as cr [] S = S
  attach_as cr (x ∷ []) S = S
  attach_as cr (x ∷ y ∷ []) S =
      push_bin (push_bin S (neg x) (record { cref = cr; blocker = y })) (neg y)
        (record { cref = cr; blocker = x })
  attach_as cr (x ∷ y ∷ z ∷ zs) S =
      push_watch (push_watch S (neg x) (record { cref = cr; blocker = y })) (neg y)
        (record { cref = cr; blocker = x })

  abbrev pub attach_clause : CRef → Search X → Search X
  attach_clause cr S = attach_as cr (S.ca cr) S

  abbrev remove_watch : Search X → Lit → CRef → Search X
  remove_watch S q cr = record S { watches = update S.watches q (remove cr (S.watches q)) }

  abbrev remove_bin : Search X → Lit → CRef → Search X
  remove_bin S q cr = record S {
    watches_bin = update S.watches_bin q (remove cr (S.watches_bin q));
  }

  unfoldable pub detach_as : CRef → List Lit → Search X → Search X
  unfolding remove
  detach_as cr [] S = S
  detach_as cr (x ∷ []) S = S
  detach_as cr (x ∷ y ∷ []) S = remove_bin (remove_bin S (neg x) cr) (neg y) cr
  detach_as cr (x ∷ y ∷ z ∷ zs) S = remove_watch (remove_watch S (neg x) cr) (neg y) cr

  abbrev pub detach_clause : CRef → Search X → Search X
  detach_clause cr S = detach_as cr (S.ca cr) S
