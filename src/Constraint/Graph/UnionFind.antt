-- ===== src/Constraint/Graph/UnionFind.antt =====
-- constraints/Graph.cc: disjoint sets with a log, from which the last changes are taken back.
-- `parent_` of a root is less than 0. The head of `redo_` is its back.
use glucose.Prelude.{ℕ, zero, suc, Bool, false, List, [], ◌∷◌, ◌==◌, if◌then◌else◌, update}
use glucose.Prelude.Int.{ℤ, pos, negsuc, ◌+ℤ◌, ◌-ℤ◌, ltb_ℤ}

-- The first part of an entry: 2 p, 2 p + 1 or -1 in the code.
pub data Loc : Type 0 where
  parent_at active_at : ℕ → Loc
  clusters : Loc

pub record UnionFind : Type 0 where
  pub parent : ℕ → ℤ
  pub n_active : ℕ → ℤ
  pub redo_log : List (Loc × ℤ)
  pub n_active_clusters : ℤ

unfoldable pub union_find : UnionFind
union_find = record {
  parent = λ p. negsuc 0;
  n_active = λ p. pos 0;
  redo_log = [];
  n_active_clusters = pos 0;
}

-- The fuel is the number of elements: a walk up repeats none.
unfoldable pub root : ℕ → (ℕ → ℤ) → ℕ → ℕ
root zero parent p = p
root (suc fuel) parent p = elim (parent p) [ pos q ↦ root fuel parent q | negsuc k ↦ p ]

abbrev pub eq_ℤ : ℤ → ℤ → Bool
eq_ℤ (pos a) (pos b) = a == b
eq_ℤ (pos a) (negsuc b) = false
eq_ℤ (negsuc a) (pos b) = false
eq_ℤ (negsuc a) (negsuc b) = a == b

unfoldable pub update_parent : ℕ → ℤ → UnionFind → UnionFind
update_parent p v u = if eq_ℤ (u.parent p) v then u else record {
  parent = update u.parent p v;
  n_active = u.n_active;
  redo_log = (parent_at p, u.parent p) ∷ u.redo_log;
  n_active_clusters = u.n_active_clusters;
}

unfoldable pub update_n_active : ℕ → ℤ → UnionFind → UnionFind
update_n_active p v u = if eq_ℤ (u.n_active p) v then u else record {
  parent = u.parent;
  n_active = update u.n_active p v;
  redo_log = (active_at p, u.n_active p) ∷ u.redo_log;
  n_active_clusters = u.n_active_clusters;
}

unfoldable pub update_n_active_clusters : ℤ → UnionFind → UnionFind
update_n_active_clusters v u = if eq_ℤ u.n_active_clusters v then u else record {
  parent = u.parent;
  n_active = u.n_active;
  redo_log = (clusters, u.n_active_clusters) ∷ u.redo_log;
  n_active_clusters = v;
}

-- `x > 0 ? 1 : 0`
unfoldable pub one_if_positive : ℤ → ℤ
one_if_positive x = if ltb_ℤ (pos 0) x then pos 1 else pos 0

-- The rest of Merge, for the roots `p` and `q` in their order after the swap.
unfoldable pub link : ℕ → ℕ → UnionFind → UnionFind
unfolding update_parent update_n_active update_n_active_clusters one_if_positive
link p q u =
    let u1 = update_parent p (u.parent p +ℤ u.parent q) u in
    let u2 = update_parent q (pos p) u1 in
    let nac =
      u2.n_active_clusters
      -ℤ one_if_positive (u2.n_active p)
      -ℤ one_if_positive (u2.n_active q)
      +ℤ one_if_positive (u2.n_active p +ℤ u2.n_active q) in
    let u3 = update_n_active p (u2.n_active p +ℤ u2.n_active q) u2 in
    update_n_active_clusters nac (update_n_active q (pos 0) u3)

unfoldable pub merge : ℕ → ℕ → ℕ → UnionFind → UnionFind
unfolding root link
merge n p q u =
    let x = root n u.parent p in
    let y = root n u.parent q in
    if x == y then u else if ltb_ℤ (u.parent y) (u.parent x) then link y x u else link x y u

unfoldable pub add_active_count : ℕ → ℕ → ℤ → UnionFind → UnionFind
unfolding root update_n_active update_n_active_clusters one_if_positive
add_active_count n p d u =
    let x = root n u.parent p in
    let nac = u.n_active_clusters -ℤ one_if_positive (u.n_active x) in
    let u1 = update_n_active x (u.n_active x +ℤ d) u in
    update_n_active_clusters (nac +ℤ one_if_positive (u1.n_active x)) u1

unfoldable pub commit : UnionFind → UnionFind
commit u = record {
  parent = u.parent;
  n_active = u.n_active;
  redo_log = [];
  n_active_clusters = u.n_active_clusters;
}

-- What Redo does with one entry.
unfoldable pub put_back : Loc → ℤ → UnionFind → UnionFind
put_back clusters val u = record u { n_active_clusters = val }
put_back (parent_at p) val u = record u { parent = update u.parent p val }
put_back (active_at p) val u = record u { n_active = update u.n_active p val }

-- The loop of Redo, over the log.
unfoldable pub put_all_back : List (Loc × ℤ) → UnionFind → UnionFind
unfolding put_back
put_all_back [] u = u
put_all_back ((loc, val) ∷ log) u =
    put_all_back log (put_back loc val (record u { redo_log = log }))

unfoldable pub redo : UnionFind → UnionFind
unfolding put_all_back
redo u = put_all_back u.redo_log u
