-- ===== src/Constraint/Graph/Grown.antt =====
-- What holds between two calls of `buildTree`. The rank of a vertex and `fin`, the next rank when
-- its call ended, bound the ranks in its subtree.
use glucose.Prelude.{
  ℕ, ◌≤◌, ◌<◌, ◌≡◌, refl, sym, ◌∙◌, ◌≢◌, ◌⊎◌, inl, inr, true, false, some, List, arith,
}
use glucose.Prelude.Lists.{In}
use glucose.Constraint.Graph.{NodeState, Dfs, is_active, is_inactive}

-- The states `d` and `e` say the same of the vertex `x`, except that its rank is not compared.
pub record Same (d e : Dfs) (f g : ℕ → ℕ) (x : ℕ) : Type 0 where
  pub lowlink : e.lowlink x ≡ d.lowlink x
  pub count : e.subtree_active_count x ≡ d.subtree_active_count x
  pub cluster : e.cluster_id x ≡ d.cluster_id x
  pub parent : e.parent x ≡ d.parent x
  pub fin : g x ≡ f x

-- `e` comes after `d`: what was visited is not written, and new vertices have later ranks.
pub record Kept (d e : Dfs) (f g : ℕ → ℕ) : Type 0 where
  pub ranks : (x s : ℕ) → d.rank x ≡ some s → e.rank x ≡ some s
  pub fields : (x s : ℕ) → d.rank x ≡ some s → Same d e f g x
  pub fresh : (x s : ℕ) → e.rank x ≡ some s → (d.rank x ≡ some s) ⊎ (d.next_rank ≤ s)
  pub grows : d.next_rank ≤ e.next_rank

-- The same for the vertices whose ranks are in [r, m).
pub record Carries (d e : Dfs) (f g : ℕ → ℕ) (r m : ℕ) : Type 0 where
  pub ranks : (x s : ℕ) → d.rank x ≡ some s → e.rank x ≡ some s
  pub back : (x s : ℕ) → e.rank x ≡ some s → s < m → d.rank x ≡ some s
  pub fields : (x s : ℕ) → d.rank x ≡ some s → r ≤ s → s < m → Same d e f g x
  pub grows : d.next_rank ≤ e.next_rank

pub Kept-Carries :
    (d e : Dfs) (f g : ℕ → ℕ) (r m : ℕ) → Kept d e f g → m ≤ d.next_rank → Carries d e f g r m
Kept-Carries d e f g r m k h = record {
  ranks = k.ranks;
  back = λ x s e lt. elim (k.fresh x s e) [ inl old ↦ old | inr new ↦ absurd (omega arith) ];
  fields = λ x s e _ _. k.fields x s e;
  grows = k.grows;
}

Same-trans :
    (c d e : Dfs) (f g h : ℕ → ℕ) (x : ℕ) → Same c d f g x → Same d e g h x → Same c e f h x
Same-trans c d e f g h x p q = record {
  lowlink = q.lowlink ∙ p.lowlink;
  count = q.count ∙ p.count;
  cluster = q.cluster ∙ p.cluster;
  parent = q.parent ∙ p.parent;
  fin = q.fin ∙ p.fin;
}

pub Kept-trans : (c d e : Dfs) (f g h : ℕ → ℕ) → Kept c d f g → Kept d e g h → Kept c e f h
Kept-trans c d e f g h p q = record {
  ranks = λ x s e. q.ranks x s (p.ranks x s e);
  fields = λ x s e. Same-trans c d _ f g h x (p.fields x s e) (q.fields x s (p.ranks x s e));
  fresh = λ x s e. elim (q.fresh x s e) [
    | inl old ↦ p.fresh x s old
    | inr new ↦ inr (omega (arith, p.grows))
  ];
  grows = omega (arith, p.grows, q.grows);
}

pub Kept-refl : (d : Dfs) (f : ℕ → ℕ) → Kept d d f f
Kept-refl d f = record {
  ranks = λ x s e. e;
  fields =
      λ x s e. record { lowlink = refl; count = refl; cluster = refl; parent = refl; fin = refl };
  fresh = λ x s e. inl e;
  grows = omega arith;
}

-- The parent of `w` has a rank, of which `P` holds.
abbrev pub Above : Dfs → ℕ → (ℕ → Type 0) → Type 0
Above d w P = (q : ℕ) × (u : ℕ) × (d.parent w ≡ some q) × (d.rank q ≡ some u) × P u

module _ (adj : ℕ → List ℕ) (state : ℕ → NodeState) where
  -- `x` has the rank `s`, which is in [r, m).
  abbrev pub Inside : Dfs → ℕ → ℕ → ℕ → ℕ → Type 0
  Inside d r m x s = (d.rank x ≡ some s) × (r ≤ s) × (s < m)

  -- An active vertex with a rank of which `P` holds.
  abbrev pub ActiveAt : Dfs → (ℕ → Type 0) → Type 0
  ActiveAt d P = (z : ℕ) × (t : ℕ) × (is_active (state z) ≡ true) × (d.rank z ≡ some t) × P t

  -- What a finished call has found out of the vertex `w` with rank `r`.
  pub record Fine (d : Dfs) (f : ℕ → ℕ) (w r : ℕ) : Type 0 where
    pub starts : r < f w
    pub ends : f w ≤ d.next_rank
    pub edges :
        (x s y : ℕ)
        → Inside d r (f w) x s
        → In y (adj x)
        → is_inactive (state y) ≡ false
        → (t : ℕ) × (d.rank y ≡ some t)
          × ((r ≤ t) × (t < f w)
              ⊎ (d.parent w ≡ some y)
              ⊎ (d.lowlink w ≤ t) × Above d w (λ u. t < u))
    pub up : (x s : ℕ) → Inside d r (f w) x s → x ≢ w → Above d x (λ u. r ≤ u)
    pub lower : (q : ℕ) → d.parent w ≡ some q → (u : ℕ) × (d.rank q ≡ some u) × (u < r)
    pub nested : (x s : ℕ) → Inside d r (f w) x s → f x ≤ f w
    pub less :
        (x s : ℕ) → Inside d r (f w) x s → d.subtree_active_count x ≤ d.subtree_active_count w
    pub found : 0 < d.subtree_active_count w → ActiveAt d (λ t. (r ≤ t) × (t < f w))
    pub rest :
        (x s : ℕ)
        → Inside d r (f w) x s
        → d.subtree_active_count x < d.subtree_active_count w
        → ActiveAt d (λ t. (r ≤ t) × (t < f w) × ((t < s) ⊎ (f x ≤ t)))

  Above-Carries :
      (d e : Dfs) (f g : ℕ → ℕ) (r m x s : ℕ) (P : ℕ → Type 0)
      → Carries d e f g r m
      → Inside d r m x s
      → Above d x P
      → Above e x P
  Above-Carries d e f g r m x s P c (at, ge, lt) (q, u, p, k, h) =
      (q, u, (c.fields x s at ge lt).parent ∙ p, c.ranks q u k, h)

  ActiveAt-Carries :
      (d e : Dfs) (f g : ℕ → ℕ) (r m : ℕ) (P Q : ℕ → Type 0)
      → Carries d e f g r m
      → ((t : ℕ) → P t → Q t)
      → ActiveAt d P
      → ActiveAt e Q
  ActiveAt-Carries d e f g r m P Q c i (z, t, a, k, h) = (z, t, a, c.ranks z t k, i t h)

  pub Fine-Carries :
      (d e : Dfs) (f g : ℕ → ℕ) (w r : ℕ)
      → Carries d e f g r (f w)
      → d.rank w ≡ some r
      → Fine d f w r
      → Fine e g w r
  Fine-Carries d e f g w r c at h =
      let own = c.fields w r at (omega arith) h.starts in
      let here : (x s : ℕ) → Inside e r (g w) x s → Inside d r (f w) x s =
        λ x s (k, ge, lt). (c.back x s k (omega (arith, own.fin)), ge, omega (arith, own.fin)) in
      let same : (x s : ℕ) → Inside e r (g w) x s → Same d e f g x =
        λ x s k. (let (b, ge, lt) = here x s k in c.fields x s b ge lt) in
      record {
        starts = omega (arith, h.starts, own.fin);
        ends = omega (arith, h.ends, own.fin, c.grows);
        edges = λ x s y k m live.
            let (t, b, side) = h.edges x s y (here x s k) m live in
            (
              t,
              c.ranks y t b,
              elim side [
                | inl inside ↦ inl (inside.0, omega (arith, own.fin, inside.1))
                | inr (inl top) ↦ inr (inl (own.parent ∙ top))
                | inr (inr (low, above)) ↦ inr (
                    inr (
                      omega (arith, own.lowlink, low),
                      Above-Carries d e f g r (f w) w r (λ u. t < u) c (at, omega arith, h.starts)
                          above,
                    ))
              ],
            );
        up = λ x s k ne.
            Above-Carries d e f g r (f w) x s (λ u. r ≤ u) c (here x s k)
              (h.up x s (here x s k) ne);
        lower = λ q p. let (u, b, lt) = h.lower q (sym own.parent ∙ p) in (u, c.ranks q u b, lt);
        nested = λ x s k. omega (arith, h.nested x s (here x s k), own.fin, (same x s k).fin);
        less = λ x s k. omega (arith, h.less x s (here x s k), own.count, (same x s k).count);
        found = λ lt.
            ActiveAt-Carries d e f g r (f w) _ (λ t. (r ≤ t) × (t < g w)) c
              (λ t (ge, k). (ge, omega (arith, own.fin))) (h.found (omega (arith, own.count)));
        rest = λ x s k lt.
            ActiveAt-Carries d e f g r (f w) _ (λ t. (r ≤ t) × (t < g w) × ((t < s) ⊎ (g x ≤ t))) c
              (λ t (ge, k', out). (ge, omega (arith, own.fin), ground (arith, (same x s k).fin)))
              (h.rest x s (here x s k) (omega (arith, own.count, (same x s k).count)));
      }
