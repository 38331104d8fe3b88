-- ===== src/Constraint/Graph/Closed.antt =====
-- The statements of `buildTree` after its loop, and the whole call.
use glucose.Prelude.{
  ℕ, ◌≤◌, ◌<◌, ◌≡◌, refl, sym, ap, subst, ◌∙◌, ◌≢◌, ◌⊎◌, inl, inr, false, Option, none, some, List,
  [], ◌∷◌, arith, ==_refl, ==_ne, update,
}
use glucose.Prelude.Lists.{In, All-In}
use glucose.Constraint.Graph.{NodeState, Dfs, is_inactive}
use glucose.Constraint.Graph.Tree.{open_vertex, close_vertex}
use glucose.Constraint.Graph.Grown.{
  Same, Kept, Kept-trans, Carries, Kept-Carries, Fine, Fine-Carries, Above, ActiveAt,
}
use glucose.Constraint.Graph.Opened.{
  Grown, Built, Lower, Stacked, Stacked-Kept, top, top_in, Stacked-rank, rank_unique, rank_none,
  rank-open_vertex, open_vertex-Kept, open_vertex-at, next_rank-open_vertex,
}
use glucose.Constraint.Graph.Scanned.{Handled, Scanned}

abbrev pub Symmetric : (ℕ → List ℕ) → Type 0
Symmetric adj = (x y : ℕ) → In y (adj x) → In x (adj y)

module _ (adj : ℕ → List ℕ) (state : ℕ → NodeState) (symmetric : Symmetric adj) (c : Dfs)
    (b : ℕ → ℕ) (os : List ℕ) (v : ℕ) (parent : Option ℕ) (cluster : ℕ)
    (parent_is : parent ≡ top os) (new : c.rank v ≡ none) (live : is_inactive (state v) ≡ false)
    (grown : Grown adj state c b os) (d : Dfs) (f : ℕ → ℕ) (low count : ℕ)
    (h : Scanned adj state os v c.next_rank parent cluster
      (open_vertex v parent cluster c)
      b
      d
      f
      low
      count
      []) where
  abbrev o : Dfs
  o = open_vertex v parent cluster c

  abbrev e : Dfs
  e = (close_vertex v (d, low, count)).0

  abbrev g : ℕ → ℕ
  g = update f v d.next_rank

  opened-Kept : Kept c o b b
  opened-Kept = open_vertex-Kept adj state c b os v parent cluster new live grown

  before-Kept : Kept c d b f
  before-Kept = Kept-trans c o d b b f opened-Kept h.kept

  started : c.next_rank < d.next_rank
  started = h.grown.bounded v c.next_rank h.at

  -- A vertex with a rank was there before the call, is `v`, or has a later rank than `v`.
  when :
      (x s : ℕ)
      → d.rank x ≡ some s
      → (c.rank x ≡ some s) ⊎ ((v ≡ x) × (c.next_rank ≡ s)) ⊎ (c.next_rank < s)
  when x s k = elim (h.kept.fresh x s k) [
    | inl old ↦ elim (rank-open_vertex adj state c b os v parent cluster new live grown x s old) [
      | inl own ↦ inr (inl own)
      | inr first ↦ inl first
    ]
    | inr later ↦ inr (
        inr (omega (arith, next_rank-open_vertex adj state c b os v parent cluster new live grown)))
  ]

  after : (x s : ℕ) → d.rank x ≡ some s → c.next_rank ≤ s → v ≢ x → c.next_rank < s
  after x s k ge ne = elim (when x s k) [
    | inl old ↦ absurd (omega (arith, grown.bounded x s old))
    | inr (inl (same, _)) ↦ absurd (ne same)
    | inr (inr gt) ↦ gt
  ]

  not_v : (x s : ℕ) → d.rank x ≡ some s → c.next_rank < s → v ≢ x
  not_v x s k gt same =
      omega (arith, rank_unique h.at (subst (λ y. d.rank y ≡ some s) (sym same) k))

  unchanged : (x : ℕ) → v ≢ x → Same d e f g x
  unfolding close_vertex
  unchanged x ne = record {
    lowlink = rw (==_ne v x ne) refl;
    count = rw (==_ne v x ne) refl;
    cluster = refl;
    parent = refl;
    fin = rw (==_ne v x ne) refl;
  }

  same_ranks : (x : ℕ) → e.rank x ≡ d.rank x
  unfolding close_vertex
  same_ranks x = refl

  same_parent : (x : ℕ) → e.parent x ≡ d.parent x
  unfolding close_vertex
  same_parent x = refl

  same_cluster : (x : ℕ) → e.cluster_id x ≡ d.cluster_id x
  unfolding close_vertex
  same_cluster x = refl

  same_next : e.next_rank ≡ d.next_rank
  unfolding close_vertex
  same_next = refl

  closed_low : (close_vertex v (d, low, count)).1 ≡ low
  unfolding close_vertex
  closed_low = refl

  own_low : e.lowlink v ≡ low
  unfolding close_vertex
  own_low = rw (==_refl v) refl

  own_count : e.subtree_active_count v ≡ count
  unfolding close_vertex
  own_count = rw (==_refl v) refl

  own_fin : g v ≡ d.next_rank
  own_fin = rw (==_refl v) refl

  own_parent : e.parent v ≡ parent
  unfolding open_vertex close_vertex
  own_parent =
      (h.kept.fields v c.next_rank
        (open_vertex-at adj state c b os v parent cluster new live grown)).parent
      ∙ rw (==_refl v) refl

  close_vertex-Kept : Kept c e b g
  close_vertex-Kept = record {
    ranks = λ x s k. same_ranks x ∙ before-Kept.ranks x s k;
    fields = λ x s k.
        let ne : v ≢ x = λ same. rank_none new (subst (λ y. c.rank y ≡ some s) (sym same) k) in
        let p = before-Kept.fields x s k in
        let q = unchanged x ne in
        record {
          lowlink = q.lowlink ∙ p.lowlink;
          count = q.count ∙ p.count;
          cluster = q.cluster ∙ p.cluster;
          parent = q.parent ∙ p.parent;
          fin = q.fin ∙ p.fin;
        };
    fresh = λ x s k. before-Kept.fresh x s (sym (same_ranks x) ∙ k);
    grows = omega (arith, started, same_next);
  }

  close_vertex-Carries : (r m : ℕ) → c.next_rank < r → Carries d e f g r m
  close_vertex-Carries r m gt = record {
    ranks = λ x s k. same_ranks x ∙ k;
    back = λ x s k lt. sym (same_ranks x) ∙ k;
    fields = λ x s k ge lt. unchanged x (not_v x s k (omega arith));
    grows = omega (arith, same_next);
  }

  -- An earlier neighbour of the subtree has a call that goes on.
  ongoing :
      (x s y t : ℕ)
      → d.rank x ≡ some s
      → c.next_rank ≤ s
      → In y (adj x)
      → d.rank y ≡ some t
      → t < c.next_rank
      → (parent ≡ some y) ⊎ Above e v (λ u. t < u)
  ongoing x s y t k ge m at lt = elim (when y t at) [
    | inr (inl (_, same)) ↦ absurd (omega arith)
    | inr (inr gt) ↦ absurd (omega arith)
    | inl old ↦ elim (grown.finished y t old) [
      | inl open_y ↦ on_stack os parent_is grown.stacked open_y old
      | inr fine ↦
          let (u, at_x, _) =
            fine.edges y t x (old, omega arith, fine.starts) (symmetric x y m)
              (h.grown.live x s k) in
          absurd (omega (arith, grown.bounded x u at_x, rank_unique k (before-Kept.ranks x u at_x)))
    ]
  ]
    where
      on_stack :
          (is : List ℕ)
          → parent ≡ top is
          → Stacked c is
          → In y is
          → c.rank y ≡ some t
          → (parent ≡ some y) ⊎ Above e v (λ u. t < u)
      on_stack [] p stacked m old = absurd m
      on_stack (q ∷ is) p stacked (inl same) old = inl (p ∙ ap some same)
      on_stack (q ∷ is) p ((u, at_q, lower), _) (inr more) old =
          let (t', at', lt') = All-In (Lower c u) is lower more in
          inr (
            q,
            u,
            own_parent ∙ p,
            close_vertex-Kept.ranks q u at_q,
            omega (arith, rank_unique at' old),
          )

  inside : (x s : ℕ) → e.rank x ≡ some s → (d.rank x ≡ some s) × (s < d.next_rank)
  inside x s k = let k' = sym (same_ranks x) ∙ k in (k', h.grown.bounded x s k')

  -- What holds of `v` holds of each vertex from `v` on, if it holds of the later ones.
  from_v :
      (P : ℕ → ℕ → Type 0)
      → P v c.next_rank
      → ((x s : ℕ) → d.rank x ≡ some s → v ≢ x → c.next_rank < s → P x s)
      → (x s : ℕ) → e.rank x ≡ some s
      → c.next_rank ≤ s
      → P x s
  from_v P own others x s k ge = elim (when x s (inside x s k).0) [
    | inl old ↦ absurd (omega (arith, grown.bounded x s old))
    | inr (inl (same, first)) ↦ subst (λ y. P y s) same (subst (P v) first own)
    | inr (inr gt) ↦ others x s (inside x s k).0 (not_v x s (inside x s k).0 gt) gt
  ]

  Handled-edge :
      (x s y : ℕ)
      → d.rank x ≡ some s
      → c.next_rank ≤ s
      → In y (adj x)
      → is_inactive (state y) ≡ false
      → Handled adj state os v c.next_rank parent cluster d low y
      → (t : ℕ) × (e.rank y ≡ some t)
        × ((c.next_rank ≤ t) × (t < g v)
            ⊎ (e.parent v ≡ some y)
            ⊎ (e.lowlink v ≤ t) × Above e v (λ u. t < u))
  Handled-edge x s y k ge m alive handled =
      let (t, at, side) = handled alive in
      (
        t,
        same_ranks y ∙ at,
        elim side [
          | inl later ↦ inl (later, omega (arith, own_fin, h.grown.bounded y t at))
          | inr (inl above) ↦ inr (inl (own_parent ∙ above))
          | inr (inr (le, lt)) ↦ elim (ongoing x s y t k ge m at lt) [
            | inl above ↦ inr (inl (own_parent ∙ above))
            | inr above ↦ inr (inr (omega (arith, own_low), above))
          ]
        ],
      )

  abbrev Edges : ℕ → ℕ → Type 0
  Edges x s =
      (y : ℕ)
      → In y (adj x)
      → is_inactive (state y) ≡ false
      → (t : ℕ) × (e.rank y ≡ some t)
        × ((c.next_rank ≤ t) × (t < g v)
            ⊎ (e.parent v ≡ some y)
            ⊎ (e.lowlink v ≤ t) × Above e v (λ u. t < u))

  own-Edges : Edges v c.next_rank
  own-Edges y m alive = elim (h.own y m) [
    | inl none_left ↦ absurd none_left
    | inr handled ↦ Handled-edge v c.next_rank y h.at (omega arith) m alive handled
  ]

  all-Edges : (x s : ℕ) → e.rank x ≡ some s → c.next_rank ≤ s → Edges x s
  all-Edges =
      from_v Edges own-Edges
        λ x s k ne gt y m alive. Handled-edge x s y k (omega arith) m alive (h.edges x s y k gt m)

  all_rest :
      (x s : ℕ)
      → e.rank x ≡ some s
      → c.next_rank ≤ s
      → e.subtree_active_count x < e.subtree_active_count v
      → ActiveAt adj state e (λ t. (c.next_rank ≤ t) × (t < g v) × ((t < s) ⊎ (g x ≤ t)))
  all_rest =
      from_v
        (λ x s.
          e.subtree_active_count x < e.subtree_active_count v
          → ActiveAt adj state e (λ t. (c.next_rank ≤ t) × (t < g v) × ((t < s) ⊎ (g x ≤ t))))
        (λ less. absurd (omega arith))
        (λ x s k ne gt less.
          let (z, t, a, at, (ge, out)) =
            h.rest x s k gt (omega (arith, own_count, (unchanged x ne).count)) in
          (
            z,
            t,
            a,
            same_ranks z ∙ at,
            (
              ge,
              omega (arith, own_fin, h.grown.bounded z t at),
              ground (arith, (unchanged x ne).fin),
            ),
          ))

  parent_lower : (q : ℕ) → parent ≡ some q → (u : ℕ) × (e.rank q ≡ some u) × (u < c.next_rank)
  parent_lower q p =
      let (u, at) = Stacked-rank c os q grown.stacked (top_in os q (sym parent_is ∙ p)) in
      (u, close_vertex-Kept.ranks q u at, grown.bounded q u at)

  close_vertex-Fine : Fine adj state e g v c.next_rank
  close_vertex-Fine = record {
    starts = omega (arith, own_fin, started);
    ends = omega (arith, own_fin, same_next);
    edges = λ x s y (k, ge, _). all-Edges x s k ge y;
    up = λ x s (k, ge, _) ne.
        let k' = (inside x s k).0 in
        let (q, u, p, at, le) = h.up x s k' (after x s k' ge λ same. ne (sym same)) in
        (q, u, same_parent x ∙ p, same_ranks q ∙ at, le);
    lower = λ q p. parent_lower q (sym own_parent ∙ p);
    nested = λ x s (k, ge, _).
        from_v (λ x s. g x ≤ g v) (omega arith)
          (λ x s k ne gt. omega (arith, own_fin, (unchanged x ne).fin, h.nested x s k gt)) x s k ge;
    less = λ x s (k, ge, _).
        from_v (λ x s. e.subtree_active_count x ≤ e.subtree_active_count v) (omega arith)
          (λ x s k ne gt. omega (arith, own_count, (unchanged x ne).count, h.less x s k gt)) x s k
          ge;
    found = λ pos_count.
        let (z, t, a, at, ge) = h.found (omega (arith, own_count)) in
        (z, t, a, same_ranks z ∙ at, (ge, omega (arith, own_fin, h.grown.bounded z t at)));
    rest = λ x s (k, ge, _). all_rest x s k ge;
  }

  close_vertex-Grown : Grown adj state e g os
  close_vertex-Grown = record {
    bounded = λ x s k. omega (arith, same_next, (inside x s k).1);
    live = λ x s k. h.grown.live x s (inside x s k).0;
    finished = λ x s k. elim (when x s (inside x s k).0) [
      | inl old ↦ elim (grown.finished x s old) [
        | inl m ↦ inl m
        | inr fine ↦ inr (
            Fine-Carries adj state c e b g x s
              (Kept-Carries c e b g s (b x) close_vertex-Kept fine.ends) old fine)
      ]
      | inr (inl (same, first)) ↦ inr (
          subst (λ y. Fine adj state e g y s) same
            (subst (Fine adj state e g v) first close_vertex-Fine))
      | inr (inr gt) ↦ elim (h.grown.finished x s (inside x s k).0) [
        | inl (inl same) ↦ absurd (not_v x s (inside x s k).0 gt same)
        | inl (inr m) ↦ inl m
        | inr fine ↦ inr (
            Fine-Carries adj state d e f g x s (close_vertex-Carries s (f x) gt) (inside x s k).0
              fine)
      ]
    ];
    stacked = Stacked-Kept c e b g os close_vertex-Kept grown.stacked;
  }

  pub close_vertex-Built :
      Built adj state c b v parent cluster os
        (close_vertex v (d, low, count)).0
        (close_vertex v (d, low, count)).1
        (update f v d.next_rank)
  close_vertex-Built = record {
    kept = close_vertex-Kept;
    grown = close_vertex-Grown;
    at = same_ranks v ∙ h.at;
    ends = own_fin ∙ sym same_next;
    low_is = own_low ∙ sym closed_low;
    parent_is = own_parent;
    clusters = λ x s k ge. same_cluster x ∙ h.clusters x s (inside x s k).0 ge;
    fine = close_vertex-Fine;
  }
