-- ===== src/Constraint/Graph/Opened.antt =====
-- The invariant of the search, and the statements of `buildTree` before its loop.
use glucose.Prelude.{
  ℕ, suc, ◌≤◌, ◌<◌, ◌≡◌, refl, sym, subst, ◌≢◌, ◌⊎◌, inl, inr, false, Option, none, some, List, [],
  ◌∷◌, arith, ◌==◌, ==_refl, ==_ne, eq_of_==, Bool-cases,
}
use glucose.Prelude.Lists.{In, All, In-All}
use glucose.Constraint.Graph.{NodeState, Dfs, is_inactive}
use glucose.Constraint.Graph.Tree.{open_vertex}
use glucose.Constraint.Graph.Grown.{Kept, Kept-Carries, Fine, Fine-Carries}

pub rank_unique : {o : Option ℕ} {s t : ℕ} → o ≡ some s → o ≡ some t → s ≡ t
rank_unique e k = ground arith

pub rank_none : {o : Option ℕ} {s : ℕ} → o ≡ none → o ≡ some s → ⊥
rank_none e k = ground arith

-- The vertices whose calls go on, the last one first: each has a rank above those that follow.
abbrev pub Lower : Dfs → ℕ → ℕ → Type 0
Lower d r y = (t : ℕ) × (d.rank y ≡ some t) × (t < r)

abbrev pub Stacked : Dfs → List ℕ → Type 0
Stacked d [] = Unit
Stacked d (x ∷ os) = ((r : ℕ) × (d.rank x ≡ some r) × All (Lower d r) os) × Stacked d os

abbrev pub top : List ℕ → Option ℕ
top [] = none
top (x ∷ os) = some x

pub top_in : (os : List ℕ) (y : ℕ) → top os ≡ some y → In y os
top_in [] y e = absurd (ground arith)
top_in (x ∷ os) y e = inl (ground arith)

pub Stacked-rank :
    (d : Dfs) (os : List ℕ) (y : ℕ) → Stacked d os → In y os → (t : ℕ) × (d.rank y ≡ some t)
Stacked-rank d [] y h m = absurd m
Stacked-rank d (x ∷ os) y h (inl e) = subst (λ y. (t : ℕ) × (d.rank y ≡ some t)) e (h.0.0, h.0.1)
Stacked-rank d (x ∷ os) y h (inr m) = Stacked-rank d os y h.1 m

Lower-Kept :
    (d e : Dfs) (f g : ℕ → ℕ) (r : ℕ) (os : List ℕ)
    → Kept d e f g
    → All (Lower d r) os
    → All (Lower e r) os
Lower-Kept d e f g r [] k h = tt
Lower-Kept d e f g r (x ∷ os) k ((t, at, lt), h) =
    ((t, k.ranks x t at, lt), Lower-Kept d e f g r os k h)

pub Stacked-Kept :
    (d e : Dfs) (f g : ℕ → ℕ) (os : List ℕ) → Kept d e f g → Stacked d os → Stacked e os
Stacked-Kept d e f g [] k h = tt
Stacked-Kept d e f g (x ∷ os) k ((r, at, lower), h) =
    ((r, k.ranks x r at, Lower-Kept d e f g r os k lower), Stacked-Kept d e f g os k h)

module _ (adj : ℕ → List ℕ) (state : ℕ → NodeState) where
  pub record Grown (d : Dfs) (f : ℕ → ℕ) (os : List ℕ) : Type 0 where
    pub bounded : (x s : ℕ) → d.rank x ≡ some s → s < d.next_rank
    pub live : (x s : ℕ) → d.rank x ≡ some s → is_inactive (state x) ≡ false
    pub finished : (x s : ℕ) → d.rank x ≡ some s → In x os ⊎ Fine adj state d f x s
    pub stacked : Stacked d os

  -- What a call for the vertex `v` does, which returns `low`.
  pub record Built (d : Dfs) (f : ℕ → ℕ) (v : ℕ) (parent : Option ℕ) (cluster : ℕ) (os : List ℕ)
      (e : Dfs) (low : ℕ) (g : ℕ → ℕ) : Type 0 where
    pub kept : Kept d e f g
    pub grown : Grown e g os
    pub at : e.rank v ≡ some d.next_rank
    pub ends : g v ≡ e.next_rank
    pub low_is : e.lowlink v ≡ low
    pub parent_is : e.parent v ≡ parent
    pub clusters : (x s : ℕ) → e.rank x ≡ some s → d.next_rank ≤ s → e.cluster_id x ≡ cluster
    pub fine : Fine adj state e g v d.next_rank

  module _ (d : Dfs) (f : ℕ → ℕ) (os : List ℕ) (v : ℕ) (parent : Option ℕ) (cluster : ℕ)
      (new : d.rank v ≡ none) (live : is_inactive (state v) ≡ false) (grown : Grown d f os) where
    abbrev opened : Dfs
    opened = open_vertex v parent cluster d

    pub rank-open_vertex :
        (x s : ℕ)
        → (open_vertex v parent cluster d).rank x ≡ some s
        → ((v ≡ x) × (d.next_rank ≡ s)) ⊎ (d.rank x ≡ some s)
    unfolding open_vertex
    rank-open_vertex x s = elim (Bool-cases (v == x)) [
      | inl same ↦ rw same λ e. inl (eq_of_== v x same, ground arith)
      | inr other ↦ rw other inr
    ]

    not_new : (x s : ℕ) → d.rank x ≡ some s → v ≢ x
    not_new x s e k = rank_none new (subst (λ y. d.rank y ≡ some s) (sym k) e)

    pub open_vertex-at : (open_vertex v parent cluster d).rank v ≡ some d.next_rank
    unfolding open_vertex
    open_vertex-at = rw (==_refl v) refl

    pub open_vertex-Kept : Kept d (open_vertex v parent cluster d) f f
    unfolding open_vertex
    open_vertex-Kept = record {
      ranks = λ x s e. rw (==_ne v x (not_new x s e)) e;
      fields = λ x s e. record {
        lowlink = refl;
        count = refl;
        cluster = rw (==_ne v x (not_new x s e)) refl;
        parent = rw (==_ne v x (not_new x s e)) refl;
        fin = refl;
      };
      fresh = λ x s e. elim (rank-open_vertex x s e) [
        | inl (same, k) ↦ inr (omega arith)
        | inr old ↦ inl old
      ];
      grows = omega arith;
    }

    pub next_rank-open_vertex : (open_vertex v parent cluster d).next_rank ≡ suc d.next_rank
    unfolding open_vertex
    next_rank-open_vertex = refl

    open_vertex-Lower : (is : List ℕ) → Stacked d is → All (Lower opened d.next_rank) is
    open_vertex-Lower is h = In-All is λ y m.
        let (t, at) = Stacked-rank d is y h m in
        (t, open_vertex-Kept.ranks y t at, grown.bounded y t at)

    pub open_vertex-Grown : Grown (open_vertex v parent cluster d) f (v ∷ os)
    open_vertex-Grown = record {
      bounded = λ x s e. elim (rank-open_vertex x s e) [
        | inl (same, k) ↦ omega (arith, next_rank-open_vertex)
        | inr old ↦ omega (arith, next_rank-open_vertex, grown.bounded x s old)
      ];
      live = λ x s e. elim (rank-open_vertex x s e) [
        | inl (same, k) ↦ subst (λ y. is_inactive (state y) ≡ false) same live
        | inr old ↦ grown.live x s old
      ];
      finished = λ x s e. elim (rank-open_vertex x s e) [
        | inl (same, k) ↦ inl (inl same)
        | inr old ↦ elim (grown.finished x s old) [
          | inl m ↦ inl (inr m)
          | inr fine ↦ inr (
              Fine-Carries adj state d opened f f x s
                (Kept-Carries d opened f f s (f x) open_vertex-Kept fine.ends) old fine)
        ]
      ];
      stacked = (
        (d.next_rank, open_vertex-at, open_vertex-Lower os grown.stacked),
        Stacked-Kept d opened f f os open_vertex-Kept grown.stacked,
      );
    }
