-- ===== src/Container/Bqueue/Window.antt =====
-- The queue holds the last numbers that were pushed, and their sum.
use glucose.Prelude.{
  ℕ, zero, suc, ◌+◌, ◌-◌, ◌≤◌, ◌<◌, ◌≡◌, refl, sym, ap, subst, ◌∙◌, ◌⊎◌, inl, inr, true, false,
  List, [], ◌∷◌, ◌++◌, arith, ◌==◌, if◌then◌else◌, Bool-cases,
}
use mathlib.Core.List.{append_assoc, append-nil}
use glucose.Prelude.Lists.{length, get_or, set, replicate, length-append, length-set}
use glucose.Container.Queue.{next, from}
use glucose.Container.Queue.Items.{
  tabulate, tabulate_cong, tabulate_snoc, get_or-set_same, get_or-set_ne, length-from,
  length-replicate,
}
use glucose.Container.Queue.Fifo.{wrap}
use glucose.Container.Bqueue.{Bqueue, grow_to, push, pushes, fastclear}

abbrev pub total : List ℕ → ℕ
total [] = 0
total (x ∷ xs) = x + total xs

-- The last `n` elements.
abbrev pub last_of : ℕ → List ℕ → List ℕ
last_of n xs = from (length xs - n) xs

total-append : (xs : List ℕ) (x : ℕ) → total (xs ++ x ∷ []) ≡ total xs + x
total-append [] x = omega arith
total-append (y ∷ xs) x = omega (arith, total-append xs x)

-- The queue holds the numbers `ws`, the oldest first.
pub record Holds (q : Bqueue) (ws : List ℕ) : Type 0 where
  pub sized : q.maxsize ≤ length q.elems
  pub in_ring : q.first < q.maxsize
  pub window : tabulate q.queuesize (λ k. get_or q.elems (wrap q.maxsize (q.last + k)) 0) ≡ ws
  pub phase :
      ((q.queuesize < q.maxsize) × (q.last ≡ 0) × (q.first ≡ q.queuesize))
      ⊎ ((q.queuesize ≡ q.maxsize) × (q.last ≡ q.first))
  pub summed : q.sumofqueue ≡ total ws

abbrev rest : List ℕ → List ℕ
rest [] = []
rest (w ∷ ws) = ws

push_filling :
    (q : Bqueue) (ws : List ℕ) (x : ℕ)
    → Holds q ws
    → q.queuesize < q.maxsize
    → q.last ≡ 0
    → q.first ≡ q.queuesize
    → Holds (push q x) (ws ++ x ∷ [])
unfolding push
push_filling q ws x h less l f =
    let n = q.maxsize in
    let m = q.queuesize in
    let not_full : (m == n) ≡ false = ground arith in
    let old : ℕ → ℕ = λ k. get_or q.elems (wrap n (q.last + k)) 0 in
    let new : ℕ → ℕ = λ k. get_or (set q.elems q.first x) (wrap n (0 + k)) 0 in
    let last : new m ≡ x =
      ap (λ i. get_or (set q.elems q.first x) i 0) (ground arith)
      ∙ get_or-set_same q.elems q.first x 0 (omega (arith, h.sized)) in
    let others : tabulate m new ≡ tabulate m old = tabulate_cong m new old λ k lt.
      get_or-set_ne q.elems q.first (wrap n (0 + k)) x 0 (ground arith)
      ∙ ap (λ i. get_or q.elems i 0) (ground arith) in
    let window : tabulate (suc m) new ≡ ws ++ x ∷ [] =
      tabulate_snoc m new
      ∙ ap (λ y. tabulate m new ++ y ∷ []) last
      ∙ ap {A = List ℕ} (λ ys. ys ++ x ∷ []) (others ∙ h.window) in
    let start : (if q.first + 1 == n then 0 else q.last) ≡ 0 = ground arith in
    let one_more : m + 1 ≡ suc m = omega arith in
    rw not_full (record {
      sized = omega (arith, length-set q.elems q.first x, h.sized);
      in_ring = ground arith;
      window =
          ap (λ i. tabulate (m + 1) (λ k. get_or (set q.elems q.first x) (wrap n (i + k)) 0)) start
          ∙ ap (λ j. tabulate j new) one_more
          ∙ window;
      phase = elim (Bool-cases (q.first + 1 == n)) [
        | inl e ↦ rw e (inr (ground arith, refl))
        | inr e ↦ rw e (inl (ground arith, l, ground arith))
      ];
      summed = omega (arith, total-append ws x, h.summed);
    })

push_sliding :
    (q : Bqueue) (ws : List ℕ) (x p : ℕ)
    → Holds q ws
    → q.queuesize ≡ q.maxsize
    → q.last ≡ q.first
    → q.maxsize ≡ suc p
    → Holds (push q x) (rest ws ++ x ∷ [])
unfolding push
push_sliding q ws x p h full l size =
    let n = q.maxsize in
    let is_full : (q.queuesize == n) ≡ true = ground arith in
    let old : ℕ → ℕ = λ k. get_or q.elems (wrap n (q.last + k)) 0 in
    let after = if q.first + 1 == n then 0 else next n q.last in
    let new : ℕ → ℕ = λ k. get_or (set q.elems q.first x) (wrap n (after + k)) 0 in
    let was : old 0 ∷ tabulate p (λ k. old (suc k)) ≡ ws =
      ap (λ m. tabulate m old) (sym (full ∙ size)) ∙ h.window in
    let head : old 0 ≡ get_or q.elems q.last 0 = ap (λ i. get_or q.elems i 0) (ground arith) in
    let last : new p ≡ x =
      ap (λ i. get_or (set q.elems q.first x) i 0) (ground arith)
      ∙ get_or-set_same q.elems q.first x 0 (omega (arith, h.sized)) in
    let others : tabulate p new ≡ tabulate p (λ k. old (suc k)) =
      tabulate_cong p new (λ k. old (suc k))
        λ k lt.
          get_or-set_ne q.elems q.first (wrap n (after + k)) x 0 (ground arith)
          ∙ ap (λ i. get_or q.elems i 0) (ground arith) in
    let sum_was : old 0 + total (rest ws) ≡ total ws =
      subst (λ us. old 0 + total (rest us) ≡ total us) was refl in
    rw is_full (record {
      sized = omega (arith, length-set q.elems q.first x, h.sized);
      in_ring = ground arith;
      window =
          ap (λ j. tabulate j new) (full ∙ size)
          ∙ tabulate_snoc p new
          ∙ ap (λ y. tabulate p new ++ y ∷ []) last
          ∙ ap {A = List ℕ} (λ ys. ys ++ x ∷ []) (others ∙ ap rest was);
      phase = inr (full, ground arith);
      summed = omega (arith, total-append (rest ws) x, h.summed, sum_was, head);
    })

rest-from : (k : ℕ) (xs : List ℕ) → rest (from k xs) ≡ from (suc k) xs
unfolding from
rest-from zero [] = refl
rest-from zero (x ∷ xs) = refl
rest-from (suc k) [] = refl
rest-from (suc k) (x ∷ xs) = rest-from k xs

nil_from : (k : ℕ) → from {A = ℕ} k [] ≡ []
unfolding from
nil_from zero = refl
nil_from (suc k) = refl

from-append : (k : ℕ) (xs ys : List ℕ) → k ≤ length xs → from k (xs ++ ys) ≡ from k xs ++ ys
unfolding from
from-append zero xs ys h = refl
from-append (suc k) [] ys h = absurd (omega arith)
from-append (suc k) (x ∷ xs) ys h = from-append k xs ys (omega arith)

length-tabulate : (n : ℕ) (f : ℕ → ℕ) → length (tabulate n f) ≡ n
length-tabulate zero f = refl
length-tabulate (suc n) f = omega (arith, length-tabulate n (λ k. f (suc k)))

last_of-append :
    (n : ℕ) (xs : List ℕ) (x : ℕ)
    → 0 < n
    → last_of n (xs ++ x ∷ []) ≡ from (suc (length xs) - n) xs ++ x ∷ []
last_of-append n xs x h =
    let longer : length (xs ++ x ∷ []) - n ≡ suc (length xs) - n =
      omega (arith, length-append xs (x ∷ [])) in
    ap (λ k. from k (xs ++ x ∷ [])) longer
    ∙ from-append (suc (length xs) - n) xs (x ∷ []) (omega arith)

push-Holds :
    (q : Bqueue) (xs : List ℕ) (x : ℕ)
    → Holds q (last_of q.maxsize xs)
    → Holds (push q x) (last_of q.maxsize (xs ++ x ∷ []))
push-Holds q xs x h =
    let n = q.maxsize in
    let shown = last_of-append n xs x (omega (arith, h.in_ring)) in
    let size : q.queuesize ≡ length xs - (length xs - n) =
      sym (length-tabulate q.queuesize (λ k. get_or q.elems (wrap n (q.last + k)) 0))
      ∙ ap length h.window
      ∙ length-from (length xs - n) xs in
    elim h.phase [
      | inl (less, l, f) ↦
          let none_left : length xs - n ≡ suc (length xs) - n = omega arith in
          subst (Holds (push q x)) (ap {A = ℕ} (λ k. from k xs ++ x ∷ []) none_left ∙ sym shown)
            (push_filling q (last_of n xs) x h less l f)
      | inr (full, l) ↦
          let one_off : suc (length xs - n) ≡ suc (length xs) - n = omega arith in
          let size_n : n ≡ suc (n - 1) = omega (arith, h.in_ring) in
          subst (Holds (push q x))
            (ap {A = List ℕ} (λ ys. ys ++ x ∷ []) (rest-from (length xs - n) xs)
              ∙ ap {A = ℕ} (λ k. from k xs ++ x ∷ []) one_off
              ∙ sym shown)
            (push_sliding q (last_of n xs) x (n - 1) h full l size_n)
    ]

maxsize-push : (q : Bqueue) (x : ℕ) → (push q x).maxsize ≡ q.maxsize
unfolding push
maxsize-push q x = refl

empty_window : (n : ℕ) → last_of n [] ≡ []
empty_window n = nil_from (0 - n)

pushes-Holds :
    (q : Bqueue) (seen xs : List ℕ)
    → Holds q (last_of q.maxsize seen)
    → Holds (pushes q xs) (last_of q.maxsize (seen ++ xs))
unfolding pushes
pushes-Holds q seen [] h = rw (append-nil seen) h
pushes-Holds q seen (x ∷ xs) h =
    let step =
      subst (λ n. Holds (push q x) (last_of n (seen ++ x ∷ []))) (sym (maxsize-push q x))
        (push-Holds q seen x h) in
    let next = pushes-Holds (push q x) (seen ++ x ∷ []) xs step in
    subst (λ ys. Holds (pushes (push q x) xs) (last_of q.maxsize ys))
      (append_assoc seen (x ∷ []) xs)
      (subst (λ n. Holds (pushes (push q x) xs) (last_of n ((seen ++ x ∷ []) ++ xs)))
        (maxsize-push q x) next)

-- A queue grown to a size above 0 with the sum 0, and one that held numbers and is cleared, hold
-- after any numbers have been pushed the last of them, as many as the size allows, and the sum of
-- those.
pub bqueue_pushes_lem :
    (q r : Bqueue) (size : ℕ) (xs ws : List ℕ)
    → 0 < size
    → q.sumofqueue ≡ 0
    → Holds r ws
    → Holds (pushes (grow_to q size) xs) (last_of size xs)
      × Holds (pushes (fastclear r) xs) (last_of r.maxsize xs)
unfolding grow_to fastclear
bqueue_pushes_lem q r size xs ws h e held = (
  pushes-Holds (grow_to q size) [] xs (record {
    sized = omega (
      arith,
      length-append (replicate size 0) (from size q.elems),
      length-replicate {A = ℕ} size 0,
    );
    in_ring = h;
    window = sym (empty_window size);
    phase = inl (h, refl, refl);
    summed = e ∙ sym (ap total (empty_window size));
  }),
  pushes-Holds (fastclear r) [] xs (record {
    sized = held.sized;
    in_ring = omega (arith, held.in_ring);
    window = sym (empty_window r.maxsize);
    phase = inl (omega (arith, held.in_ring), refl, refl);
    summed = sym (ap total (empty_window r.maxsize));
  }),
)
