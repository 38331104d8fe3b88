-- ===== src/Container/Queue/Fifo.antt =====
-- The queue is a list that is written at its end and read at its front.
use glucose.Prelude.{
  ℕ, suc, ◌+◌, ◌-◌, ◌*◌, ◌/◌, ◌≤◌, ◌<◌, ◌≡◌, refl, sym, ap, ◌∙◌, ◌≢◌, inl, inr, List, [], ◌∷◌, ◌++◌,
  arith, ltb, leb, ◌==◌, if◌then◌else◌, eq_of_==, Bool-cases,
}
use glucose.Prelude.Lists.{length, get_or, set, replicate, length-append, length-set}
use glucose.Container.Queue.{Queue, size, peek, next, pop, from, before, resize, insert}
use glucose.Container.Queue.Items.{
  tabulate, tabulate_cong, tabulate_snoc, get_or-set_same, get_or-set_ne, get_or-append_left,
  get_or-append_right, length-from, length-before, length-replicate, get_or-from, get_or-before,
}

-- The place that is `i`, in a ring of `n` cells.
abbrev pub wrap : ℕ → ℕ → ℕ
wrap n i = if ltb i n then i else i - n

abbrev ring_size : ℕ → ℕ → ℕ → ℕ
ring_size n f e = if leb f e then e - f else e + n - f

size_grown :
    (n f e : ℕ) → f < n → e < n → f ≢ next n e → ring_size n f (next n e) ≡ suc (ring_size n f e)
size_grown n f e h k ne = ground arith

size_full : (n f e : ℕ) → f < n → e < n → f ≡ next n e → suc (ring_size n f e) ≡ n
size_full n f e h k full = ground arith

wrap_end : (n f e : ℕ) → f < n → e < n → wrap n (f + ring_size n f e) ≡ e
wrap_end n f e h k = ground arith

wrap_inside : (n f e k : ℕ) → f < n → e < n → k < ring_size n f e → e ≢ wrap n (f + k)
wrap_inside n f e k h h' lt = ground arith

wrap-next : (n f k : ℕ) → f < n → k + 1 < n → wrap n (f + suc k) ≡ wrap n (next n f + k)
wrap-next n f k h lt = ground arith

size_shrunk : (n f e : ℕ) → f < n → e < n → f ≢ e → ring_size n f e ≡ suc (ring_size n (next n f) e)
size_shrunk n f e h k ne = ground arith

pub size_small : (n f e : ℕ) → f < n → e < n → ring_size n f e < n
size_small n f e h k = ground arith

module _ {ℓ} {A : Type ℓ} where
  abbrev pub IsQueue : Queue A → Type 0
  IsQueue q = (q.first < length q.buf) × (q.end < length q.buf)

  -- The elements, from the first.
  abbrev pub items : A → Queue A → List A
  items d q = tabulate (size q) (λ k. get_or q.buf (wrap (length q.buf) (q.first + k)) d)

  wrap_resized :
      (d : A) (b : List A) (f e k : ℕ)
      → f < length b
      → e ≡ f
      → k < length b
      → (pad : List A)
      → get_or (from f b ++ (before e b ++ pad)) k d ≡ get_or b (wrap (length b) (f + k)) d
  wrap_resized d b f e k h same lt pad = elim (Bool-cases (ltb (f + k) (length b))) [
    | inl inside ↦
        let short : k < length b - f = ground arith in
        rw inside (
          get_or-append_left (from f b) (before e b ++ pad) k d (omega (arith, length-from f b))
          ∙ get_or-from f k (f + k) b d refl)
    | inr over ↦
        let long : length b ≤ f + k = ground arith in
        let i = f + k - length b in
        rw over (
          get_or-append_right (from f b) (before e b ++ pad) k i d (omega (arith, length-from f b))
          ∙ get_or-append_left (before e b) pad i d (omega (arith, length-before e b (omega arith)))
          ∙ get_or-before e i b d (omega arith))
  ]

  abbrev written : Queue A → A → Queue A
  written q x = record q { buf = set q.buf q.end x; end = next (length q.buf) q.end }

  -- The new element is at the end of the ring, and the others where they were.
  written_items :
      (d : A) (q : Queue A) (x : A)
      → IsQueue q
      → tabulate
          (suc (size q))
          (λ k. get_or (set q.buf q.end x) (wrap (length q.buf) (q.first + k)) d)
        ≡ items d q ++ x ∷ []
  unfolding size
  written_items d q x h =
      let n = length q.buf in
      let m = ring_size n q.first q.end in
      let f' : ℕ → A = λ k. get_or (set q.buf q.end x) (wrap n (q.first + k)) d in
      let last : f' m ≡ x =
        ap (λ i. get_or (set q.buf q.end x) i d) (wrap_end n q.first q.end h.0 h.1)
        ∙ get_or-set_same q.buf q.end x d h.1 in
      tabulate_snoc m f'
      ∙ ap {A = A} (λ y. tabulate m f' ++ y ∷ []) last
      ∙ ap {A = List A} (λ ys. ys ++ x ∷ [])
          (tabulate_cong m f' (λ k. get_or q.buf (wrap n (q.first + k)) d)
            λ k lt.
              get_or-set_ne q.buf q.end (wrap n (q.first + k)) x d
                (wrap_inside n q.first q.end k h.0 h.1 lt))

  room :
      (d : A) (q : Queue A) (x : A)
      → IsQueue q
      → q.first ≢ next (length q.buf) q.end
      → IsQueue (written q x) × (items d (written q x) ≡ items d q ++ x ∷ [])
  unfolding size
  room d q x h ne =
      let same = length-set q.buf q.end x in
      let grown = size_grown (length q.buf) q.first q.end h.0 h.1 ne in
      ((omega (arith, same, h.0), rw same (ground arith)), rw (same, grown) (written_items d q x h))

  length-resize :
      (d : A) (r : Queue A)
      → r.first < length r.buf
      → r.end ≡ r.first
      → length (resize d r).buf ≡ (length r.buf * 3 + 1) / 2
  unfolding resize
  length-resize d r h e =
      let n = length r.buf in
      let pad = replicate ((n * 3 + 1) / 2 - (n - r.first) - r.end) d in
      let whole = length-append (from r.first r.buf) (before r.end r.buf ++ pad) in
      let back = length-append (before r.end r.buf) pad in
      omega (
        arith,
        whole,
        back,
        length-from r.first r.buf,
        length-before r.end r.buf (omega arith),
        length-replicate ((n * 3 + 1) / 2 - (n - r.first) - r.end) d,
      )

  resize-items :
      (d : A) (r : Queue A)
      → r.first < length r.buf
      → r.end ≡ r.first
      → IsQueue (resize d r)
        × (items d (resize d r)
            ≡ tabulate (length r.buf) (λ k. get_or r.buf (wrap (length r.buf) (r.first + k)) d))
  unfolding resize size
  resize-items d r h e =
      let n = length r.buf in
      let n' = length (resize d r).buf in
      let grown = length-resize d r h e in
      let pad = replicate ((n * 3 + 1) / 2 - (n - r.first) - r.end) d in
      let full : ring_size n' 0 n ≡ n = ground arith in
      let at_k : (k : ℕ) → k < n → wrap n' (0 + k) ≡ k = λ k lt. ground arith in
      (
        (omega (arith, grown), omega (arith, grown)),
        ap (λ m. tabulate m (λ k. get_or (resize d r).buf (wrap n' (0 + k)) d)) full
            ∙ tabulate_cong n (λ k. get_or (resize d r).buf (wrap n' (0 + k)) d)
                (λ k. get_or r.buf (wrap n (r.first + k)) d)
                λ k lt.
                  ap (λ i. get_or (resize d r).buf i d) (at_k k lt)
                  ∙ wrap_resized d r.buf r.first r.end k h e lt pad,
      )

  -- `insert` puts the element behind the others, whether the buffer has to grow or not, and the queue
  -- stays one whose two places are in the buffer.
  pub queue_insert_lem :
      (d : A) (q : Queue A) (x : A)
      → IsQueue q
      → IsQueue (insert d q x) × (items d (insert d q x) ≡ items d q ++ x ∷ [])
  unfolding insert size
  queue_insert_lem d q x h =
      let n = length q.buf in
      let same = length-set q.buf q.end x in
      elim (Bool-cases (q.first == next n q.end)) [
        | inr apart ↦ let ne : q.first ≢ next n q.end = ground arith in rw apart (room d q x h ne)
        | inl full ↦
            let e = eq_of_== q.first (next n q.end) full in
            let (is, all) = resize-items d (written q x) (omega (arith, same, h.0)) (sym e) in
            let b = set q.buf q.end x in
            rw full (
              is,
              all
                  ∙ ap (λ m. tabulate m (λ k. get_or b (wrap m (q.first + k)) d)) same
                  ∙ ap (λ m. tabulate m (λ k. get_or b (wrap n (q.first + k)) d))
                      (sym (size_full n q.first q.end h.0 h.1 e))
                  ∙ written_items d q x h,
            )
      ]

  -- In a queue that is not empty, `peek` gives the first element, `pop` takes it off, and the queue
  -- stays one whose two places are in the buffer.
  pub queue_pop_lem :
      (d : A) (q : Queue A)
      → IsQueue q
      → q.first ≢ q.end
      → IsQueue (pop q) × (items d q ≡ peek d q ∷ items d (pop q))
  unfolding pop peek size
  queue_pop_lem d q h ne =
      let n = length q.buf in
      let m = ring_size n (next n q.first) q.end in
      let shrunk = size_shrunk n q.first q.end h.0 h.1 ne in
      let small = size_small n q.first q.end h.0 h.1 in
      let here : wrap n (q.first + 0) ≡ q.first = ground arith in
      (
        (ground arith, h.1),
        rw shrunk (
            rw here (
              ap (◌∷◌ (get_or q.buf q.first d)) (
                tabulate_cong m (λ k. get_or q.buf (wrap n (q.first + suc k)) d)
                  (λ k. get_or q.buf (wrap n (next n q.first + k)) d)
                  λ k lt.
                    ap (λ i. get_or q.buf i d)
                      (wrap-next n q.first k h.0 (omega (arith, shrunk, small)))))),
      )
