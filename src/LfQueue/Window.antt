-- ===== src/LfQueue/Window.antt =====
-- The elements between the read index and the maximum read index, oldest first.
use ztool_lib.Common.{
  ℕ, zero, suc, ◌+◌, ◌-◌, ◌^◌, ◌≡◌, ◌≢◌, ◌<◌, refl, ap, ◌∙◌, List, [], ◌∷◌, ◌++◌, Option, none,
  some, length, get_elem?, set, get_elem?-set_ne, get_elem?_inside, ltb, leb, if◌then◌else◌, arith,
}
use ztool_lib.LfQueue.{Lfqueue, next_index}

abbrev pub push_some : {A : Type 0} → Option A → List A → List A
push_some none xs = xs
push_some (some x) xs = x ∷ xs

-- The number of committed elements.
abbrev pub used : ℕ → ℕ → ℕ → ℕ
used read max size = if leb read max then max - read else max + size - read

-- The index `n` places after `h`.
abbrev pub place : ℕ → ℕ → ℕ → ℕ
place h n size = if ltb (h + n) size then h + n else h + n - size

pub next_index_lem :
    (i size : ℕ)
    → i < size
    → size < 2 ^ 32
    → next_index i size ≡ (if ltb (i + 1) size then i + 1 else 0)
unfolding next_index
next_index_lem i size h k = ground arith

pub next_index-lt : (i size : ℕ) → i < size → size < 2 ^ 32 → next_index i size < size
next_index-lt i size h k = ground (arith, next_index_lem i size)

pub place-used : (r m size : ℕ) → r < size → m < size → place r (used r m size) size ≡ m
place-used r m size h k = ground arith

pub used-lt : (r m size : ℕ) → r < size → m < size → used r m size < size
used-lt r m size h k = ground arith

module _ (r m size : ℕ) (hr : r < size) (hm : m < size) (hs : size < 2 ^ 32) where
  pub next_index-eq_iff_full :
      ((next_index m size ≡ r) → used r m size + 1 ≡ size)
      × ((used r m size + 1 ≡ size) → next_index m size ≡ r)
  next_index-eq_iff_full =
      (λ e. ground (arith, next_index_lem m size), λ e. ground (arith, next_index_lem m size))

  pub used-commit : used r m size + 1 < size → used r (next_index m size) size ≡ used r m size + 1
  used-commit h = ground (arith, next_index_lem m size)

  pub used-take : r ≢ m → used (next_index r size) m size + 1 ≡ used r m size
  used-take h = ground (arith, next_index_lem r size)

pub place-next :
    (h n size : ℕ)
    → h < size
    → suc n < size
    → size < 2 ^ 32
    → place h (suc n) size ≡ place (next_index h size) n size
place-next h n size p q s = ground (arith, next_index_lem h size)

module _ {A : Type 0} where
  abbrev pub window : List A → ℕ → ℕ → ℕ → List A
  window buf size h zero = []
  window buf size h (suc n) = push_some (get_elem? buf h) (window buf size (next_index h size) n)

  abbrev pub contents : Lfqueue A → List A
  contents q = window q.arrdata q.size q.read_index (used q.read_index q.max_read_index q.size)

  module _ (size : ℕ) (hs : size < 2 ^ 32) where
    pub length-window :
        (buf : List A) (h n : ℕ) → length buf ≡ size → h < size → length (window buf size h n) ≡ n
    length-window buf h zero e p = refl
    length-window buf h (suc n) e p =
        let (v, found) = get_elem?_inside buf h (omega arith) in
        ground (arith, length-window buf (next_index h size) n e (next_index-lt h size p hs))

    -- The window that starts at a given element.
    pub window_front :
        (buf : List A) (h n : ℕ) (v : A)
        → get_elem? buf h ≡ some v
        → 0 < n
        → window buf size h n ≡ v ∷ window buf size (next_index h size) (n - 1)
    window_front buf h zero v e p = absurd (omega arith)
    window_front buf h (suc n) v e p =
        ap (λ k. push_some (get_elem? buf h) (window buf size (next_index h size) k)) (omega arith)
        ∙ ap (λ o. push_some o (window buf size (next_index h size) (suc n - 1))) e

    -- A write to the slot just past the window leaves the window alone.
    pub window-set_past :
        (buf : List A) (h n i : ℕ) (x : A)
        → h < size
        → n < size
        → i ≡ place h n size
        → window (set buf i x) size h n ≡ window buf size h n
    window-set_past buf h zero i x p q e = refl
    window-set_past buf h (suc n) i x p q e = rw (
      get_elem?-set_ne buf i h x (ground arith),
      window-set_past buf (next_index h size) n i x (next_index-lt h size p hs) (omega arith)
          (e ∙ place-next h n size p q hs),
    )

    -- One more slot adds the element that it holds.
    pub window_snoc :
        (buf : List A) (h n i : ℕ) (x : A)
        → h < size
        → n < size
        → i ≡ place h n size
        → get_elem? buf i ≡ some x
        → window buf size h (suc n) ≡ window buf size h n ++ x ∷ []
    window_snoc buf h zero i x p q e f = let here : h ≡ i = ground arith in rw (here, f)
    window_snoc buf h (suc n) i x p q e f =
        let rest =
          window_snoc buf (next_index h size) n i x (next_index-lt h size p hs) (omega arith)
            (e ∙ place-next h n size p q hs) f in
        push_some_snoc (get_elem? buf h) _ _ rest
      where
        push_some_snoc :
            (o : Option A) (xs ys : List A)
            → xs ≡ ys ++ x ∷ []
            → push_some o xs ≡ push_some o ys ++ x ∷ []
        push_some_snoc none xs ys r = r
        push_some_snoc (some v) xs ys r = ap (◌∷◌ v) r
