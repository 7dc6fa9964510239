-- ===== src/Heap/Counting.antt =====
-- How often an element stands in the first `n` cells of the array of ztl_heap.c.
use ztool_lib.Common.{
  ℕ, zero, suc, ◌+◌, ◌<◌, ◌≤◌, ◌≡◌, refl, List, [], ◌∷◌, ◌++◌, length, length-set, get_or-set_self,
  get_or, set, ◌==◌, if◌then◌else◌, arith,
}

abbrev pub one : ℕ → ℕ → ℕ
one x e = if x == e then 1 else 0

unfoldable pub occurs : ℕ → ℕ → List ℕ → ℕ
occurs e zero xs = 0
occurs e (suc n) [] = 0
occurs e (suc n) (x ∷ xs) = one x e + occurs e n xs

pub occurs-set :
    (e n : ℕ) (xs : List ℕ) (i v : ℕ)
    → i < n
    → i < length xs
    → occurs e n (set xs i v) + one (get_or xs i 0) e ≡ occurs e n xs + one v e
unfolding occurs
occurs-set e zero xs i v h k = absurd (omega arith)
occurs-set e (suc n) [] i v h k = absurd (omega arith)
occurs-set e (suc n) (x ∷ xs) zero v h k = omega arith
occurs-set e (suc n) (x ∷ xs) (suc i) v h k =
    omega (arith, occurs-set e n xs i v (omega arith) (omega arith))

pub occurs-set_past :
    (e n : ℕ) (xs : List ℕ) (i v : ℕ) → n ≤ i → occurs e n (set xs i v) ≡ occurs e n xs
unfolding occurs
occurs-set_past e zero xs i v h = refl
occurs-set_past e (suc n) [] i v h = refl
occurs-set_past e (suc n) (x ∷ xs) zero v h = absurd (omega arith)
occurs-set_past e (suc n) (x ∷ xs) (suc i) v h =
    omega (arith, occurs-set_past e n xs i v (omega arith))

pub occurs-suc :
    (e n : ℕ) (xs : List ℕ)
    → n < length xs
    → occurs e (suc n) xs ≡ occurs e n xs + one (get_or xs n 0) e
unfolding occurs
occurs-suc e zero [] h = absurd (omega arith)
occurs-suc e zero (x ∷ xs) h = omega arith
occurs-suc e (suc n) [] h = absurd (omega arith)
occurs-suc e (suc n) (x ∷ xs) h = omega (arith, occurs-suc e n xs (omega arith))

-- What occurs stands somewhere, and the other way round.
pub occurs_at :
    (e n : ℕ) (xs : List ℕ) (i : ℕ) → i < n → i < length xs → get_or xs i 0 ≡ e → 0 < occurs e n xs
unfolding occurs
occurs_at e zero xs i h k q = absurd (omega arith)
occurs_at e (suc n) [] i h k q = absurd (omega arith)
occurs_at e (suc n) (x ∷ xs) zero h k q = ground arith
occurs_at e (suc n) (x ∷ xs) (suc i) h k q =
    omega (arith, occurs_at e n xs i (omega arith) (omega arith) q)

pub occurs-append :
    (e n : ℕ) (xs ys : List ℕ) → n ≤ length xs → occurs e n (xs ++ ys) ≡ occurs e n xs
unfolding occurs
occurs-append e zero xs ys h = refl
occurs-append e (suc n) [] ys h = absurd (omega arith)
occurs-append e (suc n) (x ∷ xs) ys h = omega (arith, occurs-append e n xs ys (omega arith))

-- One more cell, holding a new element.
pub occurs-append_new :
    (e n : ℕ) (xs : List ℕ) (v : ℕ)
    → n < length xs
    → occurs e (n + 1) (set xs n v) ≡ occurs e n xs + one v e
occurs-append_new e n xs v h =
    let one_more : n + 1 ≡ suc n = omega arith in
    let split = occurs-suc e n (set xs n v) (omega (arith, length-set xs n v)) in
    rw (one_more, split, occurs-set_past e n xs n v (omega arith), get_or-set_self xs n v 0 h)
