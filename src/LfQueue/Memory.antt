-- ===== src/LfQueue/Memory.antt =====
-- lfqueue_memory_size leaves room for the words and the array.
use ztool_lib.Common.{ℕ, ◌+◌, ◌-◌, ◌*◌, ◌/◌, ◌%◌, ◌^◌, ◌≤◌, ◌<◌, ◌≡◌, arith}
use native.Mathlib.Nat.{mod-eq_of_lt}
use ztool_lib.LfQueue.{memory_size}

mul-le_left : (q a b : ℕ) → a ≤ b → q * a ≤ q * b
mul-le_left q a b h = grind arith

aligned_product :
    (q e a : ℕ)
    → e ≤ a
    → a ≤ e + 3
    → q * (e + 3) < 2 ^ 32
    → 0 < q
    → (a < 2 ^ 32) × (q * e ≤ q * a) × (q * a < 2 ^ 32)
aligned_product q e a low high fits pos =
    let grown : q * a ≤ q * (e + 3) = mul-le_left q a (e + 3) high in
    (omega (arith, mul-le_left 1 a (q * a) (grind arith)), mul-le_left q e a low, omega arith)

-- If the array, with its elements aligned to four bytes, takes less than 2^32 bytes, the size holds
-- the four words and `quesize` elements, and is a multiple of 64.
pub memory_size-holds :
    (quesize elemsize : ℕ)
    → quesize * (elemsize + 3) < 2 ^ 32
    → 0 < quesize
    → (16 + quesize * elemsize ≤ memory_size quesize elemsize)
      × (memory_size quesize elemsize % 64 ≡ 0)
unfolding memory_size
memory_size-holds quesize elemsize fits pos =
    let a = (elemsize + (4 - 1)) / 4 * 4 in
    let (narrow, low, whole) =
      aligned_product quesize elemsize a (omega arith) (omega arith) fits pos in
    rw (mod-eq_of_lt narrow, mod-eq_of_lt whole) (omega arith)
