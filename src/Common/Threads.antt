-- ===== src/Common/Threads.antt =====
-- What the threads below a number hold, each counted by a weight, and the change of one thread.
use Prim.Native.Nat.{ℕ, zero, suc, ◌+◌, ◌≤◌, ◌<◌}
use mathlib.Core.Path.{◌≡◌, refl}
use native.Mathlib.Omega.{arith}
use native.Mathlib.Decide.{dec_lt}
use ztool_lib.Common.Tests.{◌==◌, if◌then◌else◌}

module _ {A : Type 0} where
  -- The threads after thread `i` has moved to `a`.
  abbrev pub moved : (ℕ → A) → ℕ → A → ℕ → A
  moved threads i a j = if j == i then a else threads j

  pub tally : (A → ℕ) → ℕ → (ℕ → A) → ℕ
  tally weight zero threads = 0
  tally weight (suc n) threads = weight (threads n) + tally weight n threads

  module _ (weight : A → ℕ) (threads : ℕ → A) (i : ℕ) (a : A) where
    tally-moved_past : (n : ℕ) → n ≤ i → tally weight n (moved threads i a) ≡ tally weight n threads
    unfolding tally
    tally-moved_past zero h = refl
    tally-moved_past (suc n) h = ground (arith, tally-moved_past n)

    -- Only the weight of the thread that moves changes.
    pub tally-moved :
        (n : ℕ)
        → i < n
        → tally weight n (moved threads i a) + weight (threads i)
          ≡ tally weight n threads + weight a
    unfolding tally
    tally-moved zero h = absurd (omega arith)
    tally-moved (suc n) h = elim (dec_lt i n) [
      | yes p ↦ ground (arith, tally-moved n p)
      | no p ↦ ground (arith, tally-moved_past n)
    ]

  module _ (weight : A → ℕ) (threads : ℕ → A) where
    -- A thread's weight is part of the tally.
    pub tally-ge : (n i : ℕ) → i < n → weight (threads i) ≤ tally weight n threads
    unfolding tally
    tally-ge zero i h = absurd (omega arith)
    tally-ge (suc n) i h = elim (dec_lt i n) [
      | yes p ↦ omega (arith, tally-ge n i p)
      | no p ↦ ground arith
    ]

    -- Two threads' weights are part of it.
    pub tally-ge_two :
        (n i j : ℕ)
        → i < n
        → j < i
        → weight (threads i) + weight (threads j) ≤ tally weight n threads
    unfolding tally
    tally-ge_two zero i j h k = absurd (omega arith)
    tally-ge_two (suc n) i j h k = elim (dec_lt i n) [
      | yes p ↦ omega (arith, tally-ge_two n i j p k)
      | no p ↦ ground (arith, tally-ge n j)
    ]

    pub tally-le : ((a : A) → weight a ≤ 1) → (n : ℕ) → tally weight n threads ≤ n
    unfolding tally
    tally-le small zero = omega arith
    tally-le small (suc n) = omega (arith, small (threads n), tally-le small n)

    pub tally-zero : ((i : ℕ) → weight (threads i) ≡ 0) → (n : ℕ) → tally weight n threads ≡ 0
    unfolding tally
    tally-zero none zero = refl
    tally-zero none (suc n) = omega (arith, none n, tally-zero none n)
