-- ===== src/Locks/Spinlock.antt =====
-- The spin lock excludes.
use ztool_lib.Common.{ℕ, ◌≤◌, ◌<◌, ◌≡◌, ◌≢◌, ◌⊎◌, inl, ◌↔◌, ap, refl, arith}
use native.Mathlib.Decide.{dec_lt}
use ztool_lib.Common.Threads.{moved, tally, tally-moved, tally-ge, tally-ge_two, tally-zero}
use ztool_lib.Locks.{
  SpinPc, spin_outside, spin_test, spin_cas, try_test, try_cas, spin_holding, spin_step, SpinSystem,
  call_spinlock, call_trylock, spin_moves, SpinReach, spin_here, spin_later,
}

abbrev pub holds : SpinPc → ℕ
holds spin_holding = 1
holds _ = 0

-- The word is 0 exactly while nobody holds the lock, and at most one thread holds it.
abbrev SpinInv : ℕ → ℕ → (ℕ → SpinPc) → Type 0
SpinInv n word threads =
    ((word ≡ 0) × (tally holds n threads ≡ 0)) ⊎ ((word ≢ 0) × (tally holds n threads ≡ 1))

module _ (value n word : ℕ) (threads : ℕ → SpinPc) (i : ℕ) (ne : value ≢ 0) (lt : i < n) where
  SpinInv-step :
      (p : SpinPc)
      → threads i ≡ p
      → SpinInv n word threads
      → SpinInv n (spin_step value word p).0 (moved threads i (spin_step value word p).1)
  unfolding spin_step
  SpinInv-step spin_outside e inv =
      ground (arith, tally-moved holds threads i spin_outside n lt, ap holds e)
  SpinInv-step spin_test e inv = ground (
    arith,
    tally-moved holds threads i spin_test n lt,
    tally-moved holds threads i spin_cas n lt,
    ap holds e,
  )
  SpinInv-step spin_cas e inv = ground (
    arith,
    tally-moved holds threads i spin_test n lt,
    tally-moved holds threads i spin_holding n lt,
    ap holds e,
  )
  SpinInv-step try_test e inv = ground (
    arith,
    tally-moved holds threads i spin_outside n lt,
    tally-moved holds threads i try_cas n lt,
    ap holds e,
  )
  SpinInv-step try_cas e inv = ground (
    arith,
    tally-moved holds threads i spin_outside n lt,
    tally-moved holds threads i spin_holding n lt,
    ap holds e,
  )
  SpinInv-step spin_holding e inv =
      ground (arith, tally-moved holds threads i spin_outside n lt, ap holds e)

  SpinInv-call :
      (p : SpinPc)
      → holds p ≡ 0
      → threads i ≡ spin_outside
      → SpinInv n word threads
      → SpinInv n word (moved threads i p)
  SpinInv-call p z e inv = ground (arith, tally-moved holds threads i p n lt, ap holds e)

module _ (value : ℕ → ℕ) (n : ℕ) (ne : (i : ℕ) → value i ≢ 0) where
  SpinReach-Inv : {s : SpinSystem} → SpinReach value n s → SpinInv n s.word s.threads
  SpinReach-Inv spin_here = inl (refl, tally-zero holds (λ i. spin_outside) (λ i. refl) n)
  SpinReach-Inv (spin_later {s = s} r (call_spinlock i lt e)) =
      SpinInv-call (value i) n s.word s.threads i (ne i) lt spin_test refl e (SpinReach-Inv r)
  SpinReach-Inv (spin_later {s = s} r (call_trylock i lt e)) =
      SpinInv-call (value i) n s.word s.threads i (ne i) lt try_test refl e (SpinReach-Inv r)
  SpinReach-Inv (spin_later {s = s} r (spin_moves i lt)) =
      SpinInv-step (value i) n s.word s.threads i (ne i) lt (s.threads i) refl (SpinReach-Inv r)

  holding_tally :
      (s : SpinSystem) (i : ℕ) → i < n → s.threads i ≡ spin_holding → 1 ≤ tally holds n s.threads
  holding_tally s i lt e = omega (arith, tally-ge holds s.threads n i lt, ap holds e)

  two_tally :
      (s : SpinSystem) (i j : ℕ)
      → i < n
      → j < i
      → s.threads i ≡ spin_holding
      → s.threads j ≡ spin_holding
      → 2 ≤ tally holds n s.threads
  two_tally s i j lt below e f =
      omega (arith, tally-ge_two holds s.threads n i j lt below, ap holds e, ap holds f)

  -- If every thread locks by a value that is not 0, then in every reachable state at most one
  -- thread holds the spin lock, and the word is 0 exactly when none does.
  pub spinlock_excludes :
      (s : SpinSystem)
      → SpinReach value n s
      → ((i j : ℕ)
          → i < n
          → j < n
          → s.threads i ≡ spin_holding
          → s.threads j ≡ spin_holding
          → i ≡ j)
        × ((s.word ≡ 0) ↔ (tally holds n s.threads ≡ 0))
  spinlock_excludes s r =
      let inv = SpinReach-Inv r in
      (
        λ i j p q e f. elim (dec_lt i j) [
          | yes below ↦ ground (arith, two_tally s j i q below f e)
          | no up ↦ elim (dec_lt j i) [
            | yes below ↦ ground (arith, two_tally s i j p below e f)
            | no down ↦ omega arith
          ]
        ],
        ((λ z. ground arith), λ z. ground arith),
      )
