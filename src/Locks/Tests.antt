-- ===== src/Locks/Tests.antt =====
-- Reachable states of both locks, and the theorems at them.
use ztool_lib.Common.{ℕ, ◌+◌, ◌<◌, ◌≡◌, ◌⊎◌, ◌↔◌, refl, arith}
use ztool_lib.Common.Threads.{tally}
use ztool_lib.Locks.{
  RwSystem, RwReach, rw_here, rw_later, call_wlock, call_rlock, rw_moves, rw_step, reading,
  SpinSystem, SpinReach, spin_here, spin_later, call_spinlock, call_trylock, spin_moves, spin_step,
  spin_holding,
}
use ztool_lib.Locks.Spinlock.{holds, spinlock_excludes}
use ztool_lib.Locks.Rwlock.{writes, reads, rwlock_excludes}

abbrev own : ℕ → ℕ
own i = i + 7

-- Thread 0 holds the lock by the value 7, thread 1 has tried and given up.
abbrev taken : (s : SpinSystem) × SpinReach own 2 s × (s.word ≡ 7) × (s.threads 0 ≡ spin_holding)
unfolding spin_step
taken =
    let one : 0 < 2 = omega arith in
    let two : 1 < 2 = omega arith in
    (
      _,
      spin_later
          (spin_later
            (spin_later
              (spin_later (spin_later spin_here (call_spinlock 0 one refl)) (spin_moves 0 one))
              (spin_moves 0 one))
            (call_trylock 1 two refl))
          (spin_moves 1 two),
      refl,
      refl,
    )

spinlock_excludes_example :
    ((i j : ℕ)
      → i < 2
      → j < 2
      → taken.0.threads i ≡ spin_holding
      → taken.0.threads j ≡ spin_holding
      → i ≡ j)
    × ((taken.0.word ≡ 0) ↔ (tally holds 2 taken.0.threads ≡ 0))
spinlock_excludes_example = spinlock_excludes own 2 (λ i. omega arith) taken.0 taken.1

-- Thread 0 reads, thread 1 waits to write.
abbrev shared : (s : RwSystem) × RwReach 2 s × (s.word ≡ 1) × (s.threads 0 ≡ reading)
unfolding rw_step
shared =
    let one : 0 < 2 = omega arith in
    let two : 1 < 2 = omega arith in
    (
      _,
      rw_later
          (rw_later
            (rw_later (rw_later (rw_later rw_here (call_rlock 0 one refl)) (rw_moves 0 one))
              (call_wlock 1 two refl))
            (rw_moves 0 one))
          (rw_moves 1 two),
      refl,
      refl,
    )

rwlock_excludes_example :
    ((i j : ℕ)
      → i < 2
      → j < 2
      → writes (shared.0.threads i) ≡ 1
      → (writes (shared.0.threads j) ≡ 1) ⊎ (reads (shared.0.threads j) ≡ 1)
      → i ≡ j)
    × (tally writes 2 shared.0.threads ≡ 0 → shared.0.word ≡ tally reads 2 shared.0.threads)
rwlock_excludes_example = rwlock_excludes 2 (omega arith) shared.0 shared.1
