-- ===== src/Locks.antt =====
-- src/ZToolLib/ztl_locks.c and ztl_locks.h: locks on one shared word, for `n` threads that interleave
-- at the accesses to it. The pauses between two tries and the yields touch no memory, so a failed try
-- goes back to the first read, after however many rounds of the inner loop.
pub mod Rwlock
pub mod Spinlock
mod Tests
use ztool_lib.Common.{ℕ, ◌+◌, ◌-◌, ◌%◌, ◌^◌, ◌<◌, ◌≡◌, Bool, true, false, ◌==◌, if◌then◌else◌}
use ztool_lib.Common.Threads.{moved}

-- ZTL_RWLOCK_WLOCK
abbrev pub wlock : ℕ
wlock = 4294967295

-- Where a thread stands with respect to the read-write lock.
pub data RwPc : Type 0 where
  outside : RwPc
  -- ztl_rwlock_wlock: before the read, and before the compare-and-swap
  wlock_test : RwPc
  wlock_cas : RwPc
  -- ztl_rwlock_rlock, with the local `readers`
  rlock_load : RwPc
  rlock_cas : (readers : ℕ) → RwPc
  -- between a lock call and ztl_rwlock_unlock
  writing : RwPc
  reading : RwPc
  -- ztl_rwlock_unlock, by a thread that has locked for writing or for reading: before the read of
  -- the word, before the store of 0, and before the compare-and-swap
  unlock_load : (writer : Bool) → RwPc
  unlock_store : (writer : Bool) → RwPc
  unlock_cas : (writer : Bool) (readers : ℕ) → RwPc

-- One access, or the call that makes the next one possible.
pub rw_step : ℕ → RwPc → ℕ × RwPc
rw_step word outside = (word, outside)
rw_step word wlock_test = (word, if word == 0 then wlock_cas else wlock_test)
rw_step word wlock_cas = if word == 0 then (wlock, writing) else (word, wlock_test)
rw_step word rlock_load = (word, if word == wlock then rlock_load else rlock_cas word)
rw_step word (rlock_cas r) = if word == r then ((r + 1) % 2 ^ 32, reading) else (word, rlock_load)
rw_step word writing = (word, unlock_load true)
rw_step word reading = (word, unlock_load false)
rw_step word (unlock_load k) = (word, if word == wlock then unlock_store k else unlock_cas k word)
rw_step word (unlock_store k) = (0, outside)
rw_step word (unlock_cas k r) =
    if word == r then ((r + 2 ^ 32 - 1) % 2 ^ 32, outside) else (word, unlock_cas k word)

pub record RwSystem : Type 0 where
  pub word : ℕ
  pub threads : ℕ → RwPc

-- A thread outside starts a lock call of either kind; any other makes its next access.
pub data RwStep (n : ℕ) (s : RwSystem) : RwSystem → Type 0 where
  call_wlock :
      (i : ℕ)
      → i < n
      → s.threads i ≡ outside
      → RwStep n s (record s { threads = moved s.threads i wlock_test })
  call_rlock :
      (i : ℕ)
      → i < n
      → s.threads i ≡ outside
      → RwStep n s (record s { threads = moved s.threads i rlock_load })
  rw_moves :
      (i : ℕ)
      → i < n
      → RwStep n s (record {
        word = (rw_step s.word (s.threads i)).0;
        threads = moved s.threads i (rw_step s.word (s.threads i)).1;
      })

abbrev pub rw_start : RwSystem
rw_start = record { word = 0; threads = λ i. outside }

pub data RwReach (n : ℕ) : RwSystem → Type 0 where
  rw_here : RwReach n rw_start
  rw_later : {s t : RwSystem} → RwReach n s → RwStep n s t → RwReach n t

-- Where a thread stands with respect to a spin lock that it locks by its own value.
pub data SpinPc : Type 0 where
  spin_outside : SpinPc
  -- ztl_spinlock: before the read, and before the compare-and-swap
  spin_test : SpinPc
  spin_cas : SpinPc
  -- ztl_trylock, which gives up where ztl_spinlock tries again
  try_test : SpinPc
  try_cas : SpinPc
  -- between the lock call and ztl_unlock
  spin_holding : SpinPc

pub spin_step : ℕ → ℕ → SpinPc → ℕ × SpinPc
spin_step value word spin_outside = (word, spin_outside)
spin_step value word spin_test = (word, if word == 0 then spin_cas else spin_test)
spin_step value word spin_cas = if word == 0 then (value, spin_holding) else (word, spin_test)
spin_step value word try_test = (word, if word == 0 then try_cas else spin_outside)
spin_step value word try_cas = if word == 0 then (value, spin_holding) else (word, spin_outside)
spin_step value word spin_holding = (0, spin_outside)

pub record SpinSystem : Type 0 where
  pub word : ℕ
  pub threads : ℕ → SpinPc

-- `value` gives the value that each thread passes as `value`.
pub data SpinStep (value : ℕ → ℕ) (n : ℕ) (s : SpinSystem) : SpinSystem → Type 0 where
  call_spinlock :
      (i : ℕ)
      → i < n
      → s.threads i ≡ spin_outside
      → SpinStep value n s (record s { threads = moved s.threads i spin_test })
  call_trylock :
      (i : ℕ)
      → i < n
      → s.threads i ≡ spin_outside
      → SpinStep value n s (record s { threads = moved s.threads i try_test })
  spin_moves :
      (i : ℕ)
      → i < n
      → SpinStep value n s (record {
        word = (spin_step (value i) s.word (s.threads i)).0;
        threads = moved s.threads i (spin_step (value i) s.word (s.threads i)).1;
      })

abbrev pub spin_start : SpinSystem
spin_start = record { word = 0; threads = λ i. spin_outside }

pub data SpinReach (value : ℕ → ℕ) (n : ℕ) : SpinSystem → Type 0 where
  spin_here : SpinReach value n spin_start
  spin_later : {s t : SpinSystem} → SpinReach value n s → SpinStep value n s t → SpinReach value n t
