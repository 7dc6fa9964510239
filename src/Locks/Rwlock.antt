-- ===== src/Locks/Rwlock.antt =====
-- The read-write lock: one writer or any number of readers.
use ztool_lib.Common.{
  ℕ, ◌+◌, ◌≤◌, ◌<◌, ◌≡◌, ◌≢◌, ◌⊎◌, inr, ap, refl, true, false, arith, eq→==, ne→==,
}
use native.Mathlib.Decide.{ℕ_discrete, dec_lt}
use ztool_lib.Common.Threads.{
  moved, tally, tally-moved, tally-ge, tally-ge_two, tally-le, tally-zero,
}
use ztool_lib.Locks.{
  wlock, RwPc, outside, wlock_test, wlock_cas, rlock_load, rlock_cas, writing, reading, unlock_load,
  unlock_store, unlock_cas, rw_step, RwSystem, call_wlock, call_rlock, rw_moves, RwReach, rw_here,
  rw_later,
}

abbrev pub writes : RwPc → ℕ
writes writing = 1
writes (unlock_load true) = 1
writes (unlock_store true) = 1
writes (unlock_cas true r) = 1
writes _ = 0

abbrev pub reads : RwPc → ℕ
reads reading = 1
reads (unlock_load false) = 1
reads (unlock_store false) = 1
reads (unlock_cas false r) = 1
reads _ = 0

-- What a thread's locals say.
abbrev View : RwPc → Type 0
View (rlock_cas r) = r ≢ wlock
View (unlock_store k) = k ≡ true
View (unlock_cas k r) = k ≡ false
View _ = Unit

reads-le : (p : RwPc) → reads p ≤ 1
reads-le reading = omega arith
reads-le (unlock_load true) = omega arith
reads-le (unlock_load false) = omega arith
reads-le (unlock_store true) = omega arith
reads-le (unlock_store false) = omega arith
reads-le (unlock_cas true r) = omega arith
reads-le (unlock_cas false r) = omega arith
reads-le _ = omega arith

-- The word is the mark of the writer, or the number of readers.
abbrev Word : ℕ → ℕ → (ℕ → RwPc) → Type 0
Word n word threads =
    ((word ≡ wlock) × (tally writes n threads ≡ 1) × (tally reads n threads ≡ 0))
    ⊎ ((word ≡ tally reads n threads) × (tally writes n threads ≡ 0))

module _ (n word : ℕ) (threads : ℕ → RwPc) (i : ℕ) (few : n < wlock) (lt : i < n) where
  -- What one thread's move does to the two tallies.
  abbrev Tallied : RwPc → RwPc → Type 0
  Tallied p p' =
      (tally writes n (moved threads i p') + writes p ≡ tally writes n threads + writes p')
      × (tally reads n (moved threads i p') + reads p ≡ tally reads n threads + reads p')
      × (writes p ≤ tally writes n threads)
      × (reads p ≤ tally reads n threads)
      × (tally reads n (moved threads i p') ≤ n)

  tallied : (p p' : RwPc) → threads i ≡ p → Tallied p p'
  tallied p p' e = (
    omega (arith, tally-moved writes threads i p' n lt, ap writes e),
    omega (arith, tally-moved reads threads i p' n lt, ap reads e),
    omega (arith, tally-ge writes threads n i lt, ap writes e),
    omega (arith, tally-ge reads threads n i lt, ap reads e),
    tally-le reads (moved threads i p') reads-le n,
  )

  -- The new word and the thread's new view.
  abbrev Good : ℕ × RwPc → Type 0
  Good r = Word n r.0 (moved threads i r.1) × View r.1

  Word-step : (p : RwPc) → threads i ≡ p → View p → Word n word threads → Good (rw_step word p)
  unfolding rw_step
  Word-step outside e v w = ground (arith, tallied outside outside e)
  Word-step wlock_test e v w =
      ground (arith, tallied wlock_test wlock_test e, tallied wlock_test wlock_cas e)
  Word-step wlock_cas e v w =
      ground (arith, tallied wlock_cas wlock_test e, tallied wlock_cas writing e)
  Word-step rlock_load e v w =
      ground (arith, tallied rlock_load rlock_load e, tallied rlock_load (rlock_cas word) e)
  Word-step (rlock_cas r) e v w =
      ground (arith, tallied (rlock_cas r) rlock_load e, tallied (rlock_cas r) reading e)
  Word-step writing e v w = ground (arith, tallied writing (unlock_load true) e)
  Word-step reading e v w = ground (arith, tallied reading (unlock_load false) e)
  Word-step (unlock_load true) e v w =
      ground (arith, tallied (unlock_load true) (unlock_store true) e)
  Word-step (unlock_load false) e v w =
      ground (arith, tallied (unlock_load false) (unlock_cas false word) e)
  Word-step (unlock_store true) e v w = ground (arith, tallied (unlock_store true) outside e)
  Word-step (unlock_store false) e v w = cc
  Word-step (unlock_cas true r) e v w = cc
  Word-step (unlock_cas false r) e v w = ground (
    arith,
    tallied (unlock_cas false r) outside e,
    tallied (unlock_cas false r) (unlock_cas false word) e,
  )

-- Every thread's view holds too.
record RwInv (n : ℕ) (s : RwSystem) : Type 0 where
  word_right : Word n s.word s.threads
  views : (i : ℕ) → View (s.threads i)

moved-View :
    (threads : ℕ → RwPc) (i : ℕ) (p : RwPc)
    → View p
    → ((j : ℕ) → View (threads j))
    → (j : ℕ) → View (moved threads i p j)
moved-View threads i p v all j = elim (ℕ_discrete j i) [
  | yes e ↦ rw (eq→== j i e) v
  | no ne ↦ rw (ne→== j i ne) (all j)
]

module _ (n : ℕ) (few : n < wlock) where
  RwReach-Inv : {s : RwSystem} → RwReach n s → RwInv n s
  RwReach-Inv rw_here = record {
    word_right = inr (
      ground (arith, tally-zero reads (λ i. outside) (λ i. refl) n),
      tally-zero writes (λ i. outside) (λ i. refl) n,
    );
    views = λ i. tt;
  }
  RwReach-Inv (rw_later {s = s} r (call_wlock i lt e)) =
      let inv = RwReach-Inv r in
      record {
        word_right =
            ground
              (arith, inv.word_right, tallied n s.word s.threads i few lt outside wlock_test e);
        views = moved-View s.threads i wlock_test tt inv.views;
      }
  RwReach-Inv (rw_later {s = s} r (call_rlock i lt e)) =
      let inv = RwReach-Inv r in
      record {
        word_right =
            ground
              (arith, inv.word_right, tallied n s.word s.threads i few lt outside rlock_load e);
        views = moved-View s.threads i rlock_load tt inv.views;
      }
  RwReach-Inv (rw_later {s = s} r (rw_moves i lt)) =
      let inv = RwReach-Inv r in
      let (right, view) =
        Word-step n s.word s.threads i few lt (s.threads i) refl (inv.views i) inv.word_right in
      record { word_right = right; views = moved-View s.threads i _ view inv.views }

  -- With fewer than 2^32 - 1 threads, in every reachable state a thread that has the lock for writing
  -- excludes all others, and while no thread writes the word is the number of those that have it for
  -- reading.
  pub rwlock_excludes :
      (s : RwSystem)
      → RwReach n s
      → ((i j : ℕ)
          → i < n
          → j < n
          → writes (s.threads i) ≡ 1
          → (writes (s.threads j) ≡ 1) ⊎ (reads (s.threads j) ≡ 1)
          → i ≡ j)
        × (tally writes n s.threads ≡ 0 → s.word ≡ tally reads n s.threads)
  rwlock_excludes s r =
      let right = (RwReach-Inv r).word_right in
      (
        λ i j p q w other. elim (dec_lt i j) [
          | yes below ↦ ground (
            arith,
            right,
            tally-ge writes s.threads n i p,
            tally-ge reads s.threads n j q,
            tally-ge_two writes s.threads n j i q below,
          )
          | no up ↦ elim (dec_lt j i) [
            | yes below ↦ ground (
              arith,
              right,
              tally-ge writes s.threads n i p,
              tally-ge reads s.threads n j q,
              tally-ge_two writes s.threads n i j p below,
            )
            | no down ↦ omega arith
          ]
        ],
        λ none. ground (arith, right),
      )
