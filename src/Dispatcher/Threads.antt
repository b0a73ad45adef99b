-- ===== src/Dispatcher/Threads.antt =====
-- WnbdStartDispatcher of libwnbd/libwnbd.cpp. Whether memory is had, and what CreateThread answers for
-- each thread (0, or the error), are arguments; a thread's own run is WnbdDispatcherLoop.
use wnbd.Prelude.{
  ℕ, zero, suc, ◌+◌, ◌≤◌, ◌≡◌, ◌≢◌, refl, Bool, true, not, ◌||◌, ltb, ◌==◌, arith, if◌then◌else◌,
  split-if,
}
use wnbd.Dispatcher.{UserDisk, stop_dispatcher}

-- WNBD_MIN_DISPATCHER_THREAD_COUNT, WNBD_MAX_DISPATCHER_THREAD_COUNT
abbrev pub min_threads : ℕ
min_threads = 1

abbrev pub max_threads : ℕ
max_threads = 255

-- ERROR_INVALID_PARAMETER, ERROR_OUTOFMEMORY
abbrev pub error_invalid_parameter : ℕ
error_invalid_parameter = 87

abbrev pub error_out_of_memory : ℕ
error_out_of_memory = 14

-- The error code, the number of threads that were started, and the disk.
abbrev pub Starting : Type 0
Starting = ℕ × (ℕ × UserDisk)

-- The loop, with `n` threads left to start.
unfoldable pub start_threads : (ℕ → ℕ) → ℕ → ℕ → UserDisk → Starting
unfolding stop_dispatcher
start_threads create zero i d = (0, (i, d))
start_threads create (suc n) i d =
    let rest = start_threads create n (suc i) d in
    if create i == 0 then rest else (create i, (i, stop_dispatcher d))

-- WnbdStartDispatcher
unfoldable pub start_dispatcher : Bool → (ℕ → ℕ) → ℕ → UserDisk → Starting
unfolding start_threads
start_dispatcher has_memory create count d =
    if ltb count min_threads || ltb max_threads count
    then (error_invalid_parameter, (0, d))
    else if not has_memory
    then (error_out_of_memory, (0, d))
    else start_threads create count 0 (record d { started = true })

-- What a call achieved: all threads run, or the disk is being removed, or nothing changed.
pub data Outcome (count : ℕ) (d : UserDisk) (r : Starting) : Type 0 where
  all_started :
      r.0 ≡ 0
      → r.1.0 ≡ count
      → min_threads ≤ count
      → count ≤ max_threads
      → r.1.1.started ≡ true
      → r.1.1.stopping ≡ d.stopping
      → Outcome count d r
  given_up : r.0 ≢ 0 → r.1.1.stopping ≡ true → Outcome count d r
  turned_away : r.0 ≢ 0 → r.1.1 ≡ d → Outcome count d r

start_threads-Outcome :
    (create : ℕ → ℕ) (count n i : ℕ) (d e : UserDisk)
    → n + i ≡ count
    → min_threads ≤ count
    → count ≤ max_threads
    → e.started ≡ true
    → e.stopping ≡ d.stopping
    → Outcome count d (start_threads create n i e)
unfolding start_threads stop_dispatcher
start_threads-Outcome create count zero i d e sum least most on same =
    all_started refl (omega (arith, sum)) least most on same
start_threads-Outcome create count (suc n) i d e sum least most on same =
    split-if (Outcome count d) (create i == 0) _ _
      (λ t.
        start_threads-Outcome create count n (suc i) d e (omega (arith, sum)) least most on same)
      (λ f. given_up (ground (arith, f)) (ground arith))

-- WnbdStartDispatcher starts as many threads as it was asked for, between 1 and 255, and the disk is
-- started; or it reports an error, and the disk is being removed if a thread could not be created, and
-- unchanged otherwise.
pub start_dispatcher-Outcome :
    (has_memory : Bool) (create : ℕ → ℕ) (count : ℕ) (d : UserDisk)
    → Outcome count d (start_dispatcher has_memory create count d)
unfolding start_dispatcher
start_dispatcher-Outcome has_memory create count d =
    split-if (Outcome count d) (ltb count min_threads || ltb max_threads count) _ _
      (λ bad. turned_away (ground arith) refl)
      (λ good.
        split-if (Outcome count d) (not has_memory) _ _ (λ h. turned_away (ground arith) refl)
          (λ h.
            start_threads-Outcome create count count 0 d (record d { started = true }) (omega arith)
              (ground (arith, good)) (ground (arith, good)) refl refl))
