-- ===== src/Word.antt =====
-- Machine integers of the driver: UINT32 and UINT64 arithmetic wraps, and the INT64 counters that
-- `Interlocked{Increment,Decrement}64` change are kept as their 64-bit patterns.
use wnbd.Prelude.{ℕ, ◌+◌, ◌-◌, ◌%◌, ◌^◌, ◌≡◌, arith}

abbrev pub wrap8 : ℕ → ℕ
wrap8 n = n % 2 ^ 8

abbrev pub wrap16 : ℕ → ℕ
wrap16 n = n % 2 ^ 16

abbrev pub wrap32 : ℕ → ℕ
wrap32 n = n % 2 ^ 32

abbrev pub wrap64 : ℕ → ℕ
wrap64 n = n % 2 ^ 64

-- InterlockedIncrement64, InterlockedDecrement64.
abbrev pub inc64 : ℕ → ℕ
inc64 n = (n + 1) % 2 ^ 64

abbrev pub dec64 : ℕ → ℕ
dec64 n = (n + (2 ^ 64 - 1)) % 2 ^ 64

pub dec64-inc64 : (n : ℕ) → dec64 (inc64 n) ≡ wrap64 n
dec64-inc64 n = omega arith
