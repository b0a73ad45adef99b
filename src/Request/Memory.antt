-- ===== src/Request/Memory.antt =====
-- LockUsermodeBuffer and LockFetchBuffer of driver/wnbd_dispatch.c: a user buffer is probed, its
-- pages locked and mapped. What the memory manager answers is an argument.
use wnbd.Prelude.{ℕ, ◌+◌, ◌-◌, ◌≡◌, Bool, true, false, Option, none, some, if◌then◌else◌, arith}
use wnbd.Wdk.{NtStatus, is_failure}

-- The answers of ProbeForRead or ProbeForWrite, IoAllocateMdl, MmProbeAndLockPages and
-- MmGetSystemAddressForMdlSafe: an exception's code, or whether the call succeeds.
pub record LockEnv : Type 0 where
  pub probe_raises : Option ℕ
  pub mdl_allocated : Bool
  pub lock_raises : Option ℕ
  pub mapped : Bool

-- The MDLs that are allocated and the page locks that are held.
pub record Memory : Type 0 where
  pub mdls : ℕ
  pub locks : ℕ

-- The locals `Mdl` (whether it is set) and `BufferLocked`.
pub record Mapping : Type 0 where
  pub mdl : Bool
  pub locked : Bool

abbrev pub unmapped : Mapping
unmapped = record { mdl = false; locked = false }

abbrev pub Locked : Type 0
Locked = NtStatus × Mapping × Memory

map_pages : Bool → Memory → Locked
map_pages false m = (NtStatus.insufficient_resources, record { mdl = true; locked = true }, m)
map_pages true m = (NtStatus.success, record { mdl = true; locked = true }, m)

lock_pages : Option ℕ → Bool → Memory → Locked
unfolding map_pages
lock_pages (some code) mapped m =
    (NtStatus.exception code, record { mdl = true; locked = false }, m)
lock_pages none mapped m = map_pages mapped (record m { locks = m.locks + 1 })

allocate_mdl : Bool → Option ℕ → Bool → Memory → Locked
unfolding lock_pages
allocate_mdl false lock_raises mapped m = (NtStatus.insufficient_resources, unmapped, m)
allocate_mdl true lock_raises mapped m =
    lock_pages lock_raises mapped (record m { mdls = m.mdls + 1 })

probe : Option ℕ → LockEnv → Memory → Locked
unfolding allocate_mdl
probe (some code) env m = (NtStatus.exception code, unmapped, m)
probe none env m = allocate_mdl env.mdl_allocated env.lock_raises env.mapped m

-- LockUsermodeBuffer
unfoldable pub lock_usermode_buffer : LockEnv → Memory → Locked
unfolding probe
lock_usermode_buffer env m = probe env.probe_raises env m

-- `if (Mdl) { if (BufferLocked) MmUnlockPages(Mdl); IoFreeMdl(Mdl); }`
unfoldable pub release : Mapping → Memory → Memory
release mapping m =
    if mapping.mdl
    then (if mapping.locked
        then record { mdls = m.mdls - 1; locks = m.locks - 1 }
        else record m { mdls = m.mdls - 1 })
    else m

-- What LockFetchBuffer does after the lock.
settle_fetch : Locked → Locked
unfolding release
settle_fetch (status, mapping, m) =
    if is_failure status then (status, unmapped, release mapping m) else (status, mapping, m)

-- LockFetchBuffer
unfoldable pub lock_fetch_buffer : LockEnv → Memory → Locked
unfolding lock_usermode_buffer settle_fetch
lock_fetch_buffer env m = settle_fetch (lock_usermode_buffer env m)

-- Whatever the memory manager answers, releasing what a lock left behind gives the memory back.
pub release-lock :
    (env : LockEnv) (m : Memory)
    → let r = lock_usermode_buffer env m in
      (release r.1 r.2).mdls ≡ m.mdls × (release r.1 r.2).locks ≡ m.locks
unfolding release lock_usermode_buffer
release-lock env m = ground arith

-- A failed fetch lock leaves nothing behind, and a successful one is released like any.
pub lock_fetch_buffer-settled :
    (env : LockEnv) (m : Memory)
    → let r = lock_fetch_buffer env m in
      ((is_failure r.0 ≡ true → (r.1 ≡ unmapped) × (r.2 ≡ m))) × ((release r.1 r.2) ≡ m)
unfolding lock_fetch_buffer release
lock_fetch_buffer-settled env m = ground arith
