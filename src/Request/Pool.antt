-- ===== src/Request/Pool.antt =====
-- The pool of queue elements, driver/util.c: a bounded free list, with direct allocation behind it.
-- What ExAllocatePoolZero returns is an argument, `none` for NULL.
use wnbd.Prelude.{ℕ, zero, suc, Bool, true, false, Option, none, some, List, [], ◌∷◌, if◌then◌else◌}
use wnbd.Types.{Device, Element}

-- WNBD_SRB_POOL_SIZE of a build without WNBD_TEST_SMALL_SRB_POOL.
abbrev pub pool_size : ℕ
pool_size = 256

-- A zeroed element: its address, and where it came from.
pub record Slot : Type 0 where
  pub addr : ℕ
  pub pooled : Bool

-- WnbdAllocSrbElement
unfoldable pub take_slot : Device → List ℕ → Option ℕ → Option Slot × Device
take_slot d (addr ∷ rest) fresh =
    (some (record { addr = addr; pooled = true }), record d { pool = rest })
take_slot d [] none = (none, d)
take_slot d [] (some addr) = (some (record { addr = addr; pooled = false }), d)

unfoldable pub alloc_element : Device → Option ℕ → Option Slot × Device
unfolding take_slot
alloc_element d fresh = take_slot d d.pool fresh

-- WnbdFreeSrbElement
unfoldable pub free_element : Device → Element → Device
free_element d e =
    if e.pooled then record d { pool = e.addr ∷ d.pool } else record d { freed = e.addr ∷ d.freed }

-- The loop of WnbdPopulateSrbElementPool over the rounds left; each takes one allocation's result,
-- and none left stands for NULL.
unfoldable pub populate : ℕ → Device → List (Option ℕ) → Device
populate zero d allocs = d
populate (suc n) d [] = d
populate (suc n) d (none ∷ allocs) = d
populate (suc n) d (some addr ∷ allocs) = populate n (record d { pool = addr ∷ d.pool }) allocs

unfoldable pub populate_pool : Device → List (Option ℕ) → Device
unfolding populate
populate_pool d allocs = populate pool_size d allocs

-- The loop of WnbdDrainSrbElementPool, on what the pool holds.
drain : Device → List ℕ → Device
drain d [] = record d { pool = [] }
drain d (addr ∷ rest) = drain (record d { pool = rest; freed = addr ∷ d.freed }) rest

unfoldable pub drain_pool : Device → Device
unfolding drain
drain_pool d = drain d d.pool
