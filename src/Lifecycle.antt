-- ===== src/Lifecycle.antt =====
-- The life of a device: the operations of driver/scsi_function.c, driver/wnbd_dispatch.c and
-- driver/util.c in any order, and what holds after them. A step is one call, or for a fetch one round
-- of its loop; between two rounds other calls run.
pub mod Conservation
pub mod Gauges
pub mod Shutdown
use wnbd.Prelude.{
  ℕ, zero, suc, ◌+◌, ◌≤◌, ◌≡◌, refl, Bool, true, false, Option, none, some, List, [], ◌∷◌, ◌++◌,
  ◌==◌, arith, subst, sym, length,
}
use wnbd.Word.{wrap64}
use wnbd.Types.{Device, Element, Srb, Stats}
use wnbd.Submitted.{init_hash}
use wnbd.Submitted.Sync.{IsSynced, init_hash-IsSynced}
use wnbd.Request.Pool.{pool_size, populate, populate_pool}
use wnbd.Request.Initialize.{init_lists, initialize_device}
use wnbd.Request.Complete.{DrainOptions, drain_device_queue, disconnect_async}
use wnbd.Request.Pend.{PendEnv}
use wnbd.Request.Pend.Bounds.{IsBuffer, IsMappable}
use wnbd.Request.Execute.{execute_scsi}
use wnbd.Request.Memory.{Memory}
use wnbd.Request.Send.{Round, Fetch}
use wnbd.Request.Dispatch.{set_hard, dispatch_round}
use wnbd.Request.Response.{Reply, ReplyEnv, handle_response}
use wnbd.Books.{total, is_number, is_addr, is_id, is_srb, unit_weight, Books}
use wnbd.Books.Arrival.{IsUnused}
use wnbd.Accounts.{Accounts, Books-at, Books-same, IsSynced-same}
use wnbd.Accounts.Arrive.{with_arrival, execute_scsi-Accounts}
use wnbd.Accounts.Fetch.{device_of, left_behind, dispatch_round-Accounts}
use wnbd.Accounts.Reply.{handle_response-Accounts}
use wnbd.Accounts.Drain.{drain_device_queue-Accounts, disconnect_async-Accounts}

-- How often the allocator gave an address.
abbrev pub times_given : ℕ → List (Option ℕ) → ℕ
times_given a [] = 0
times_given a (none ∷ allocs) = times_given a allocs
times_given a (some b ∷ allocs) = is_number a b + times_given a allocs

-- A zeroed device, whose gauges and counters start at 0.
pub record IsZeroed (d : Device) : Type 0 where
  pub notified : d.notified ≡ []
  pub unsubmitted : d.stats.unsubmitted_requests ≡ 0
  pub pending_submitted : d.stats.pending_submitted_requests ≡ 0
  pub aborted_submitted : d.stats.aborted_submitted_requests ≡ 0
  pub aborted_unsubmitted : d.stats.aborted_unsubmitted_requests ≡ 0
  pub outstanding : d.stats.outstanding_io_count ≡ 0

-- The device after any sequence of steps; `arrived` lists the SRBs that were queued, `lost` the
-- elements that a fetch dropped because the device was being removed.
pub data Reach : List ℕ → List Element → Device → Type 0 where
  -- WnbdInitializeDevice; the allocator gives no address twice.
  start :
      (d : Device) (allocs : List (Option ℕ))
      → IsZeroed d
      → ((a : ℕ) → times_given a allocs ≤ 1)
      → Reach [] [] (initialize_device true allocs d).1
  -- WnbdExecuteScsiFunction
  execute :
      {arrived : List ℕ} {lost : List Element} {d : Device} (env : PendEnv) (srb : Srb)
      → IsBuffer srb.cdb
      → IsBuffer srb.data_buffer
      → IsMappable d
      → IsUnused env d lost
      → Reach arrived lost d
      → Reach
          (with_arrival (execute_scsi env d srb) srb arrived)
          lost
          (execute_scsi env d srb).device
  -- A round of WnbdDispatchRequest, the device being `f.device`
  fetch :
      {arrived : List ℕ} {lost : List Element} (round : Round) (size : ℕ) (f : Fetch)
      → Reach arrived lost f.device
      → Reach arrived (left_behind round f ++ lost) (device_of (dispatch_round round size f))
  -- WnbdHandleResponse
  reply :
      {arrived : List ℕ} {lost : List Element} {d : Device} (env : ReplyEnv) (rsp : Reply)
      (m : Memory)
      → Reach arrived lost d
      → Reach arrived lost (handle_response env rsp d m).1
  -- DrainDeviceQueue
  drain :
      {arrived : List ℕ} {lost : List Element} {d : Device} (from_submitted check : Bool)
      (opts : DrainOptions) (now : ℕ)
      → Reach arrived lost d
      → Reach arrived lost (drain_device_queue from_submitted check opts now d)
  -- WnbdDisconnectAsync
  disconnect :
      {arrived : List ℕ} {lost : List Element} {d : Device}
      → Reach arrived lost d
      → Reach arrived lost (disconnect_async d)

populate-total :
    (a n : ℕ) (d : Device) (allocs : List (Option ℕ))
    → total (is_number a) (populate n d allocs).pool
      ≤ times_given a allocs + total (is_number a) d.pool
unfolding populate
populate-total a zero d allocs = omega arith
populate-total a (suc n) d [] = omega arith
populate-total a (suc n) d (none ∷ allocs) = omega arith
populate-total a (suc n) d (some b ∷ allocs) =
    omega (arith, populate-total a n (record d { pool = b ∷ d.pool }) allocs)

-- Populating the pool changes nothing else.
populate-rest :
    (n : ℕ) (d : Device) (allocs : List (Option ℕ))
    → ((populate n d allocs).pending ≡ d.pending)
      × ((populate n d allocs).submitted ≡ d.submitted)
      × ((populate n d allocs).buckets ≡ d.buckets)
      × ((populate n d allocs).stats ≡ d.stats)
      × ((populate n d allocs).notified ≡ d.notified)
unfolding populate
populate-rest zero d allocs = (refl, refl, refl, refl, refl)
populate-rest (suc n) d [] = (refl, refl, refl, refl, refl)
populate-rest (suc n) d (none ∷ allocs) = (refl, refl, refl, refl, refl)
populate-rest (suc n) d (some b ∷ allocs) = populate-rest n (record d { pool = b ∷ d.pool }) allocs

start-Accounts :
    (d : Device) (allocs : List (Option ℕ))
    → IsZeroed d
    → ((a : ℕ) → times_given a allocs ≤ 1)
    → Accounts [] [] (initialize_device true allocs d).1
unfolding initialize_device populate_pool init_lists init_hash
start-Accounts d allocs z h =
    let e = init_lists d in
    let same = populate-rest pool_size e allocs in
    let no_pending : (populate pool_size e allocs).pending ≡ [] = same.0 in
    let no_submitted : (populate pool_size e allocs).submitted ≡ [] = same.1 in
    let books : Books [] [] [] [] (populate pool_size e allocs) = record {
      unique = λ a. ground (arith, populate-total a pool_size e allocs, h a);
      live_pending = tt;
      live_submitted = tt;
      unsubmitted = ground (arith, same.3, z.unsubmitted, z.aborted_unsubmitted);
      pending_submitted = ground (arith, same.3, z.pending_submitted, z.aborted_submitted);
      outstanding = ground (arith, same.3, z.outstanding);
      conserved = λ i. ground (arith, same.4, z.notified);
    } in
    record {
      books = Books-at (sym no_pending) (sym no_submitted) books;
      synced = IsSynced-same e _ no_submitted same.2 (init_hash-IsSynced e refl);
      kept = λ k. refl;
    }

pub reach-Accounts :
    {arrived : List ℕ} {lost : List Element} {d : Device}
    → Reach arrived lost d
    → Accounts arrived lost d
reach-Accounts (start d allocs z h) = start-Accounts d allocs z h
reach-Accounts (execute {arrived} {lost} {d} env srb hc hb m f r) =
    execute_scsi-Accounts arrived lost env d srb hc hb m f (reach-Accounts r)
reach-Accounts (fetch {arrived} {lost} round size f r) =
    dispatch_round-Accounts arrived lost round size f (reach-Accounts r)
reach-Accounts (reply {arrived} {lost} {d} env rsp m r) =
    handle_response-Accounts arrived lost env rsp d m (reach-Accounts r)
reach-Accounts (drain {arrived} {lost} {d} which check opts now r) =
    drain_device_queue-Accounts arrived lost which check opts now d (reach-Accounts r)
reach-Accounts (disconnect {arrived} {lost} {d} r) =
    disconnect_async-Accounts arrived lost d (reach-Accounts r)
