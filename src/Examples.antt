-- ===== src/Examples.antt =====
-- The theorems at concrete inputs: a mapped disk of 1000 blocks, and a READ(10) of 8 blocks that is
-- queued, fetched and answered.
pub mod Settings
pub mod Ioctls
pub mod Miniports
pub mod Dispatchers
pub mod Start
pub mod Commands
pub mod Sockets
pub mod Requests
pub mod Disks
pub mod Answers
use wnbd.Prelude.{
  ℕ, ◌+◌, ◌*◌, ◌≤◌, ◌<◌, ◌^◌, ◌≡◌, refl, Bool, true, false, Option, none, some, List, [], ◌∷◌, ◌++◌,
  arith, length,
}
use wnbd.Word.{wrap64}
use wnbd.Wdk.{NtStatus, SrbStatus}
use wnbd.Types.{Flags, Properties, Stats, Srb, Element, Device, IoRequest}
use wnbd.Cdb.{cdb_get_range}
use wnbd.Submitted.Sync.{IsSynced}
use wnbd.Request.Complete.{DrainOptions, drain_both, drain_device_queue}
use wnbd.Request.Initialize.{initialize_device, init_lists}
use wnbd.Request.Execute.{execute_scsi}
use wnbd.Request.Pend.{PendEnv}
use wnbd.Request.Memory.{LockEnv, Memory}
use wnbd.Request.Send.{Round, Wait, work, Fetch}
use wnbd.Request.Dispatch.{begin_fetch, zero_request, dispatch_round}
use wnbd.Books.{total, is_number, is_addr, is_id, is_srb}
use wnbd.Accounts.Arrive.{with_arrival}
use wnbd.Accounts.Fetch.{device_of, left_behind}
use wnbd.Lifecycle.{Reach, start, execute, fetch, IsZeroed}
use wnbd.Lifecycle.Conservation.{reach-conserved, reach-completed_once, reach-kept, reach_unique}
use wnbd.Lifecycle.Gauges.{reach-gauges, reach-IsSynced}
use wnbd.Lifecycle.Shutdown.{drain_device_queue-empties, drain_both-completes, list_of}

abbrev pub flags : Flags
flags = record {
  read_only = false;
  flush_supported = true;
  fua_supported = true;
  unmap_supported = true;
  use_kernel_nbd = false;
  persist_res_supported = false;
  naa_id_specified = false;
}

abbrev pub properties : Properties
properties = record {
  instance_name = 100 ∷ [];
  serial_number = 49 ∷ [];
  flags = flags;
  block_count = 1000;
  block_size = 512;
  pid = 4;
  naa_identifier = [];
}

abbrev no_stats : Stats
no_stats = record {
  total_received_requests = 0;
  total_submitted_requests = 0;
  total_received_replies = 0;
  unsubmitted_requests = 0;
  pending_submitted_requests = 0;
  aborted_submitted_requests = 0;
  aborted_unsubmitted_requests = 0;
  completed_aborted_requests = 0;
  outstanding_io_count = 0;
  last_received_req_timestamp = 0;
  last_submitted_req_timestamp = 0;
  last_reply_timestamp = 0;
}

-- MallocZero, and the properties copied.
abbrev pub blank : Device
blank = record {
  properties = properties;
  connection_id = 2;
  pending = [];
  submitted = [];
  buckets = λ b. [];
  pool = [];
  device_event = 0;
  hard_remove = false;
  removal_event = false;
  stats = no_stats;
  notified = [];
  freed = [];
}

abbrev pub allocs : List (Option ℕ)
allocs = some 16 ∷ some 32 ∷ none ∷ []

-- READ(10) of 8 blocks at block 3
abbrev pub read_srb : Srb
read_srb = record {
  id = 7;
  cdb = some (40 ∷ 0 ∷ 0 ∷ 0 ∷ 0 ∷ 3 ∷ 0 ∷ 0 ∷ 8 ∷ 0 ∷ []);
  data_buffer = some (1 ∷ 2 ∷ []);
  data_transfer_length = 4096;
  srb_status = SrbStatus.pending;
  scsi_status = 0;
  sense_info = none;
  sense_info_length = 0;
  disable_autosense = false;
}

abbrev pub pend_env : PendEnv
pend_env = record {
  received_at = 10;
  queued_at = 11;
  fresh = none;
  revision = 48 ∷ 46 ∷ 54 ∷ 0 ∷ [];
}

abbrev pub fresh_device : Device
fresh_device = (initialize_device true allocs blank).1

abbrev pub queued_device : Device
queued_device = (execute_scsi pend_env fresh_device read_srb).device

abbrev arrived : List ℕ
arrived = with_arrival (execute_scsi pend_env fresh_device read_srb) read_srb []

fresh_device-Reach : Reach [] [] fresh_device
fresh_device-Reach =
    start blank allocs
      (record {
        notified = refl;
        unsubmitted = refl;
        pending_submitted = refl;
        aborted_submitted = refl;
        aborted_unsubmitted = refl;
        outstanding = refl;
      })
      (λ a. ground arith)

pub fresh_device-IsMappable :
    fresh_device.properties.block_count * fresh_device.properties.block_size < 2 ^ 64
unfolding initialize_device
fresh_device-IsMappable = omega arith

queued_device-Reach : Reach arrived [] queued_device
queued_device-Reach =
    execute pend_env read_srb (ground arith) (ground arith) fresh_device-IsMappable
      (λ a h. ground arith) fresh_device-Reach

queued_device-kept : queued_device.hard_remove ≡ false
unfolding execute_scsi initialize_device cdb_get_range
queued_device-kept = refl

queued-arrived : arrived ≡ 7 ∷ []
unfolding execute_scsi initialize_device cdb_get_range
queued-arrived = refl

abbrev pub lock_env : LockEnv
lock_env = record { probe_raises = none; mdl_allocated = true; lock_raises = none; mapped = true }

abbrev pub no_memory : Memory
no_memory = record { mdls = 0; locks = 0 }

abbrev pub round : Round
round = record {
  removed_before = false;
  wait = work;
  removed_during = false;
  lock = lock_env;
  system_address = true;
  now = 20;
}

-- The same round on a device that another thread removes.
abbrev removing_round : Round
removing_round = record round { removed_during = true }

abbrev calling : Fetch
calling = begin_fetch queued_device 0 zero_request no_memory

abbrev pub fetched_device : Device
fetched_device = device_of (dispatch_round round 4096 calling)

fetched_device-Reach : Reach arrived (left_behind round calling ++ []) fetched_device
fetched_device-Reach = fetch round 4096 calling queued_device-Reach

abbrev removed_device : Device
removed_device = device_of (dispatch_round removing_round 4096 calling)

removed_device-Reach : Reach arrived (left_behind removing_round calling ++ []) removed_device
removed_device-Reach = fetch removing_round 4096 calling queued_device-Reach

reach-conserved_example :
    total (is_id 7) removed_device.pending
      + total (is_id 7) removed_device.submitted
      + total (is_id 7) (left_behind removing_round calling ++ [])
      + total (is_srb 7) removed_device.notified
    ≡ total (is_number 7) arrived
reach-conserved_example =
    reach-conserved arrived (left_behind removing_round calling ++ []) removed_device 7
      removed_device-Reach

arrived-once : total (is_number 7) arrived ≤ 1
arrived-once = ground (arith, queued-arrived)

reach-completed_once_example :
    total (is_id 7) fetched_device.pending
      + total (is_id 7) fetched_device.submitted
      + total (is_srb 7) fetched_device.notified
    ≤ 1
reach-completed_once_example =
    reach-completed_once arrived (left_behind round calling ++ []) fetched_device 7
      fetched_device-Reach arrived-once

reach-kept_example :
    total (is_id 7) queued_device.pending
      + total (is_id 7) queued_device.submitted
      + total (is_srb 7) queued_device.notified
    ≡ total (is_number 7) arrived
reach-kept_example = reach-kept arrived [] queued_device 7 queued_device-Reach queued_device-kept

reach_unique_example :
    total (is_number 16) fetched_device.pool
      + total (is_addr 16) fetched_device.pending
      + total (is_addr 16) fetched_device.submitted
    ≤ 1
reach_unique_example =
    reach_unique arrived (left_behind round calling ++ []) fetched_device 16 fetched_device-Reach

reach-gauges_example :
    (wrap64 queued_device.stats.outstanding_io_count
      ≡ wrap64 (length queued_device.pending + length queued_device.submitted))
    × (wrap64 queued_device.stats.unsubmitted_requests
        ≡ wrap64 (length queued_device.pending + queued_device.stats.aborted_unsubmitted_requests))
    × (wrap64 queued_device.stats.pending_submitted_requests
        ≡ wrap64 (length queued_device.submitted + queued_device.stats.aborted_submitted_requests))
reach-gauges_example = reach-gauges arrived [] queued_device queued_device-Reach queued_device-kept

reach-IsSynced_example : IsSynced fetched_device
reach-IsSynced_example =
    reach-IsSynced arrived (left_behind round calling ++ []) fetched_device fetched_device-Reach

abbrev pub options : DrainOptions
options = record {
  remove_stale_connections = true;
  stale_req_timeout_ms = 0;
  stale_conn_timeout_ms = 0;
}

drain_both-completes_example :
    ((drain_both true options 99 queued_device).pending ≡ [])
    × ((drain_both true options 99 queued_device).submitted ≡ [])
    × (total (is_srb 7) (drain_both true options 99 queued_device).notified
        ≡ total (is_number 7) arrived)
drain_both-completes_example =
    drain_both-completes arrived true options 99 queued_device 7 queued_device-Reach
