-- ===== src/Request/Initialize.antt =====
-- WnbdInitializeDevice of driver/userspace.c: an allocated device gets its lists, its events and its
-- pool. Whether the monitor thread starts and can be referenced is an argument.
use wnbd.Prelude.{ℕ, Bool, false, Option, List, [], if◌then◌else◌}
use wnbd.Wdk.{NtStatus}
use wnbd.Types.{Device}
use wnbd.Submitted.{init_hash}
use wnbd.Request.Pool.{populate_pool}

-- The lists and events, before the monitor thread starts.
unfoldable pub init_lists : Device → Device
unfolding init_hash
init_lists d =
    init_hash (record d {
      pending = [];
      submitted = [];
      pool = [];
      device_event = 0;
      removal_event = false;
    })

-- WnbdInitializeDevice
unfoldable pub initialize_device : Bool → List (Option ℕ) → Device → NtStatus × Device
unfolding init_lists populate_pool
initialize_device thread_started allocs d =
    if thread_started
    then (NtStatus.success, populate_pool (init_lists d) allocs)
    else (NtStatus.insufficient_resources, init_lists d)
