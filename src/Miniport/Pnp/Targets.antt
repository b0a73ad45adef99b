-- ===== src/Miniport/Pnp/Targets.antt =====
-- How WnbdDispatchPnp of driver/driver.c can end, and the disk that a request is about.
use wnbd.Prelude.{
  ℕ, ◌≡◌, ◌≢◌, ◌≤◌, [], Bool, true, false, not, ◌||◌, Option, none, some, ◌==◌, arith,
}
use wnbd.Types.{Device}
use wnbd.Wdk.{NtStatus, is_failure}
use wnbd.Connections.{Disk, find_by_addr, find_by_conn_id, remove_disk}
use wnbd.Request.Complete.{has_pending_async_requests}
use wnbd.Ioctl.{IoctlEnv}
use wnbd.Ioctl.Balance.{IsLetGo}
use wnbd.Miniport.Pnp.{
  Minor, query_remove_device, remove_device, PnpRequest, Plug, forwarded, completed, PnpOutcome,
}

-- The disk of the device object: at its SCSI address, not being removed, started with it.
abbrev pub IsTarget : {S : Type 0} → PnpRequest → Plug S → Disk → Type 0
IsTarget r p d =
    (find_by_addr r.scsi_address.1.path_id r.scsi_address.1.target_id r.scsi_address.1.lun
        p.adapter.ext.disks
      ≡ some d)
    × (d.released ≡ false)
    × (p.pdos d.connection_id ≡ r.device_object)

-- The lookup is made: the adapter is known, it has disks, and the address of the object was got.
abbrev pub IsLookedUp : {S : Type 0} → PnpRequest → Plug S → Type 0
IsLookedUp r p =
    (p.has_extension ≡ true)
    × (p.adapter.ext.device_count ≢ 0)
    × (is_failure r.scsi_address.0 ≡ false)

-- The disk of the object, if it is looked up, has no part in a request that is passed on: it is not to
-- be removed, and a query finds it idle.
abbrev pub IsIdle : {S : Type 0} → PnpRequest → Plug S → Type 0
IsIdle r p =
    (d : Disk)
    → IsLookedUp r p
    → IsTarget r p d
    → (r.minor ≢ remove_device)
      × (r.minor ≡ query_remove_device
          → ((p.adapter.devices d.connection_id).pending ≡ [])
            × ((p.adapter.devices d.connection_id).submitted ≡ []))

pub data Ends {S : Type 0} (env : IoctlEnv) (r : PnpRequest) (p : Plug S) (o : PnpOutcome S)
    : Type 0 where
  passed :
      (b : Bool) (p' : Plug S)
      → o ≡ some (forwarded b, p')
      → p'.adapter.ext ≡ p.adapter.ext
      → IsIdle r p
      → Ends env r p o
  turned_down :
      (d : Disk) (p' : Plug S)
      → o ≡ some (completed NtStatus.device_busy, p')
      → r.minor ≡ query_remove_device
      → IsTarget r p d
      → ((p.adapter.devices d.connection_id).pending ≡ []
          → (p.adapter.devices d.connection_id).submitted ≡ []
          → ⊥)
      → p'.adapter.ext ≡ p.adapter.ext
      → Ends env r p o
  removed :
      (d : Disk) (p' : Plug S)
      → o ≡ some (forwarded false, p')
      → r.minor ≡ remove_device
      → IsTarget r p d
      → IsLetGo env p.adapter d
      → p'.adapter.ext ≡ remove_disk p.adapter.ext d
      → Ends env r p o
  waits :
      (d e : Disk)
      → o ≡ none
      → r.minor ≡ remove_device
      → IsTarget r p d
      → find_by_conn_id p.adapter.ext d.connection_id ≡ some e
      → 1 ≤ e.references
      → env.others_release ≡ false
      → Ends env r p o

pub idle :
    (d : Device) → has_pending_async_requests d ≡ false → (d.pending ≡ []) × (d.submitted ≡ [])
unfolding has_pending_async_requests
idle d h = (ground (arith, h), ground (arith, h))

pub busy :
    (d : Device) → has_pending_async_requests d ≡ true → d.pending ≡ [] → d.submitted ≡ [] → ⊥
unfolding has_pending_async_requests
busy d h p s = ground (arith, h, p, s)

pub looked_up :
    (known : Bool) (n : ℕ) (bad : Bool)
    → (not known || n == 0 || bad) ≡ true
    → known ≡ true
    → n ≢ 0
    → bad ≡ false
    → ⊥
looked_up known n bad h k m b = ground (arith, h, k, m, b)

pub minor_other : {m : Minor} → m ≡ query_remove_device → m ≡ remove_device → ⊥
minor_other e f = cc

pub same_disk : (o : Option Disk) (d e : Disk) → o ≡ some d → o ≡ some e → d ≡ e
same_disk o d e f g = cc
