-- ===== src/Miniport/Pnp.antt =====
-- WnbdDispatchPnp of driver/driver.c: a disk that starts, may it be removed, and is removed. What the
-- kernel answers about the device object is an argument.
pub mod Targets
pub mod Removes
use wnbd.Prelude.{ℕ, Bool, true, false, not, ◌||◌, Option, none, some, List, ◌==◌, if◌then◌else◌}
use wnbd.Wdk.{NtStatus, is_failure}
use wnbd.Connections.{Disk, Extension}
use wnbd.Request.Complete.{has_pending_async_requests}
use wnbd.Ioctl.{IoctlEnv, Adapter}
use wnbd.Ioctl.Lookup.{release_device}
use wnbd.Ioctl.Mapping.{update, disconnect_sync}
use wnbd.Miniport.{Address, find_device_by_addr}

-- IRP_MN_*
pub data Minor : Type 0 where
  query_capabilities start_device query_remove_device remove_device other_minor : Minor

-- `device_object` stands for the device object's address. The answers of WnbdGetScsiAddress,
-- WnbdGetDiskNumber (`none` where no other device object is attached) and WnbdGetDiskInstancePath.
pub record PnpRequest : Type 0 where
  pub minor : Minor
  pub device_object : ℕ
  pub scsi_address : NtStatus × Address
  pub disk_number : Option (NtStatus × ℕ)
  pub instance_path : NtStatus × List ℕ

-- The adapter, whether GlobalExt points to it, and the PDO of each disk, by connection id.
pub record Plug (S : Type 0) : Type 0 where
  pub adapter : Adapter S
  pub has_extension : Bool
  pub pdos : ℕ → ℕ

-- The request goes on to StorPort, its capabilities filled in or not; or it is completed with a status.
pub data PnpEnd : Type 0 where
  forwarded : Bool → PnpEnd
  completed : NtStatus → PnpEnd

-- A call that returns, or one that waits for the disk's removal.
abbrev pub PnpOutcome : Type 0 → Type 0
PnpOutcome S = Option (PnpEnd × Plug S)

abbrev pub forward : {S : Type 0} → Plug S → PnpOutcome S
forward p = some (forwarded false, p)

abbrev pub with_ext : {S : Type 0} → Plug S → Extension → Plug S
with_ext p ext = record p { adapter = record p.adapter { ext = ext } }

-- What an answer writes, if it is a success.
abbrev pub updated {ℓ} : {A : Type ℓ} → (ℕ → A) → ℕ → NtStatus × A → ℕ → A
updated f i (status, x) = if is_failure status then f else update f i x

abbrev pub updated_number : (ℕ → ℕ) → ℕ → Option (NtStatus × ℕ) → ℕ → ℕ
updated_number f i none = f
updated_number f i (some answer) = updated f i answer

module _ {S : Type 0} (env : IoctlEnv) (r : PnpRequest) where
  -- IRP_MN_START_DEVICE
  unfoldable pub start_found : Plug S → Option Disk × Extension → PnpOutcome S
  unfolding release_device
  start_found p (none, ext) = forward (with_ext p ext)
  start_found p (some d, ext) =
      let id = d.connection_id in
      let a = p.adapter in
      forward (record p {
        adapter = record a {
          ext = release_device ext d;
          disk_numbers = updated_number a.disk_numbers id r.disk_number;
          pnp_device_ids = updated a.pnp_device_ids id r.instance_path;
        };
        pdos = update p.pdos id r.device_object;
      })

  unfoldable pub start_pnp : Plug S → PnpOutcome S
  unfolding find_device_by_addr start_found
  start_pnp p =
      if not p.has_extension || is_failure r.scsi_address.0
      then forward p
      else start_found p (find_device_by_addr p.adapter.ext r.scsi_address.1)

  -- IRP_MN_QUERY_REMOVE_DEVICE: only a disk without pending requests may go.
  unfoldable pub query_found : Plug S → Option Disk × Extension → PnpOutcome S
  unfolding release_device has_pending_async_requests
  query_found p (none, ext) = forward (with_ext p ext)
  query_found p (some d, ext) =
      let p' = with_ext p (release_device ext d) in
      if not (p.pdos d.connection_id == r.device_object)
      then forward p'
      else if has_pending_async_requests (p.adapter.devices d.connection_id)
      then some (completed NtStatus.device_busy, p')
      else forward p'

  -- IRP_MN_REMOVE_DEVICE
  unfoldable pub removed_end : Plug S → Option (Adapter S) → PnpOutcome S
  removed_end p none = none
  removed_end p (some a) = forward (record p { adapter = a })

  unfoldable pub remove_found : Plug S → Option Disk × Extension → PnpOutcome S
  unfolding release_device disconnect_sync removed_end
  remove_found p (none, ext) = forward (with_ext p ext)
  remove_found p (some d, ext) =
      if not (p.pdos d.connection_id == r.device_object)
      then forward (with_ext p (release_device ext d))
      else removed_end p (disconnect_sync env d (record p.adapter { ext = ext }))

  -- What QUERY_REMOVE_DEVICE and REMOVE_DEVICE check first.
  unfoldable pub find_pnp :
      (Plug S → Option Disk × Extension → PnpOutcome S) → Plug S → PnpOutcome S
  unfolding find_device_by_addr
  find_pnp k p =
      if not p.has_extension || p.adapter.ext.device_count == 0 || is_failure r.scsi_address.0
      then forward p
      else k p (find_device_by_addr p.adapter.ext r.scsi_address.1)

  unfoldable pub run_minor : Minor → Plug S → PnpOutcome S
  unfolding start_pnp find_pnp query_found remove_found
  run_minor query_capabilities p = some (forwarded true, p)
  run_minor start_device p = start_pnp p
  run_minor query_remove_device p = find_pnp query_found p
  run_minor remove_device p = find_pnp remove_found p
  run_minor other_minor p = forward p

  -- WnbdDispatchPnp
  unfoldable pub dispatch_pnp : Plug S → PnpOutcome S
  unfolding run_minor
  dispatch_pnp p = run_minor r.minor p
