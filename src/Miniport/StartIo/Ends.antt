-- ===== src/Miniport/StartIo/Ends.antt =====
-- How WnbdHwStartIo of driver/scsi_driver_extensions.c ends.
use wnbd.Request.Pend.Bounds.{IsMappable}
use wnbd.Miniport.StartIo.Executes.{Executes}
use wnbd.Prelude.{◌⊎◌, [], ℕ, ◌≡◌, true, false, Option, none, some, if◌then◌else◌}
use wnbd.Wdk.{SrbStatus}
use wnbd.Types.{Device, Srb}
use wnbd.Connections.{Disk, find_by_addr}
use wnbd.Request.Complete.{drain_both}
use wnbd.Request.Execute.{Executed, execute_scsi}
use wnbd.Ioctl.{Adapter}
use wnbd.Ioctl.Mapping.{update}
use wnbd.Miniport.StartIo.{
  SrbFunction, execute_function, reset_logical_unit, reset_device, abort_command, pnp_function,
  io_control, flush_function, shutdown_function, Request, StartEnv, Started,
}

-- The disk at the SRB's address, if it is not being removed.
abbrev pub IsTarget : {S : Type 0} → Request → Adapter S → Disk → Type 0
IsTarget r a d =
    (find_by_addr r.address.path_id r.address.target_id r.address.lun a.ext.disks ≡ some d)
    × (d.released ≡ false)

-- The SRB with a status, as StorPort gets it back.
abbrev pub answer_with : Srb → SrbStatus → Option Srb
answer_with srb status = some (record srb { srb_status = status })

-- The adapter but for one device.
abbrev pub IsOnly : {S : Type 0} → Adapter S → Adapter S → Disk → Device → Type 0
IsOnly a a' d dev =
    (a'.ext ≡ a.ext) × ((j : ℕ) → a'.devices j ≡ update a.devices d.connection_id dev j)

-- No disk is at the SRB's address, but for one that is being removed.
abbrev pub IsNowhere : {S : Type 0} → Request → Adapter S → Type 0
IsNowhere r a = (d : Disk) → IsTarget r a d → ⊥

-- What an SRB that reaches no disk is answered with, by its function.
abbrev pub IsAnswer : {S : Type 0} → SrbFunction → Request → Adapter S → SrbStatus → Type 0
IsAnswer execute_function r a status = (status ≡ SrbStatus.no_device) × IsNowhere r a
IsAnswer reset_logical_unit r a status = (status ≡ SrbStatus.no_device) × IsNowhere r a
IsAnswer abort_command r a status = (status ≡ SrbStatus.no_device) × IsNowhere r a
IsAnswer reset_device r a status = status ≡ SrbStatus.success
IsAnswer flush_function r a status = status ≡ SrbStatus.success
IsAnswer shutdown_function r a status = status ≡ SrbStatus.success
IsAnswer pnp_function r a status =
    (status ≡ SrbStatus.success) ⊎ (status ≡ SrbStatus.invalid_request)
IsAnswer io_control r a status = Unit {0}
IsAnswer _ r a status = status ≡ SrbStatus.invalid_request

pub data Ends {S : Type 0} (env : StartEnv) (r : Request) (a : Adapter S) (s : Started S)
    : Type 0 where
  -- The SRB is completed in the call, and no device is touched.
  ended_now :
      (status : SrbStatus)
      → IsAnswer r.function r a status
      → s.completed ≡ answer_with r.srb status
      → s.adapter.ext ≡ a.ext
      → ((j : ℕ) → s.adapter.devices j ≡ a.devices j)
      → Ends env r a s
  -- Both queues of the disk at the address are drained, and the SRB is completed with success.
  drained :
      (d : Disk) (dev : Device)
      → (r.function ≡ reset_logical_unit) ⊎ (r.function ≡ abort_command)
      → IsTarget r a d
      → s.completed ≡ answer_with r.srb SrbStatus.success
      → IsOnly a s.adapter d dev
      → dev ≡ drain_both true env.drain env.now (a.devices d.connection_id)
      → dev.pending ≡ []
      → dev.submitted ≡ []
      → Ends env r a s
  -- The disk at the address executes the SRB; it is completed in the call unless it was queued.
  ran :
      (d : Disk) (x : Executed)
      → r.function ≡ execute_function
      → IsTarget r a d
      → x ≡ execute_scsi env.pend (a.devices d.connection_id) r.srb
      → Executes (a.devices d.connection_id) r.srb x
      → s.completed ≡ (if x.complete then answer_with x.srb x.srb_status else none)
      → IsOnly a s.adapter d x.device
      → Ends env r a s

-- A device that can be mapped, for every disk at the SRB's address.
abbrev pub IsMapped : {S : Type 0} → Request → Adapter S → Type 0
IsMapped r a = (d : Disk) → IsTarget r a d → IsMappable (a.devices d.connection_id)

module _ {S : Type 0} (env : StartEnv) (r : Request) (a : Adapter S) where
  abbrev at_address : Option Disk
  at_address = find_by_addr r.address.path_id r.address.target_id r.address.lun a.ext.disks
