-- ===== src/Miniport.antt =====
-- What StorPort and the PnP manager call: driver/scsi_driver_extensions.c, driver/scsi_function.c and
-- WnbdDispatchPnp of driver/driver.c. The adapter is that of the commands of user space.
pub mod Firmware
pub mod StartIo
pub mod Pnp
pub mod Cleanup
pub mod Configure
use wnbd.Prelude.{ℕ, Bool, true, false, Option, none, some, List, ◌==◌, if◌then◌else◌}
use wnbd.Wdk.{NtStatus, SrbStatus}
use wnbd.Types.{Device, Srb}
use wnbd.Connections.{Disk, Extension, find_by_addr}
use wnbd.Ioctl.{Adapter}
use wnbd.Ioctl.Lookup.{acquire_found, release_device}
use wnbd.Ioctl.Mapping.{update}

-- A SCSI address: path, target and LUN.
pub record Address : Type 0 where
  pub path_id : ℕ
  pub target_id : ℕ
  pub lun : ℕ

-- WnbdFindDeviceByAddr, with Acquire set.
unfoldable pub find_device_by_addr : Extension → Address → Option Disk × Extension
unfolding acquire_found
find_device_by_addr ext at =
    acquire_found ext (find_by_addr at.path_id at.target_id at.lun ext.disks)

-- The device of a disk, changed, and the disk released.
unfoldable pub leave_device : {S : Type 0} → Adapter S → Disk → Device → Adapter S
unfolding release_device
leave_device a d dev = record a {
  ext = release_device a.ext d;
  devices = update a.devices d.connection_id dev;
}
