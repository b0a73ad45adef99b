-- ===== src/Miniport/Cleanup.antt =====
-- WnbdCleanupAllDevices of driver/util.c, which WnbdHwAdapterControl and WnbdHwFreeAdapterResources of
-- driver/scsi_driver_extensions.c call. GlobalDeviceRemovalEvent is a synchronization event: setting it
-- wakes one of the monitor threads that wait for it, and resets it. Which one is an argument.
use wnbd.Prelude.{
  ◌+◌, ◌≤◌, ◌≡◌, ◌≢◌, refl, ap, true, ◌||◌, Option, none, some, List, [], ◌∷◌, ◌==◌, length, arith,
  if◌then◌else◌,
}
use wnbd.Connections.{Disk, find_in_bucket, remove_id, remove_disk}
use wnbd.Connections.Pairs.{length-remove}
use wnbd.Connections.Invariant.{IsConsistent}
use wnbd.Ioctl.{IoctlEnv, Adapter}
use wnbd.Ioctl.Mapping.{monitor_end}

module _ {S : Type 0} (env : IoctlEnv) where
  -- The monitor thread of one disk runs, once nobody holds the disk.
  unfoldable pub wake_one : Option Disk → Adapter S → Adapter S
  unfolding monitor_end
  wake_one none a = a
  wake_one (some d) a = if d.references == 0 || env.others_release then monitor_end env d a else a

  -- WnbdCleanupAllDevices up to its wait, which is over at once or not: `none` where the adapter still has
  -- references once the woken thread is done. Who gives them up later is not modelled.
  unfoldable pub cleanup_all_devices : (List Disk → Option Disk) → Adapter S → Option (Adapter S)
  unfolding wake_one
  cleanup_all_devices wake a =
      let a' = wake_one (wake a.ext.disks) a in if a'.ext.references == 0 then some a' else none

-- The kernel wakes a thread that waits, if one does.
pub record IsWake (wake : List Disk → Option Disk) : Type 0 where
  pub empty : wake [] ≡ none
  pub waiting :
      (ds : List Disk)
      → ds ≢ []
      → (d : Disk) × (wake ds ≡ some d) × (find_in_bucket d.connection_id ds ≡ some d)

-- A thread that runs to its end takes one disk from a list, and one reference.
wake_one-references :
    {S : Type 0}
    → (env : IoctlEnv) (o : Option Disk) (a : Adapter S)
    → a.ext.references ≤ (wake_one env o a).ext.references + 1
unfolding wake_one monitor_end remove_disk
wake_one-references env none a = omega arith
wake_one-references env (some d) a = ground arith

last_disk : (ds : List Disk) → length ds + 1 ≡ 1 → ds ≡ []
last_disk [] h = refl
last_disk (d ∷ ds) h = ground (arith, h)

cleanup-last :
    {S : Type 0}
    → (env : IoctlEnv) (wake : List Disk → Option Disk) (a : Adapter S) (d : Disk)
    → wake a.ext.disks ≡ some d
    → env.others_release ≡ true
    → a.ext.references ≡ 1
    → cleanup_all_devices env wake a ≡ some (monitor_end env d a)
unfolding cleanup_all_devices wake_one monitor_end remove_disk
cleanup-last env wake a d w o refs = ground (arith, w, o, refs)

emptied :
    {S : Type 0}
    → (env : IoctlEnv) (a : Adapter S) (d : Disk) → IsConsistent a.ext
    → a.ext.device_count ≡ 1
    → find_in_bucket d.connection_id a.ext.disks ≡ some d
    → (monitor_end env d a).ext.disks ≡ []
unfolding monitor_end remove_disk
emptied env a d c count found =
    last_disk (remove_id d.connection_id a.ext.disks)
      (omega (arith, length-remove d.connection_id a.ext.disks d found, c.counted, count))

uncounted :
    {S : Type 0}
    → (env : IoctlEnv) (a : Adapter S) (d : Disk) → a.ext.device_count ≡ 1
    → (monitor_end env d a).ext.device_count ≡ 0
unfolding monitor_end remove_disk
uncounted env a d count = omega (arith, count)

-- WnbdCleanupAllDevices on consistent disks, where whoever else holds a disk lets go of it. If the
-- adapter has at least two references, the one wake does not end its wait. If it has one, held by its
-- only disk, it does, and no disk is left.
pub cleanup_all_devices-returns :
    {S : Type 0}
    → (env : IoctlEnv) (wake : List Disk → Option Disk) (a : Adapter S) → IsWake wake
    → IsConsistent a.ext
    → env.others_release ≡ true
    → (2 ≤ a.ext.references → cleanup_all_devices env wake a ≡ none)
      × (a.ext.references ≡ 1
          → a.ext.device_count ≡ 1
          → (a' : Adapter S) × (cleanup_all_devices env wake a ≡ some a')
            × (a'.ext.disks ≡ [])
            × (a'.ext.device_count ≡ 0))
unfolding cleanup_all_devices
cleanup_all_devices-returns env wake a w c o = (
  (λ many. ground (arith, many, wake_one-references env (wake a.ext.disks) a)),
  (λ refs count.
      let there : a.ext.disks ≢ [] = λ e. ground (arith, c.counted, count, ap (λ l. length l) e) in
      let (d, woken, found) = w.waiting a.ext.disks there in
      (
        monitor_end env d a,
        cleanup-last env wake a d woken o refs,
        emptied env a d c count found,
        uncounted env a d count,
      )),
)
