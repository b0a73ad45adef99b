-- ===== src/Ioctl/Balance.antt =====
-- What a command of user space leaves of the adapter's disks, driver/userspace.c: how a handler can end.
pub mod Holders
pub mod Readers
pub mod Writers
pub mod Whole
use wnbd.Prelude.{
  ℕ, ◌<◌, ◌/◌, ◌^◌, [], ◌+◌, ◌-◌, ◌≡◌, ◌≢◌, ◌≤◌, ◌⊎◌, inl, inr, refl, sym, ap, subst, ◌∙◌, Bool,
  true, false, Option, none, some, List, arith, split-if, Bool-cases, ◌||◌, ◌==◌, if◌then◌else◌,
}
use wnbd.Wdk.{NtStatus}
use wnbd.Request.Send.{Fetch}
use wnbd.Ioctl.{FetchCommand, ReplyCommand}
use wnbd.Ioctl.Query.{
  list_ioctl, enumerate_connections, list_end, required_size, show_ioctl, show_found, stats_ioctl,
  stats_found, version_ioctl,
}
use wnbd.Ioctl.Traffic.{
  caller_of, fetch_end, fetch_found, fetch_ioctl, reply_end, reply_found, reply_ioctl,
}
use wnbd.Connections
use wnbd.Connections.{
  Disk, Extension, find_by_conn_id, find_by_name, create_connection, remove_disk,
}
use wnbd.Options.{Kernel}
use wnbd.Request.Dispatch.{Caller, dispatch_request}
use wnbd.Ioctl.{
  Ioctl, ping, create, remove, fetch_req, send_rsp, list, stats, reload_config, version, show,
  get_drv_opt, set_drv_opt, reset_drv_opt, list_drv_opt, set_disk_size, unknown, Buffer, IoRequest,
  Irp, RawProperties, Answer, IoctlEnv, Outcome, Adapter,
}
use wnbd.Ioctl.Lookup.{
  acquire_device, update_references, acquire_found, release_device, release-acquire,
  find_device_by_name, find_device_by_conn_id,
}
use wnbd.Ioctl.Check.{
  create_command_size, remove_command_size, with_status, name_of, bad_input, bad_output, is_empty,
  base_command_size, stats_command_size, pointer_size, connection_info_size, drv_stats_size,
  version_size,
}
use wnbd.Ioctl.Mapping.{creation_env, properties_of}

-- The commands that leave the disks alone.
abbrev pub IsReader : Ioctl → Type 0
IsReader create = ⊥
IsReader remove = ⊥
IsReader set_disk_size = ⊥
IsReader c = Unit {0}

-- Nobody else holds the disk, or whoever does lets go of it.
abbrev pub IsLetGo : {S : Type 0} → IoctlEnv → Adapter S → Disk → Type 0
IsLetGo env a d =
    ((e : Disk) → find_by_conn_id a.ext d.connection_id ≡ some e → e.references ≡ 0)
    ⊎ (env.others_release ≡ true)

-- Why a command that would change the disks is refused: its buffers are too short, CREATE has bad
-- properties, REMOVE has no name, or no disk has that name, but for one that is being removed.
abbrev pub IsRefused : {S : Type 0} → Ioctl → Irp → Buffer → Adapter S → Type 0
IsRefused create irp b a =
    (irp.input_length < create_command_size)
    ⊎ (irp.output_length < connection_info_size)
    ⊎ (b.properties.flags.use_kernel_nbd ≡ true)
    ⊎ (name_of b.properties.instance_name ≡ [])
    ⊎ (b.properties.block_count ≡ 0)
    ⊎ (b.properties.block_size ≡ 0)
    ⊎ ((2 ^ 64 - 1) / b.properties.block_size < b.properties.block_count)
IsRefused remove irp b a =
    (irp.input_length < remove_command_size)
    ⊎ (name_of b.instance_name ≡ [])
    ⊎ ((d : Disk)
        → find_by_name (name_of b.instance_name) a.ext.disks ≡ some d
        → d.released ≡ false
        → ⊥)
IsRefused set_disk_size irp b a = ⊥
IsRefused c irp b a = Unit {0}

-- What the command `c` with the buffer `b` and the answer `ans` did to the disks: nothing, where the
-- command only reads or the call failed; or the operation of the adapter that the command names.
pub data Effect {S : Type 0} (env : IoctlEnv) (irp : Irp) (c : Ioctl) (b : Buffer) (a : Adapter S)
    (ans : Answer) (ext : Extension) : Type 0 where
  kept :
      ext ≡ a.ext
      → IsReader c ⊎ ((ans.status ≢ NtStatus.success) × IsRefused c irp b a)
      → Effect env irp c b a ans ext
  created :
      c ≡ create
      → (ans.status, ext)
        ≡ create_connection env.find_clear
            (creation_env env a)
            a.ext
            (properties_of irp.pid b.properties)
      → Effect env irp c b a ans ext
  removed :
      (d : Disk)
      → c ≡ remove
      → find_by_name (name_of b.instance_name) a.ext.disks ≡ some d
      → d.released ≡ false
      → IsLetGo env a d
      → ans.status ≡ NtStatus.success
      → ext ≡ remove_disk a.ext d
      → Effect env irp c b a ans ext
  resized :
      c ≡ set_disk_size
      → (ans.status, ext)
        ≡ wnbd.Connections.set_disk_size a.ext b.set_size.connection_id b.set_size.block_count
      → Effect env irp c b a ans ext

-- How a command ends: it returns, holding the lock no more than before; or it waits, in REMOVE for
-- whoever else holds the disk, in FETCH_REQ for a request.
pub data Settles {S : Type 0} (env : IoctlEnv) (irp : Irp) (c : Ioctl) (b : Buffer) (a : Adapter S)
    (r : Outcome S) : Type 0 where
  returned :
      (ans : Answer) (a' : Adapter S)
      → r ≡ some (ans, a')
      → Effect env irp c b a ans a'.ext
      → a'.creation_owners ≡ a.creation_owners
      → Settles env irp c b a r
  waits_removal :
      (d e : Disk)
      → r ≡ none
      → c ≡ remove
      → find_by_name (name_of b.instance_name) a.ext.disks ≡ some d
      → find_by_conn_id a.ext d.connection_id ≡ some e
      → 1 ≤ e.references
      → env.others_release ≡ false
      → Settles env irp c b a r
  waits_request :
      (d : Disk)
      → r ≡ none
      → c ≡ fetch_req
      → find_by_conn_id a.ext b.fetch.connection_id ≡ some d
      → dispatch_request
          (caller_of env irp b.fetch)
          env.fetch_rounds
          (a.devices d.connection_id)
          a.request_handle
          b.fetch.request
          a.memory
        ≡ none
      → Settles env irp c b a r

-- A lookup that acquires finds nothing, or holds a disk that is not being removed.
pub data Found (ext : Extension) (o : Option Disk) (r : Option Disk × Extension) : Type 0 where
  missed : r ≡ (none, ext) → Found ext o r
  held :
      (d : Disk)
      → o ≡ some d
      → d.released ≡ false
      → r ≡ (some d, update_references d.connection_id (λ n. n + 1) ext)
      → Found ext o r

pub acquire_found-Found : (ext : Extension) (o : Option Disk) → Found ext o (acquire_found ext o)
unfolding acquire_found acquire_device
acquire_found-Found ext none = missed refl
acquire_found-Found ext (some d) = elim (Bool-cases d.released) [
  | inl h ↦ missed (ground (arith, h))
  | inr h ↦ held d refl h (ground (arith, h))
]

-- A lookup that finds nothing was not for a disk that can be held.
pub found_missing :
    (ext : Extension) (o : Option Disk) (d : Disk)
    → acquire_found ext o ≡ (none, ext)
    → o ≡ some d
    → d.released ≡ false
    → ⊥
unfolding acquire_found acquire_device
found_missing ext o d h found free = ground (arith, h, found, free)

module _ {S : Type 0} (env : IoctlEnv) (irp : Irp) (c : Ioctl) (b : Buffer) (a : Adapter S) where
  -- An end that changes nothing of the adapter.
  pub unchanged :
      (r : Outcome S) (ans : Answer)
      → r ≡ some (ans, a)
      → IsReader c ⊎ ((ans.status ≢ NtStatus.success) × IsRefused c irp b a)
      → Settles env irp c b a r
  unchanged r ans h why = returned ans a h (kept refl why) refl

  -- What follows a lookup: it keeps the disks if nothing was found, and settles for a disk that is held.
  pub settle_found :
      (k : Option Disk × Extension → Outcome S) (o : Option Disk)
      → (acquire_found a.ext o ≡ (none, a.ext) → Settles env irp c b a (k (none, a.ext)))
      → ((d : Disk)
          → o ≡ some d
          → d.released ≡ false
          → Settles env irp c b a
              (k (some d, update_references d.connection_id (λ n. n + 1) a.ext)))
      → Settles env irp c b a (k (acquire_found a.ext o))
  settle_found k o miss hit = elim (acquire_found-Found a.ext o) [
    | missed e ↦ subst (λ r. Settles env irp c b a (k r)) (sym e) (miss e)
    | held d found free e ↦ subst (λ r. Settles env irp c b a (k r)) (sym e) (hit d found free)
  ]
