-- ===== src/Ioctl/Created.antt =====
-- IOCTL_WNBD_CREATE of driver/userspace.c from the command to a device that is ready for requests.
use wnbd.Prelude.{ℕ, ◌≡◌, ◌≢◌, true, false, some, []}
use wnbd.Wdk.{NtStatus, is_failure}
use wnbd.Types.{Properties}
use wnbd.Lifecycle.{Reach}
use wnbd.Connections.{Extension, create_connection}
use wnbd.Connections.Create.{IsUntouched, IsAdded}
use wnbd.Ioctl.{RawProperties, ConnectionInfo, Irp, Answer, info_output, IoctlEnv, Outcome, Adapter}
use wnbd.Ioctl.Check.{is_empty, name_of}
use wnbd.Ioctl.Mapping.{mappings_allowed, properties_of, creation_env, hold_creation}

-- What the caller reads: the properties, the SCSI address 0:bit:0 and the connection id.
abbrev pub IsReported : Properties → ℕ → ℕ → ConnectionInfo → Type 0
IsReported p bit id info =
    (info.properties ≡ p)
    × (info.bus_number ≡ 0)
    × (info.target_id ≡ bit)
    × (info.lun ≡ 0)
    × (info.connection_id ≡ id)

-- How CREATE ends: an error, and the disks and the bitmap are as before; or one more disk.
pub data Mapped {S : Type 0} (raw : RawProperties) (irp : Irp) (a : Adapter S) (r : Outcome S)
    : Type 0 where
  turned_down :
      (ans : Answer) (a' : Adapter S)
      → r ≡ some (ans, a')
      → ans.status ≢ NtStatus.success
      → IsUntouched a.ext a'.ext
      → Mapped raw irp a r
  mapped :
      (ans : Answer) (a' : Adapter S) (bit : ℕ)
      → r ≡ some (ans, a')
      → ans.status ≡ NtStatus.success
      → mappings_allowed a.options ≡ true
      → is_empty (name_of raw.instance_name) ≡ false
      → IsAdded (properties_of irp.pid raw) a.ext a'.ext bit
      → (info : ConnectionInfo) → ans.output ≡ info_output info
      → IsReported (properties_of irp.pid raw) bit a'.ext.last_connection_id info
      → Reach [] [] (a'.devices a'.ext.last_connection_id)
      → Mapped raw irp a r

failed_status : (status : NtStatus) → is_failure status ≡ true → status ≢ NtStatus.success
failed_status status h e = cc

module _ {S : Type 0} (env : IoctlEnv) (irp : Irp) (a : Adapter S) (raw : RawProperties) where
  abbrev connected : NtStatus × Extension
  connected =
      create_connection env.find_clear (creation_env env (hold_creation a)) a.ext
        (properties_of irp.pid raw)
