-- ===== src/Ioctl.antt =====
-- The commands of user space: WnbdParseUserIOCTL of driver/userspace.c, its buffer (include/wnbd_ioctl.h)
-- and the lookups of driver/util.c that hold the disk. A call runs as one step; what it waits for, and
-- what the kernel answers, is an argument.
pub mod Lookup
pub mod Check
pub mod Mapping
pub mod Query
pub mod Traffic
pub mod Setting
pub mod Parse
pub mod Balance
pub mod Bounds
pub mod Invariant
pub mod Listing
pub mod Created
use wnbd.Prelude.{ℕ, Bool, Option, List}
use wnbd.Wdk.{NtStatus}
use wnbd.Types.{Flags, Properties, Stats, Device, IoRequest, Payload}
use wnbd.Connections.{Extension, CreateEnv}
use wnbd.Options.{OptValue, DriverOption}
use wnbd.Request.Complete.{DrainOptions}
use wnbd.Request.Memory.{Memory}
use wnbd.Request.Send.{Round}
use wnbd.Request.Response.{Reply, ReplyEnv}

-- IOCTL_WNBD_*
pub data Ioctl : Type 0 where
  ping create remove fetch_req send_rsp list stats reload_config version show : Ioctl
  get_drv_opt set_drv_opt reset_drv_opt list_drv_opt set_disk_size unknown : Ioctl

-- WNBD_PROPERTIES as it arrives: a name is its array of characters.
pub record RawProperties : Type 0 where
  pub instance_name : List ℕ
  pub serial_number : List ℕ
  pub flags : Flags
  pub block_count : ℕ
  pub block_size : ℕ
  pub pid : ℕ
  pub naa_identifier : List ℕ

-- WNBD_IOCTL_SET_SIZE_COMMAND
pub record SetSizeCommand : Type 0 where
  pub connection_id : ℕ
  pub block_count : ℕ

-- WNBD_IOCTL_FETCH_REQ_COMMAND
pub record FetchCommand : Type 0 where
  pub connection_id : ℕ
  pub request : IoRequest
  pub data_buffer_size : ℕ

-- WNBD_IOCTL_SEND_RSP_COMMAND
pub record ReplyCommand : Type 0 where
  pub connection_id : ℕ
  pub reply : Reply

-- WNBD_IOCTL_GET_DRV_OPT_COMMAND and WNBD_IOCTL_RESET_DRV_OPT_COMMAND, of one layout.
pub record OptCommand : Type 0 where
  pub name : List ℕ
  pub persistent : Bool

-- WNBD_IOCTL_SET_DRV_OPT_COMMAND
pub record SetOptCommand : Type 0 where
  pub name : List ℕ
  pub value : OptValue
  pub persistent : Bool

-- The system buffer, as each command reads it. `instance_name` is that of the commands REMOVE, STATS
-- and SHOW, `list_persistent` the flag of LIST_DRV_OPT, `value` what lies where GET_DRV_OPT writes.
pub record Buffer : Type 0 where
  pub io_control_code : ℕ
  pub properties : RawProperties
  pub instance_name : List ℕ
  pub set_size : SetSizeCommand
  pub fetch : FetchCommand
  pub send : ReplyCommand
  pub opt : OptCommand
  pub value : OptValue
  pub set_opt : SetOptCommand
  pub list_persistent : Bool

-- The IRP and its stack location. `is_service_irp` says that the code of the stack location is
-- IOCTL_MINIPORT_PROCESS_SERVICE_IRP, `information` is IoStatus.Information as the call begins.
pub record Irp : Type 0 where
  pub is_service_irp : Bool
  pub system_buffer : Option Buffer
  pub input_length : ℕ
  pub output_length : ℕ
  pub information : ℕ
  pub pid : ℕ

-- WNBD_CONNECTION_INFO
pub record ConnectionInfo : Type 0 where
  pub properties : Properties
  pub bus_number : ℕ
  pub target_id : ℕ
  pub lun : ℕ
  pub connection_id : ℕ
  pub disk_number : ℕ
  pub pnp_device_id : List ℕ

-- WNBD_VERSION
pub record Version : Type 0 where
  pub major : ℕ
  pub minor : ℕ
  pub patch : ℕ
  pub description : List ℕ

-- What a command writes to the system buffer.
pub data Output : Type 0 where
  no_output : Output
  info_output : ConnectionInfo → Output
  -- WNBD_CONNECTION_LIST
  list_output : List ConnectionInfo → Output
  stats_output : Stats → Output
  version_output : Version → Output
  value_output : OptValue → Output
  -- WNBD_OPTION_LIST
  options_output : List DriverOption → Output
  fetch_output : IoRequest → Payload → Output

-- The status that is returned, IoStatus.Information and the system buffer after the call. `overwritten`
-- says up to which byte the handler wrote into the command itself, where it terminates a name.
pub record Answer : Type 0 where
  pub status : NtStatus
  pub information : ℕ
  pub output : Output
  pub overwritten : ℕ

-- What a command changes. `devices`, `disk_numbers` and `pnp_device_ids` hold the rest of each disk, by
-- connection id; `creation_owners` counts the shared owners of DeviceCreationLock, which nothing takes
-- exclusively; `S` is the registry's state.
pub record Adapter (S : Type 0) : Type 0 where
  pub ext : Extension
  pub devices : ℕ → Device
  pub disk_numbers : ℕ → ℕ
  pub pnp_device_ids : ℕ → List ℕ
  pub request_handle : ℕ
  pub memory : Memory
  pub options : List DriverOption
  pub registry : S
  pub creation_owners : ℕ

-- What the environment answers. `others_release` says whether whoever else holds the disk that is
-- removed lets go of it; `fetch_rounds` is how long a fetch is followed; `build` are the constants of
-- the generated version.h.
pub record IoctlEnv : Type 0 where
  pub find_clear : (ℕ → Bool) → Option ℕ
  pub creation : CreateEnv
  pub pool_allocs : List (Option ℕ)
  pub others_release : Bool
  pub drain : DrainOptions
  pub now : ℕ
  pub fetch_rounds : List Round
  pub removed_at_exit : Bool
  pub answer : ReplyEnv
  pub build : Version

-- A call that returns, or `none` where it still waits.
abbrev pub Outcome : Type 0 → Type 0
Outcome S = Option (Answer × Adapter S)
