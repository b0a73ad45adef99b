-- ===== src/Ioctl/Mapping.antt =====
-- IOCTL_WNBD_CREATE, IOCTL_WNBD_REMOVE and IOCTL_WNBD_SET_DISK_SIZE of driver/userspace.c, with
-- WnbdDeleteConnection, WnbdDisconnectSync (driver/util.c) and the monitor thread that it waits for.
use wnbd.Prelude.{
  ℕ, ◌+◌, ◌-◌, ◌/◌, ◌^◌, Bool, true, false, not, ◌||◌, Option, none, some, List, [], ◌∷◌, ◌++◌,
  ◌==◌, ltb, if◌then◌else◌, length, take, drop, get_or,
}
use wnbd.Wdk.{NtStatus, is_failure}
use wnbd.Types.{Properties, Stats, Device}
use wnbd.Options.{DriverOption}
use wnbd.Request.Initialize.{initialize_device}
use wnbd.Request.Complete.{drain_both}
use wnbd.Connections.{
  Disk, Extension, CreateEnv, find_by_conn_id, create_connection, set_disk_size, remove_disk,
}
use wnbd.Ioctl.{
  RawProperties, SetSizeCommand, Irp, ConnectionInfo, Output, no_output, info_output, IoctlEnv,
  Outcome, Adapter,
}
use wnbd.Ioctl.Lookup.{find_device_by_name, release_device}
use wnbd.Ioctl.Check.{
  create_command_size, remove_command_size, connection_info_size, bad_input, bad_output, c_string,
  name_of, is_empty, with_status, with_output,
}

-- WnbdDriverOptions[OptNewMappingsAllowed].Value.Data.AsBool
unfoldable pub mappings_allowed : List DriverOption → Bool
mappings_allowed (level ∷ allowed ∷ rest) = not (get_or allowed.value.data_bytes 0 0 == 0)
mappings_allowed _ = false

-- The serial number: if it is empty, the name's characters, without a NUL, are copied over it.
unfoldable pub serial_of : List ℕ → List ℕ → List ℕ
unfolding c_string
serial_of name raw =
    let serial = take 255 raw in
    if is_empty (c_string serial)
    then c_string (name ++ drop (length name) serial)
    else c_string serial

-- The properties after the serial number and the process id were filled in.
unfoldable pub properties_of : ℕ → RawProperties → Properties
unfolding serial_of c_string
properties_of pid raw = record {
  instance_name = name_of raw.instance_name;
  serial_number = serial_of (name_of raw.instance_name) raw.serial_number;
  flags = raw.flags;
  block_count = raw.block_count;
  block_size = raw.block_size;
  pid = if raw.pid == 0 then pid else raw.pid;
  naa_identifier = raw.naa_identifier;
}

abbrev zero_counters : Stats
zero_counters = record {
  total_received_requests = 0;
  total_submitted_requests = 0;
  total_received_replies = 0;
  unsubmitted_requests = 0;
  pending_submitted_requests = 0;
  aborted_submitted_requests = 0;
  aborted_unsubmitted_requests = 0;
  completed_aborted_requests = 0;
  outstanding_io_count = 0;
  last_received_req_timestamp = 0;
  last_submitted_req_timestamp = 0;
  last_reply_timestamp = 0;
}

-- The device as WnbdCreateConnection allocates it, with its properties and its connection id.
unfoldable pub allocated_device : Properties → ℕ → Device
allocated_device p id = record {
  properties = p;
  connection_id = id;
  pending = [];
  submitted = [];
  buckets = λ b. [];
  pool = [];
  device_event = 0;
  hard_remove = false;
  removal_event = false;
  stats = zero_counters;
  notified = [];
  freed = [];
}

-- The disk number -1, as its 32-bit pattern, until the disk starts.
abbrev pub no_disk_number : ℕ
no_disk_number = 2 ^ 32 - 1

-- A function, changed at one argument.
abbrev pub update {ℓ} : {A : Type ℓ} → (ℕ → A) → ℕ → A → ℕ → A
update f i a j = if j == i then a else f j

-- WNBD_CONNECTION_INFO of a new disk.
abbrev pub created_info : Disk → ConnectionInfo
created_info d = record {
  properties = d.properties;
  bus_number = d.bus;
  target_id = d.target;
  lun = d.lun;
  connection_id = d.connection_id;
  disk_number = 0;
  pnp_device_id = [];
}

-- The disk that was added is the one that its connection id finds.
abbrev pub created_output : Option Disk → Output
created_output none = no_output
created_output (some d) = info_output (created_info d)

abbrev pub hold_creation : {S : Type 0} → Adapter S → Adapter S
hold_creation a = record a { creation_owners = a.creation_owners + 1 }

abbrev pub release_creation : {S : Type 0} → Adapter S → Adapter S
release_creation a = record a { creation_owners = a.creation_owners - 1 }

-- Who else holds the disk of a connection id.
abbrev pub references_of : Option Disk → ℕ
references_of none = 0
references_of (some d) = d.references

module _ {S : Type 0} (env : IoctlEnv) where
  -- What CREATE makes of the result of WnbdCreateConnection.
  unfoldable pub create_end : Irp → Properties → Adapter S → NtStatus × Extension → Outcome S
  unfolding find_by_conn_id initialize_device allocated_device
  create_end irp p a (status, ext) =
      let id = ext.last_connection_id in
      if is_failure status
      then with_status irp status (release_creation (record a { ext = ext }))
      else with_output status connection_info_size (created_output (find_by_conn_id ext id)) (
          release_creation (record a {
            ext = ext;
            devices =
                update a.devices id
                  (initialize_device true env.pool_allocs (allocated_device p id)).1;
            disk_numbers = update a.disk_numbers id no_disk_number;
            pnp_device_ids = update a.pnp_device_ids id [];
          }))

  -- The driver's option decides whether new mappings are allowed.
  abbrev pub creation_env : Adapter S → CreateEnv
  creation_env a = record env.creation { new_mappings_allowed = mappings_allowed a.options }

  -- The properties are good: the disk is created while the lock is held.
  unfoldable pub create_disk : Irp → Properties → Adapter S → Outcome S
  unfolding create_connection create_end mappings_allowed
  create_disk irp p a =
      let a' = hold_creation a in
      create_end irp p a' (create_connection env.find_clear (creation_env a') a'.ext p)

  -- The checks of the properties.
  unfoldable pub create_checked : Irp → RawProperties → Adapter S → Outcome S
  unfolding c_string properties_of create_disk
  create_checked irp raw a =
      if raw.flags.use_kernel_nbd || is_empty (name_of raw.instance_name)
      then with_status irp NtStatus.invalid_parameter a
      else if raw.block_count == 0
          || raw.block_size == 0
          || ltb ((2 ^ 64 - 1) / raw.block_size) raw.block_count
      then with_status irp NtStatus.invalid_parameter a
      else create_disk irp (properties_of irp.pid raw) a

  -- IOCTL_WNBD_CREATE
  unfoldable pub create_ioctl : Irp → RawProperties → Adapter S → Outcome S
  unfolding create_checked
  create_ioctl irp raw a =
      if bad_input irp create_command_size || bad_output irp connection_info_size
      then with_status irp NtStatus.invalid_parameter a
      else create_checked irp raw a

  -- WnbdDeviceMonitorThread, once its event is set and nobody holds the disk.
  unfoldable pub monitor_end : Disk → Adapter S → Adapter S
  unfolding drain_both remove_disk
  monitor_end d a =
      let dev = a.devices d.connection_id in
      let dev' = record dev { hard_remove = true; removal_event = true } in
      record a {
        ext = remove_disk a.ext d;
        devices = update a.devices d.connection_id (drain_both false env.drain env.now dev');
      }

  -- WnbdDisconnectSync: the event is set, the disk released; the call waits for the monitor thread,
  -- which waits for whoever else holds the disk.
  unfoldable pub disconnect_sync : Disk → Adapter S → Option (Adapter S)
  unfolding release_device find_by_conn_id monitor_end
  disconnect_sync d a =
      let dev = record (a.devices d.connection_id) { removal_event = true } in
      let ext = release_device a.ext d in
      let a' = record a { ext = ext; devices = update a.devices d.connection_id dev } in
      if references_of (find_by_conn_id ext d.connection_id) == 0 || env.others_release
      then some (monitor_end d a')
      else none

  unfoldable pub delete_end : Irp → Option (Adapter S) → Outcome S
  delete_end irp none = none
  delete_end irp (some a) = with_status irp NtStatus.success a

  -- WnbdDeleteConnection
  unfoldable pub delete_found : Irp → Adapter S → Option Disk × Extension → Outcome S
  unfolding disconnect_sync delete_end
  delete_found irp a (none, ext) =
      with_status irp NtStatus.object_name_not_found (record a { ext = ext })
  delete_found irp a (some d, ext) = delete_end irp (disconnect_sync d (record a { ext = ext }))

  unfoldable pub delete_connection : Irp → List ℕ → Adapter S → Outcome S
  unfolding find_device_by_name delete_found
  delete_connection irp name a = delete_found irp a (find_device_by_name a.ext name)

  -- IOCTL_WNBD_REMOVE
  unfoldable pub remove_ioctl : Irp → List ℕ → Adapter S → Outcome S
  unfolding c_string delete_connection
  remove_ioctl irp raw a =
      if bad_input irp remove_command_size || is_empty (name_of raw)
      then with_status irp NtStatus.invalid_parameter a
      else delete_connection irp (name_of raw) a

-- IOCTL_WNBD_SET_DISK_SIZE, which does not check its buffer.
unfoldable pub resize_end : {S : Type 0} → Irp → Adapter S → NtStatus × Extension → Outcome S
resize_end irp a (status, ext) = with_status irp status (record a { ext = ext })

unfoldable pub resize_ioctl : {S : Type 0} → Irp → SetSizeCommand → Adapter S → Outcome S
unfolding set_disk_size resize_end
resize_ioctl irp cmd a = resize_end irp a (set_disk_size a.ext cmd.connection_id cmd.block_count)
