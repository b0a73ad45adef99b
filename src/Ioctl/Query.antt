-- ===== src/Ioctl/Query.antt =====
-- The commands of driver/userspace.c that report: IOCTL_WNBD_LIST with WnbdEnumerateActiveConnections,
-- IOCTL_WNBD_SHOW, IOCTL_WNBD_STATS and IOCTL_WNBD_VERSION.
use wnbd.Prelude.{
  ℕ, zero, suc, ◌+◌, ◌-◌, ◌*◌, ◌/◌, ◌^◌, Option, none, some, List, [], ◌∷◌, if◌then◌else◌, ◌||◌,
  length, take,
}
use wnbd.Word.{wrap16, wrap32, wrap64}
use wnbd.Wdk.{NtStatus}
use wnbd.Connections.{Disk, Extension}
use wnbd.Ioctl.{
  Irp, ConnectionInfo, Version, info_output, list_output, stats_output, version_output, no_output,
  IoctlEnv, Outcome, Adapter,
}
use wnbd.Ioctl.Lookup.{find_device_by_name, release_device}
use wnbd.Ioctl.Check.{
  base_command_size, stats_command_size, connection_info_size, connection_list_size, list_head_size,
  drv_stats_size, version_size, pointer_size, bad_input, bad_output, c_string, name_of, is_empty,
  with_status, with_output,
}

-- WNBD_CONNECTION_INFO as LIST and SHOW fill it: the connection id stays zero.
abbrev pub connection_info : {S : Type 0} → Adapter S → Disk → ConnectionInfo
connection_info a d = record {
  properties = d.properties;
  bus_number = wrap16 d.bus;
  target_id = wrap16 d.target;
  lun = wrap16 d.lun;
  connection_id = 0;
  disk_number = a.disk_numbers d.connection_id;
  pnp_device_id = a.pnp_device_ids d.connection_id;
}

-- How many entries the output buffer has room for.
abbrev pub room : Irp → ℕ
room irp = wrap32 (wrap64 (irp.output_length + (2 ^ 64 - list_head_size)) / connection_info_size)

-- The loop: the entries, and the disks that are left, for the room that remains.
unfoldable pub fill_list :
    {S : Type 0} → Adapter S → List Disk → ℕ → List ConnectionInfo × List Disk
fill_list a [] remaining = ([], [])
fill_list a (d ∷ ds) zero = ([], d ∷ ds)
fill_list a (d ∷ ds) (suc remaining) =
    let (entries, left) = fill_list a ds remaining in (connection_info a d ∷ entries, left)

-- WnbdEnumerateActiveConnections: it succeeds once the loop has passed every disk.
unfoldable pub list_end : {S : Type 0} → Adapter S → List ConnectionInfo × List Disk → Outcome S
list_end a (entries, left) =
    with_output (elim left [ [] ↦ NtStatus.success | d ∷ ds ↦ NtStatus.buffer_overflow ])
      (connection_info_size * length entries + list_head_size) (list_output entries) a

unfoldable pub enumerate_connections : {S : Type 0} → Irp → Adapter S → Outcome S
unfolding fill_list list_end
enumerate_connections irp a = list_end a (fill_list a a.ext.disks (room irp))

-- IOCTL_WNBD_LIST: a buffer that is too short gets the size that it needs, with STATUS_SUCCESS.
abbrev pub required_size : Extension → ℕ
required_size ext = wrap32 (ext.device_count * connection_info_size + connection_list_size)

unfoldable pub list_ioctl : {S : Type 0} → Irp → Adapter S → Outcome S
unfolding enumerate_connections
list_ioctl irp a =
    if bad_output irp (required_size a.ext)
    then with_output NtStatus.success (required_size a.ext) no_output a
    else enumerate_connections irp a

-- The disk that SHOW found, which it releases.
unfoldable pub show_found : {S : Type 0} → Irp → Adapter S → Option Disk × Extension → Outcome S
unfolding release_device
show_found irp a (none, ext) =
    with_status irp NtStatus.object_name_not_found (record a { ext = ext })
show_found irp a (some d, ext) =
    with_output NtStatus.success connection_info_size (info_output (connection_info a d))
      (record a { ext = release_device ext d })

-- IOCTL_WNBD_SHOW: the input is compared with the size of a pointer.
unfoldable pub show_ioctl : {S : Type 0} → Irp → List ℕ → Adapter S → Outcome S
unfolding c_string find_device_by_name show_found
show_ioctl irp raw a =
    if bad_input irp pointer_size || is_empty (name_of raw)
    then with_status irp NtStatus.invalid_parameter a
    else if bad_output irp connection_info_size
    then with_status irp NtStatus.buffer_overflow a
    else show_found irp a (find_device_by_name a.ext (name_of raw))

unfoldable pub stats_found : {S : Type 0} → Irp → Adapter S → Option Disk × Extension → Outcome S
unfolding release_device
stats_found irp a (none, ext) =
    with_status irp NtStatus.object_name_not_found (record a { ext = ext })
stats_found irp a (some d, ext) =
    with_output NtStatus.success drv_stats_size (stats_output (a.devices d.connection_id).stats)
      (record a { ext = release_device ext d })

-- IOCTL_WNBD_STATS
unfoldable pub stats_ioctl : {S : Type 0} → Irp → List ℕ → Adapter S → Outcome S
unfolding c_string find_device_by_name stats_found
stats_ioctl irp raw a =
    if bad_input irp stats_command_size || is_empty (name_of raw)
    then with_status irp NtStatus.invalid_parameter a
    else if bad_output irp drv_stats_size
    then with_status irp NtStatus.buffer_overflow a
    else stats_found irp a (find_device_by_name a.ext (name_of raw))

-- IOCTL_WNBD_VERSION: the description is cut to WNBD_MAX_VERSION_STR_LENGTH - 1 characters.
abbrev pub reported_version : Version → Version
reported_version v = record v { description = take 127 v.description }

unfoldable pub version_ioctl : {S : Type 0} → IoctlEnv → Irp → Adapter S → Outcome S
version_ioctl env irp a =
    if bad_input irp base_command_size
    then with_status irp NtStatus.invalid_parameter a
    else if bad_output irp version_size
    then with_status irp NtStatus.buffer_overflow a
    else with_output NtStatus.success version_size (version_output (reported_version env.build)) a
