-- ===== src/Ioctl/Check.antt =====
-- What the handlers of driver/userspace.c share: the sizes of the structures, the tests of the buffer
-- lengths, names, and the ends of a call.
use wnbd.Prelude.{
  ℕ, ◌+◌, ◌*◌, Bool, none, some, ◌||◌, List, [], ◌∷◌, ◌==◌, ltb, if◌then◌else◌, length, take,
}
use wnbd.Wdk.{NtStatus}
use wnbd.Ioctl.{
  Ioctl, ping, create, remove, fetch_req, send_rsp, list, stats, reload_config, version, show,
  get_drv_opt, set_drv_opt, reset_drv_opt, list_drv_opt, set_disk_size, unknown, Irp, Output,
  no_output, Outcome, Adapter,
}

-- The IOCTL_WNBD_* values.
abbrev pub ioctl_of : ℕ → Ioctl
ioctl_of n =
    if n == 1
    then ping
    else if n == 2
    then create
    else if n == 3
    then remove
    else if n == 4
    then fetch_req
    else if n == 5
    then send_rsp
    else if n == 6
    then list
    else if n == 7
    then stats
    else if n == 8
    then reload_config
    else if n == 9
    then version
    else if n == 10
    then show
    else if n == 11
    then get_drv_opt
    else if n == 12
    then set_drv_opt
    else if n == 13
    then reset_drv_opt
    else if n == 14
    then list_drv_opt
    else if n == 15
    then set_disk_size
    else unknown

-- sizeof, in bytes, and that of any pointer.
abbrev pub base_command_size : ℕ
base_command_size = 4

abbrev pub create_command_size : ℕ
create_command_size = 1408

abbrev pub remove_command_size : ℕ
remove_command_size = 376

abbrev pub stats_command_size : ℕ
stats_command_size = 292

abbrev pub fetch_command_size : ℕ
fetch_command_size = 128

abbrev pub get_opt_command_size : ℕ
get_opt_command_size = 552

abbrev pub set_opt_command_size : ℕ
set_opt_command_size = 1144

abbrev pub connection_info_size : ℕ
connection_info_size = 2032

abbrev pub connection_list_size : ℕ
connection_list_size = 2040

-- RTL_SIZEOF_THROUGH_FIELD(WNBD_CONNECTION_LIST, Count)
abbrev pub list_head_size : ℕ
list_head_size = 8

abbrev pub drv_stats_size : ℕ
drv_stats_size = 192

abbrev pub version_size : ℕ
version_size = 396

abbrev pub option_value_size : ℕ
option_value_size = 584

abbrev pub pointer_size : ℕ
pointer_size = 8

-- Where InstanceName, at byte 4, and the first WNBD_MAX_OPT_NAME_LENGTH characters of Name end.
abbrev pub name_end : ℕ
name_end = 260

abbrev pub opt_name_end : ℕ
opt_name_end = 132

-- How much of the system buffer an output takes: whole structures, and for a list its head and its
-- elements.
unfoldable pub output_size : Output → ℕ
output_size Output.no_output = 0
output_size (Output.info_output i) = connection_info_size
output_size (Output.list_output l) = list_head_size + connection_info_size * length l
output_size (Output.stats_output s) = drv_stats_size
output_size (Output.version_output v) = version_size
output_size (Output.value_output v) = option_value_size
output_size (Output.options_output l) = 8 + 1368 * length l
output_size (Output.fetch_output r p) = fetch_command_size

-- CHECK_I_LOCATION, CHECK_O_LOCATION and CHECK_O_LOCATION_SZ: the buffer is too short.
abbrev pub bad_input : Irp → ℕ → Bool
bad_input irp size = ltb irp.input_length size

abbrev pub bad_output : Irp → ℕ → Bool
bad_output irp size = ltb irp.output_length size

-- The characters before the first NUL.
unfoldable pub c_string : List ℕ → List ℕ
c_string [] = []
c_string (c ∷ cs) = let rest = c_string cs in if c == 0 then [] else c ∷ rest

-- A name whose last character is overwritten with NUL: WNBD_MAX_NAME_LENGTH, and
-- WNBD_MAX_OPT_NAME_LENGTH for the name of an option.
abbrev pub name_of : List ℕ → List ℕ
name_of raw = c_string (take 255 raw)

abbrev pub opt_name_of : List ℕ → List ℕ
opt_name_of raw = c_string (take 63 raw)

abbrev pub is_empty : List ℕ → Bool
is_empty name = length name == 0

-- A status, IoStatus.Information untouched; and a status with the output and its size.
abbrev pub with_status : {S : Type 0} → Irp → NtStatus → Adapter S → Outcome S
with_status irp status a = some (
  record { status = status; information = irp.information; output = no_output; overwritten = 0 },
  a,
)

abbrev pub with_output : {S : Type 0} → NtStatus → ℕ → Output → Adapter S → Outcome S
with_output status size output a =
    some (record { status = status; information = size; output = output; overwritten = 0 }, a)

-- Up to which byte a handler writes into its command: those that take a name overwrite its last
-- character with NUL, once they have tested the length of the input, which SHOW compares with the size
-- of a pointer. CREATE does so in a copy.
unfoldable pub overwritten_to : Ioctl → Irp → ℕ
overwritten_to remove irp = if bad_input irp remove_command_size then 0 else name_end
overwritten_to show irp = if bad_input irp pointer_size then 0 else name_end
overwritten_to stats irp = if bad_input irp stats_command_size then 0 else name_end
overwritten_to get_drv_opt irp =
    if bad_input irp get_opt_command_size || bad_output irp option_value_size
    then 0
    else opt_name_end
overwritten_to set_drv_opt irp = if bad_input irp set_opt_command_size then 0 else opt_name_end
overwritten_to reset_drv_opt irp = if bad_input irp get_opt_command_size then 0 else opt_name_end
overwritten_to _ irp = 0

-- The end of a call whose handler wrote into the command.
unfoldable pub overwriting : {S : Type 0} → ℕ → Outcome S → Outcome S
overwriting n none = none
overwriting n (some (ans, a)) = some (record ans { overwritten = n }, a)
