-- ===== src/Examples/Miniports.antt =====
-- The theorems on what StorPort and the PnP manager call, at concrete inputs: an adapter with one disk.
use wnbd.Prelude.{true, false, none, []}
use wnbd.Wdk.{NtStatus}
use wnbd.Miniport.{Address}
use wnbd.Miniport.Firmware.{
  Layout, IoControl, IsInside, process_srb_ioctl, process_srb_ioctl-IsInside,
}
use wnbd.Miniport.StartIo.{execute_function, Request, StartEnv}
use wnbd.Miniport.StartIo.Ends
use wnbd.Miniport.Pnp.{remove_device, PnpRequest, Plug, dispatch_pnp}
use wnbd.Miniport.Pnp.Targets
use wnbd.Miniport.Pnp.Removes.{dispatch_pnp-Ends}
use wnbd.Examples.{options, pend_env, read_srb}
use wnbd.Examples.Settings.{Stored}
use wnbd.Examples.Ioctls.{env, created}

-- Sizes as on a 64-bit system.
abbrev layout : Layout
layout = record {
  io_control_size = 28;
  request_size = 24;
  info_size = 24;
  slot_size = 28;
  request_version = 1;
  info_version = 2;
}

-- A query with room for the information and its slot.
abbrev control : IoControl
control = record {
  is_firmware = true;
  length = 128;
  version = 1;
  is_get_info = true;
  data_buffer_offset = 56;
  data_buffer_length = 64;
  info_version_at = λ i. 2;
  info_size_at = λ i. 24;
}

process_srb_ioctl-IsInside_example : IsInside layout control (process_srb_ioctl layout control)
process_srb_ioctl-IsInside_example = process_srb_ioctl-IsInside layout control

abbrev address : Address
address = record { path_id = 0; target_id = 0; lun = 0 }

abbrev start_env : StartEnv
start_env = record {
  pend = pend_env;
  drain = options;
  now = 50;
  layout = layout;
  capabilities_size = 16;
}

abbrev request : Request
request = record {
  function = execute_function;
  address = address;
  srb = read_srb;
  pnp = record { is_query_capabilities = false; is_adapter_request = false };
  control = control;
}

abbrev pnp_request : PnpRequest
pnp_request = record {
  minor = remove_device;
  device_object = 77;
  scsi_address = (NtStatus.success, address);
  disk_number = none;
  instance_path = (NtStatus.success, []);
}

abbrev plug : Plug Stored
plug = record { adapter = created; has_extension = true; pdos = λ id. 77 }

dispatch_pnp-Ends_example :
    wnbd.Miniport.Pnp.Targets.Ends env pnp_request plug (dispatch_pnp env pnp_request plug)
dispatch_pnp-Ends_example = dispatch_pnp-Ends env pnp_request plug
