-- ===== src/Ioctl/Traffic.antt =====
-- IOCTL_WNBD_FETCH_REQ and IOCTL_WNBD_SEND_RSP of driver/userspace.c: the disk is held while
-- driver/wnbd_dispatch.c works for it.
use wnbd.Prelude.{◌||◌, Option, none, some, if◌then◌else◌}
use wnbd.Wdk.{NtStatus}
use wnbd.Types.{Device}
use wnbd.Connections.{Disk, Extension}
use wnbd.Request.Memory.{Memory}
use wnbd.Request.Send.{Fetch}
use wnbd.Request.Dispatch.{Caller, dispatch_request}
use wnbd.Request.Response.{handle_response}
use wnbd.Ioctl.{FetchCommand, ReplyCommand, Irp, fetch_output, IoctlEnv, Outcome, Adapter}
use wnbd.Ioctl.Lookup.{find_device_by_conn_id, release_device}
use wnbd.Ioctl.Check.{
  fetch_command_size, pointer_size, bad_input, bad_output, with_status, with_output,
}
use wnbd.Ioctl.Mapping.{update}

abbrev pub caller_of : IoctlEnv → Irp → FetchCommand → Caller
caller_of env irp cmd = record {
  pid = irp.pid;
  removed_at_exit = env.removed_at_exit;
  data_buffer_size = cmd.data_buffer_size;
}

module _ {S : Type 0} (env : IoctlEnv) where
  -- WnbdDispatchRequest returned: the disk is released.
  unfoldable pub fetch_end : Disk → Adapter S → Option Fetch → Outcome S
  unfolding release_device
  fetch_end d a none = none
  fetch_end d a (some f) =
      with_output f.status fetch_command_size (fetch_output f.request f.payload) (record a {
        ext = release_device a.ext d;
        devices = update a.devices d.connection_id f.device;
        request_handle = f.request_handle;
        memory = f.memory;
      })

  unfoldable pub fetch_found : Irp → FetchCommand → Adapter S → Option Disk × Extension → Outcome S
  unfolding dispatch_request fetch_end
  fetch_found irp cmd a (none, ext) =
      with_status irp NtStatus.invalid_handle (record a { ext = ext })
  fetch_found irp cmd a (some d, ext) =
      fetch_end d (record a { ext = ext })
        (dispatch_request (caller_of env irp cmd) env.fetch_rounds (a.devices d.connection_id)
          a.request_handle cmd.request a.memory)

  -- IOCTL_WNBD_FETCH_REQ: both buffers are compared with the size of a pointer.
  unfoldable pub fetch_ioctl : Irp → FetchCommand → Adapter S → Outcome S
  unfolding find_device_by_conn_id fetch_found
  fetch_ioctl irp cmd a =
      if bad_input irp pointer_size || bad_output irp pointer_size
      then with_status irp NtStatus.invalid_parameter a
      else fetch_found irp cmd a (find_device_by_conn_id a.ext cmd.connection_id)

  -- WnbdHandleResponse returned: the disk is released.
  unfoldable pub reply_end : Irp → Disk → Adapter S → NtStatus × Device × Memory → Outcome S
  unfolding release_device
  reply_end irp d a (status, device, memory) = with_status irp status (record a {
    ext = release_device a.ext d;
    devices = update a.devices d.connection_id device;
    memory = memory;
  })

  unfoldable pub reply_found : Irp → ReplyCommand → Adapter S → Option Disk × Extension → Outcome S
  unfolding handle_response reply_end
  reply_found irp cmd a (none, ext) =
      with_status irp NtStatus.invalid_handle (record a { ext = ext })
  reply_found irp cmd a (some d, ext) =
      reply_end irp d (record a { ext = ext })
        (handle_response (record env.answer { pid = irp.pid }) cmd.reply (a.devices d.connection_id)
          a.memory)

  -- IOCTL_WNBD_SEND_RSP: the input is compared with the size of a pointer.
  unfoldable pub reply_ioctl : Irp → ReplyCommand → Adapter S → Outcome S
  unfolding find_device_by_conn_id reply_found
  reply_ioctl irp cmd a =
      if bad_input irp pointer_size
      then with_status irp NtStatus.invalid_parameter a
      else reply_found irp cmd a (find_device_by_conn_id a.ext cmd.connection_id)
