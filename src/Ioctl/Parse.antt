-- ===== src/Ioctl/Parse.antt =====
-- WnbdParseUserIOCTL of driver/userspace.c, and WnbdHwProcessServiceRequest of
-- driver/scsi_driver_extensions.c that calls it.
use wnbd.Prelude.{Option, not, none, some, if◌then◌else◌}
use wnbd.Wdk.{NtStatus}
use wnbd.Options.{Kernel}
use wnbd.Ioctl.{
  Ioctl, ping, create, remove, fetch_req, send_rsp, list, stats, reload_config, version, show,
  get_drv_opt, set_drv_opt, reset_drv_opt, list_drv_opt, set_disk_size, unknown, Buffer, Irp,
  IoctlEnv, Outcome, Adapter,
}
use wnbd.Ioctl.Check.{
  overwritten_to, overwriting, ioctl_of, base_command_size, bad_input, with_status,
}
use wnbd.Ioctl.Mapping.{create_ioctl, remove_ioctl, resize_ioctl}
use wnbd.Ioctl.Query.{list_ioctl, show_ioctl, stats_ioctl, version_ioctl}
use wnbd.Ioctl.Traffic.{fetch_ioctl, reply_ioctl}
use wnbd.Ioctl.Setting.{get_opt_ioctl, set_opt_ioctl, reset_opt_ioctl, list_opt_ioctl, reload_ioctl}

module _ (k : Kernel) (env : IoctlEnv) where
  -- The switch.
  unfoldable pub run_ioctl : Ioctl → Irp → Buffer → Adapter k.State → Outcome k.State
  unfolding create_ioctl remove_ioctl resize_ioctl list_ioctl show_ioctl stats_ioctl version_ioctl
      fetch_ioctl reply_ioctl get_opt_ioctl set_opt_ioctl reset_opt_ioctl list_opt_ioctl
      reload_ioctl
  run_ioctl ping irp b a = with_status irp NtStatus.success a
  run_ioctl create irp b a = create_ioctl env irp b.properties a
  run_ioctl remove irp b a = remove_ioctl env irp b.instance_name a
  run_ioctl set_disk_size irp b a = resize_ioctl irp b.set_size a
  run_ioctl list irp b a = list_ioctl irp a
  run_ioctl show irp b a = show_ioctl irp b.instance_name a
  run_ioctl reload_config irp b a = reload_ioctl k irp a
  run_ioctl stats irp b a = stats_ioctl irp b.instance_name a
  run_ioctl fetch_req irp b a = fetch_ioctl env irp b.fetch a
  run_ioctl send_rsp irp b a = reply_ioctl env irp b.send a
  run_ioctl version irp b a = version_ioctl env irp a
  run_ioctl get_drv_opt irp b a = get_opt_ioctl k irp b.opt b.value a
  run_ioctl set_drv_opt irp b a = set_opt_ioctl k irp b.set_opt a
  run_ioctl reset_drv_opt irp b a = reset_opt_ioctl k irp b.opt a
  run_ioctl list_drv_opt irp b a = list_opt_ioctl k irp b.list_persistent a
  run_ioctl unknown irp b a = with_status irp NtStatus.invalid_device_request a

  -- The buffer holds a command.
  unfoldable pub parse_buffer : Irp → Adapter k.State → Option Buffer → Outcome k.State
  unfolding run_ioctl overwritten_to overwriting
  parse_buffer irp a none = with_status irp NtStatus.invalid_parameter a
  parse_buffer irp a (some b) =
      if bad_input irp base_command_size
      then with_status irp NtStatus.invalid_parameter a
      else (let c = ioctl_of b.io_control_code in
          overwriting (overwritten_to c irp) (run_ioctl c irp b a))

  -- WnbdParseUserIOCTL
  unfoldable pub parse_user_ioctl : Irp → Adapter k.State → Outcome k.State
  unfolding parse_buffer
  parse_user_ioctl irp a =
      if not irp.is_service_irp
      then with_status irp NtStatus.invalid_device_request a
      else parse_buffer irp a irp.system_buffer
