-- ===== src/Ioctl/Setting.antt =====
-- The commands of driver/userspace.c on the driver's options, and IOCTL_WNBD_RELOAD_CONFIG.
use wnbd.Prelude.{ℕ, Bool, not, ◌&&◌, none, some, List, [], ◌∷◌, ◌==◌, if◌then◌else◌, get_or}
use wnbd.Wdk.{NtStatus, is_failure}
use wnbd.Options.{OptValue, DriverOption, Kernel, find_opt, get_drv_opt, process_option_value}
use wnbd.Options.Table.{set_drv_opt, reset_drv_opt, reload_persistent_options, list_drv_opt}
use wnbd.Ioctl.{
  OptCommand, SetOptCommand, Irp, no_output, value_output, options_output, Outcome, Adapter,
}
use wnbd.Ioctl.Check.{
  get_opt_command_size, set_opt_command_size, option_value_size, bad_input, bad_output, c_string,
  opt_name_of, with_status, with_output,
}
use wnbd.Ioctl.Mapping.{hold_creation, release_creation}

-- L"NewMappingsAllowed"
abbrev pub new_mappings_allowed : List ℕ
new_mappings_allowed =
    78 ∷ 101 ∷ 119 ∷ 77 ∷ 97 ∷ 112 ∷ 112 ∷ 105 ∷ 110 ∷ 103 ∷ 115 ∷ 65 ∷ 108 ∷ 108 ∷ 111 ∷ 119 ∷ 101
    ∷ 100 ∷ []

module _ (k : Kernel) where
  -- IOCTL_WNBD_GET_DRV_OPT. The value is written over the command; `under` is what lay there.
  abbrev value_end : Adapter k.State → NtStatus × OptValue → Outcome k.State
  value_end a (status, v) = with_output status option_value_size (value_output v) a

  unfoldable pub get_opt_ioctl : Irp → OptCommand → OptValue → Adapter k.State → Outcome k.State
  unfolding c_string get_drv_opt
  get_opt_ioctl irp cmd under a =
      if bad_input irp get_opt_command_size
      then with_status irp NtStatus.invalid_parameter a
      else if bad_output irp option_value_size
      then with_status irp NtStatus.buffer_overflow a
      else value_end a
          (get_drv_opt k (opt_name_of cmd.name) under cmd.persistent a.options a.registry)

  -- AsBool of the value after WnbdSetDrvOpt, which converts it in place.
  unfoldable pub set_value_bool : List ℕ → OptValue → List DriverOption → Bool
  unfolding find_opt process_option_value
  set_value_bool name v options = elim (find_opt k name options) [
    | none ↦ not (get_or v.data_bytes 0 0 == 0)
    | some o ↦ not (get_or (process_option_value k o v).1.data_bytes 0 0 == 0)
  ]

  -- The option NewMappingsAllowed was set to false.
  abbrev pub forbids_mappings : NtStatus → List ℕ → Bool → Bool
  forbids_mappings status name as_bool =
      not (is_failure status) && k.same_name new_mappings_allowed name && not as_bool

  -- The lock is taken and given back, once new mappings were forbidden.
  unfoldable pub set_opt_end :
      Irp
      → List ℕ
      → Bool
      → Adapter k.State
      → NtStatus × (List DriverOption × k.State)
      → Outcome k.State
  set_opt_end irp name as_bool a (status, (options, registry)) =
      let a' = record a { options = options; registry = registry } in
      if forbids_mappings status name as_bool
      then with_status irp status (release_creation (hold_creation a'))
      else with_status irp status a'

  -- IOCTL_WNBD_SET_DRV_OPT
  unfoldable pub set_opt_ioctl : Irp → SetOptCommand → Adapter k.State → Outcome k.State
  unfolding c_string set_drv_opt set_value_bool set_opt_end
  set_opt_ioctl irp cmd a =
      let name = opt_name_of cmd.name in
      if bad_input irp set_opt_command_size
      then with_status irp NtStatus.invalid_parameter a
      else set_opt_end irp name (set_value_bool name cmd.value a.options) a
          (set_drv_opt k name cmd.value cmd.persistent a.options a.registry)

  abbrev changed_end :
      Irp → Adapter k.State → NtStatus × (List DriverOption × k.State) → Outcome k.State
  changed_end irp a (status, (options, registry)) =
      with_status irp status (record a { options = options; registry = registry })

  -- IOCTL_WNBD_RESET_DRV_OPT
  unfoldable pub reset_opt_ioctl : Irp → OptCommand → Adapter k.State → Outcome k.State
  unfolding c_string reset_drv_opt
  reset_opt_ioctl irp cmd a =
      if bad_input irp get_opt_command_size
      then with_status irp NtStatus.invalid_parameter a
      else changed_end irp a
          (reset_drv_opt k (opt_name_of cmd.name) cmd.persistent a.options a.registry)

  -- IOCTL_WNBD_LIST_DRV_OPT: a buffer that is too small is answered with the size that is needed. The
  -- input is compared with the size of an integer.
  unfoldable pub list_opt_end :
      Irp → Adapter k.State → NtStatus × (ℕ × List DriverOption) → Outcome k.State
  list_opt_end irp a (NtStatus.success, (size, l)) =
      with_output NtStatus.success size (options_output l) a
  list_opt_end irp a (NtStatus.buffer_too_small, (size, l)) =
      with_output NtStatus.success size no_output a
  list_opt_end irp a (status, (size, l)) = with_status irp status a

  unfoldable pub list_opt_ioctl : Irp → Bool → Adapter k.State → Outcome k.State
  unfolding list_drv_opt list_opt_end
  list_opt_ioctl irp persistent a =
      if bad_input irp 4
      then with_status irp NtStatus.invalid_parameter a
      else list_opt_end irp a (list_drv_opt k irp.output_length persistent a.options a.registry)

  -- IOCTL_WNBD_RELOAD_CONFIG
  unfoldable pub reload_ioctl : Irp → Adapter k.State → Outcome k.State
  unfolding reload_persistent_options
  reload_ioctl irp a =
      with_status irp NtStatus.success
        (record a { options = (reload_persistent_options k a.options a.registry).1 })
