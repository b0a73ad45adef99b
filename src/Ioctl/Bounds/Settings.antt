-- ===== src/Ioctl/Bounds/Settings.antt =====
-- The output of the handlers of driver/userspace.c on options against the output buffer.
use wnbd.Prelude.{
  ℕ, ◌+◌, ◌*◌, ◌≤◌, refl, Bool, List, [], ◌∷◌, ltb, arith, split-if, length, length-append,
  either-if,
}
use wnbd.Wdk.{NtStatus, is_failure}
use wnbd.Options.{Kernel, DriverOption, OptValue, get_persistent_opt}
use wnbd.Options.Table.{
  no_value, persistent_entry, list_persistent, list_size, list_drv_opt, set_drv_opt,
}
use wnbd.Ioctl.{OptCommand, SetOptCommand, Irp, Adapter}
use wnbd.Ioctl.Check.{
  output_size, get_opt_command_size, set_opt_command_size, option_value_size, bad_input, bad_output,
  opt_name_of, with_status,
}
use wnbd.Ioctl.Mapping.{hold_creation, release_creation}
use wnbd.Ioctl.Setting.{
  get_opt_ioctl, forbids_mappings, set_value_bool, set_opt_end, set_opt_ioctl, reset_opt_ioctl,
  list_opt_end, list_opt_ioctl,
}
use wnbd.Ioctl.Bounds.{Fits, silent, within, quiet}

module _ (k : Kernel) where
  persistent_entry-length :
      (o : DriverOption) (r : NtStatus × OptValue) → length (persistent_entry k o r) ≤ 1
  unfolding persistent_entry
  persistent_entry-length o (status, v) =
      either-if (λ (l : List DriverOption). length l ≤ 1) (is_failure status) _ _ (omega arith)
        (omega arith)

  list_persistent-length :
      (table l : List DriverOption) (s : k.State) → length (list_persistent k table s l) ≤ length l
  unfolding list_persistent
  list_persistent-length table [] s = omega arith
  list_persistent-length table (o ∷ os) s =
      let entry : List DriverOption =
        persistent_entry k o (get_persistent_opt k o.name no_value table s) in
      omega (
        arith,
        persistent_entry-length o (get_persistent_opt k o.name no_value table s),
        list_persistent-length table os s,
        length-append entry (list_persistent k table s os),
      )

  module _ (irp : Irp) (a : Adapter k.State) where
    list_opt_end-Fits :
        (l : List DriverOption)
        → 8 + 1368 * length l ≤ irp.output_length
        → Fits irp (list_opt_end k irp a (NtStatus.success, (irp.output_length, l)))
    unfolding list_opt_end output_size
    list_opt_end-Fits l h = within _ _ refl h (omega arith)

    too_small : (n : ℕ) → Fits irp (list_opt_end k irp a (NtStatus.buffer_too_small, (n, [])))
    unfolding list_opt_end
    too_small n = silent _ _ refl refl

    -- A list of options is written only if the buffer has room for every option.
    pub list_opt_ioctl-Fits : (b : Bool) → Fits irp (list_opt_ioctl k irp b a)
    unfolding list_opt_ioctl list_drv_opt
    list_opt_ioctl-Fits b =
        split-if (Fits irp) (bad_input irp 4) _ _ (λ h. quiet irp a _)
          (λ h.
            let P : NtStatus × (ℕ × List DriverOption) → Type 0 =
              λ r. Fits irp (list_opt_end k irp a r) in
            split-if P (ltb irp.output_length (list_size k a.options)) _ _
              (λ e. too_small (list_size k a.options))
              (λ e.
                split-if P b _ _
                  (λ f.
                    list_opt_end-Fits (list_persistent k a.options a.registry a.options)
                      (ground (arith, e, list_persistent-length a.options a.options a.registry)))
                  (λ f. list_opt_end-Fits a.options (ground (arith, e)))))

    pub get_opt_ioctl-Fits :
        (cmd : OptCommand) (v : OptValue) → Fits irp (get_opt_ioctl k irp cmd v a)
    unfolding get_opt_ioctl output_size
    get_opt_ioctl-Fits cmd v =
        split-if (Fits irp) (bad_input irp get_opt_command_size) _ _ (λ h. quiet irp a _)
          (λ h.
            split-if (Fits irp) (bad_output irp option_value_size) _ _ (λ h. quiet irp a _)
              (λ h. within _ _ refl (omega arith) (ground (arith, h))))

    set_opt_end-Fits :
        (name : List ℕ) (b : Bool) (r : NtStatus × (List DriverOption × k.State))
        → Fits irp (set_opt_end k irp name b a r)
    unfolding set_opt_end
    set_opt_end-Fits name b (status, (options, registry)) =
        let a' : Adapter k.State = record a { options = options; registry = registry } in
        split-if (Fits irp) (forbids_mappings k status name b)
          (with_status irp status (release_creation (hold_creation a'))) (with_status irp status a')
          (λ h. silent _ _ refl refl) (λ h. silent _ _ refl refl)

    pub set_opt_ioctl-Fits : (cmd : SetOptCommand) → Fits irp (set_opt_ioctl k irp cmd a)
    unfolding set_opt_ioctl
    set_opt_ioctl-Fits cmd =
        split-if (Fits irp) (bad_input irp set_opt_command_size) _ _ (λ h. quiet irp a _)
          (λ h.
            set_opt_end-Fits (opt_name_of cmd.name)
              (set_value_bool k (opt_name_of cmd.name) cmd.value a.options)
              (set_drv_opt k (opt_name_of cmd.name) cmd.value cmd.persistent a.options a.registry))

    pub reset_opt_ioctl-Fits : (cmd : OptCommand) → Fits irp (reset_opt_ioctl k irp cmd a)
    unfolding reset_opt_ioctl
    reset_opt_ioctl-Fits cmd =
        split-if (Fits irp) (bad_input irp get_opt_command_size) _ _ (λ h. quiet irp a _)
          (λ h. silent _ _ refl refl)
