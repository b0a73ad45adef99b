-- ===== src/Options/Table.antt =====
-- The operations of driver/options.c that change the options or list them.
use wnbd.Prelude.{
  ◌++◌, ℕ, ◌+◌, ◌*◌, Bool, none, some, List, [], ◌∷◌, ltb, if◌then◌else◌, length, take,
}
use wnbd.Wdk.{NtStatus, is_failure}
use wnbd.Options.{
  OptType, OptValue, opt_unknown, DriverOption, Kernel, find_opt, update_opt, get_persistent_opt,
  process_option_value, opt_reg_type, opt_reg_size, zero_data,
}

abbrev pub no_value : OptValue
no_value = record { type = opt_unknown; data_bytes = zero_data }

module _ (k : Kernel) where
  -- The status, the options and the registry after a call.
  abbrev pub Changed : Type 0
  Changed = NtStatus × (List DriverOption × k.State)

  -- The end of WnbdSetDrvOpt, after the registry: the runtime value.
  unfoldable pub store : List ℕ → OptValue → List DriverOption → NtStatus × k.State → Changed
  unfolding update_opt
  store name v table (status, s) =
      if is_failure status
      then (status, (table, s))
      else (NtStatus.success, (update_opt k name v table, s))

  -- A value that was processed: the registry first, if it shall persist.
  unfoldable pub set_processed :
      List ℕ → OptType → Bool → List DriverOption → k.State → NtStatus × OptValue → Changed
  unfolding store opt_reg_type opt_reg_size
  set_processed name type persistent table s (status, v) =
      if is_failure status
      then (status, (table, s))
      else if persistent
      then store name v table
          (k.set_value name (opt_reg_type type) (take (opt_reg_size type) v.data_bytes) s)
      else store name v table (NtStatus.success, s)

  -- WnbdSetDrvOpt
  unfoldable pub set_drv_opt : List ℕ → OptValue → Bool → List DriverOption → k.State → Changed
  unfolding find_opt process_option_value set_processed
  set_drv_opt name v persistent table s = elim (find_opt k name table) [
    | none ↦ (NtStatus.object_name_not_found, (table, s))
    | some o ↦ set_processed name o.type persistent table s (process_option_value k o v)
  ]

  -- WnbdResetDrvOpt
  unfoldable pub reset_drv_opt : List ℕ → Bool → List DriverOption → k.State → Changed
  unfolding find_opt store
  reset_drv_opt name persistent table s = elim (find_opt k name table) [
    | none ↦ (NtStatus.object_name_not_found, (table, s))
    | some o ↦
        store name o.default_value table
          (if persistent then k.delete_value name s else (NtStatus.success, s))
  ]

  -- One round of the loop of WnbdReloadPersistentOptions: its status, and the option after it.
  unfoldable pub reload_processed : DriverOption → NtStatus × OptValue → NtStatus × DriverOption
  reload_processed o (status, v) =
      if is_failure status then (status, o) else (status, record o { value = v })

  unfoldable pub reload_found : DriverOption → NtStatus × OptValue → NtStatus × DriverOption
  unfolding reload_processed process_option_value
  reload_found o (status, v) =
      if is_failure status then (status, o) else reload_processed o (process_option_value k o v)

  -- The loop over the options that are left. `table` are all options, whose names and types it needs;
  -- `status` is that of the round before.
  unfoldable pub reload_loop :
      List DriverOption → k.State → NtStatus → List DriverOption → NtStatus × List DriverOption
  unfolding get_persistent_opt reload_found
  reload_loop table s status [] = (status, [])
  reload_loop table s status (o ∷ os) =
      let (status', o') = reload_found o (get_persistent_opt k o.name no_value table s) in
      let (last, os') = reload_loop table s status' os in (last, o' ∷ os')

  -- WnbdReloadPersistentOptions
  unfoldable pub reload_persistent_options :
      List DriverOption → k.State → NtStatus × List DriverOption
  unfolding reload_loop
  reload_persistent_options table s = reload_loop table s NtStatus.success table

  -- An option with its persistent value, if it has one.
  unfoldable pub persistent_entry : DriverOption → NtStatus × OptValue → List DriverOption
  persistent_entry o (status, v) = if is_failure status then [] else record o { value = v } ∷ []

  unfoldable pub list_persistent :
      List DriverOption → k.State → List DriverOption → List DriverOption
  unfolding get_persistent_opt persistent_entry
  list_persistent table s [] = []
  list_persistent table s (o ∷ os) =
      persistent_entry o (get_persistent_opt k o.name no_value table s)
      ++ list_persistent table s os

  -- sizeof(WNBD_OPTION) for each option, and sizeof(WNBD_OPTION_LIST).
  abbrev pub list_size : List DriverOption → ℕ
  list_size table = 1368 * length table + 1376

  -- WnbdListDrvOpt: the status, the buffer size after it, and the options that are listed.
  unfoldable pub list_drv_opt :
      ℕ → Bool → List DriverOption → k.State → NtStatus × (ℕ × List DriverOption)
  unfolding list_persistent
  list_drv_opt buffer_size persistent table s =
      if ltb buffer_size (list_size table)
      then (NtStatus.buffer_too_small, (list_size table, []))
      else if persistent
      then (NtStatus.success, (buffer_size, list_persistent table s table))
      else (NtStatus.success, (buffer_size, table))
