-- ===== src/Ioctl/Balance/Writers.antt =====
-- The handlers of driver/userspace.c that change the adapter's disks or the driver's options.
use wnbd.Prelude.{
  ℕ, ◌+◌, ◌-◌, ◌/◌, ◌^◌, ◌≡◌, ◌≢◌, ◌∙◌, inl, inr, sym, refl, ap, Bool, true, false, ◌||◌, Option,
  none, some, List, [], ◌∷◌, ltb, ◌==◌, arith, split-if,
}
use wnbd.Wdk.{NtStatus, is_failure}
use wnbd.Connections.{Disk, Extension, find_by_name, create_connection, remove_disk}
use wnbd.Options.{Kernel, DriverOption}
use wnbd.Options.Table.{list_drv_opt, set_drv_opt}
use wnbd.Ioctl.{
  Ioctl, create, remove, set_disk_size, Buffer, OptValue, OptCommand, SetOptCommand, Irp, IoctlEnv,
  Adapter,
}
use wnbd.Ioctl.Lookup.{update_references, release_device, release-acquire, find_device_by_name}
use wnbd.Ioctl.Check.{
  create_command_size, remove_command_size, connection_info_size, get_opt_command_size,
  set_opt_command_size, option_value_size, bad_input, bad_output, name_of, opt_name_of, is_empty,
  with_status,
}
use wnbd.Ioctl.Mapping.{
  update, creation_env, properties_of, create_end, create_disk, create_checked, create_ioctl,
  hold_creation, release_creation, references_of, monitor_end, disconnect_sync, delete_end,
  delete_found, delete_connection, remove_ioctl, resize_end, resize_ioctl,
}
use wnbd.Ioctl.Setting.{
  forbids_mappings, get_opt_ioctl, set_opt_end, set_opt_ioctl, reset_opt_ioctl, list_opt_end,
  list_opt_ioctl, reload_ioctl,
}
use wnbd.Ioctl.Balance.Holders.{or-either, or-neither, holder, others, others-before, let_go}
use wnbd.Ioctl.Balance.{
  IsReader, IsRefused, found_missing, kept, created, removed, resized, Settles, returned,
  waits_removal, unchanged, settle_found,
}

empty_name : (name : List ℕ) → is_empty name ≡ true → name ≡ []
empty_name [] h = refl
empty_name (x ∷ xs) h = ground (arith, h)

module _ {S : Type 0} (env : IoctlEnv) (irp : Irp) (b : Buffer) (a : Adapter S) where
  -- A call that is refused.
  refuses :
      (c : Ioctl) (status : NtStatus)
      → status ≢ NtStatus.success
      → IsRefused c irp b a
      → Settles env irp c b a (with_status irp status a)
  refuses c status h why = unchanged env irp c b a _ _ refl (inr (h, why))

  -- The tests of CREATE, and what they say.
  bad_buffers :
      (bad_input irp create_command_size || bad_output irp connection_info_size) ≡ true
      → IsRefused create irp b a
  bad_buffers h = ground (arith, h)

  bad_name :
      (b.properties.flags.use_kernel_nbd || is_empty (name_of b.properties.instance_name)) ≡ true
      → IsRefused create irp b a
  bad_name h = elim (or-either b.properties.flags.use_kernel_nbd _ h) [
    | inl kernel ↦ inr (inr (inl kernel))
    | inr empty ↦ inr (inr (inr (inl (empty_name _ empty))))
  ]

  bad_size :
      (b.properties.block_count == 0
          || b.properties.block_size == 0
          || ltb ((2 ^ 64 - 1) / b.properties.block_size) b.properties.block_count)
        ≡ true
      → IsRefused create irp b a
  bad_size h = ground (arith, h)

  create_end-Settles :
      (r : NtStatus × Extension)
      → r
        ≡ create_connection env.find_clear
            (creation_env env a)
            a.ext
            (properties_of irp.pid b.properties)
      → Settles env irp create b a
          (create_end env irp (properties_of irp.pid b.properties) (hold_creation a) r)
  unfolding create_end
  create_end-Settles (status, ext) e =
      split-if (Settles env irp create b a) (is_failure status) _ _
        (λ h. returned _ _ refl (created refl e) (omega arith))
        (λ h. returned _ _ refl (created refl e) (omega arith))

  pub create_ioctl-Settles : Settles env irp create b a (create_ioctl env irp b.properties a)
  unfolding create_ioctl create_checked create_disk
  create_ioctl-Settles =
      let raw = b.properties in
      split-if (Settles env irp create b a)
        (bad_input irp create_command_size || bad_output irp connection_info_size) _ _
        (λ h. refuses create NtStatus.invalid_parameter (λ e. cc) (bad_buffers h))
        (λ h.
          split-if (Settles env irp create b a)
            (raw.flags.use_kernel_nbd || is_empty (name_of raw.instance_name)) _ _
            (λ h. refuses create NtStatus.invalid_parameter (λ e. cc) (bad_name h))
            (λ h.
              split-if (Settles env irp create b a)
                (raw.block_count == 0
                  || raw.block_size == 0
                  || ltb ((2 ^ 64 - 1) / raw.block_size) raw.block_count)
                _ _ (λ h. refuses create NtStatus.invalid_parameter (λ e. cc) (bad_size h))
                (λ h. create_end-Settles _ refl)))

  -- The adapter while the disk is held.
  abbrev holding : Disk → Adapter S
  holding d = record a { ext = update_references d.connection_id (λ n. n + 1) a.ext }

  disconnect_sync-Settles :
      (d : Disk)
      → find_by_name (name_of b.instance_name) a.ext.disks ≡ some d
      → d.released ≡ false
      → Settles env irp remove b a (delete_end env irp (disconnect_sync env d (holding d)))
  unfolding disconnect_sync delete_end monitor_end release_device
  disconnect_sync-Settles d found free =
      let gone : Bool = references_of (others a d) == 0 || env.others_release in
      let a' : Adapter S = record a {
        ext = release_device (holding d).ext d;
        devices =
            update a.devices d.connection_id
              (record (a.devices d.connection_id) { removal_event = true });
      } in
      split-if (λ (o : Option (Adapter S)). Settles env irp remove b a (delete_end env irp o)) gone
        (some (monitor_end env d a')) none
        (λ h.
          returned _ _ refl
            (removed d refl found free (let_go env a d h) refl
              (ap (λ ext. remove_disk ext d) (release-acquire a.ext d)))
            refl)
        (λ h.
          let (someone, stays) =
            or-neither (references_of (others a d) == 0) env.others_release h in
          let (e, held, refs) = holder (others a d) someone in
          waits_removal d e refl refl found (sym (others-before a d) ∙ held) refs stays)

  bad_remove :
      (bad_input irp remove_command_size || is_empty (name_of b.instance_name)) ≡ true
      → IsRefused remove irp b a
  bad_remove h = elim (or-either (bad_input irp remove_command_size) _ h) [
    | inl short ↦ inl (ground (arith, short))
    | inr empty ↦ inr (inl (empty_name _ empty))
  ]

  pub remove_ioctl-Settles : Settles env irp remove b a (remove_ioctl env irp b.instance_name a)
  unfolding remove_ioctl delete_connection delete_found find_device_by_name
  remove_ioctl-Settles =
      split-if (Settles env irp remove b a)
        (bad_input irp remove_command_size || is_empty (name_of b.instance_name)) _ _
        (λ h. refuses remove NtStatus.invalid_parameter (λ e. cc) (bad_remove h))
        (λ h.
          settle_found env irp remove b a (delete_found env irp a)
            (find_by_name (name_of b.instance_name) a.ext.disks)
            (λ e.
              refuses remove NtStatus.object_name_not_found (λ x. cc)
                (inr (inr (λ d found free. found_missing a.ext _ d e found free))))
            (λ d found free. disconnect_sync-Settles d found free))

  pub resize_ioctl-Settles : Settles env irp set_disk_size b a (resize_ioctl irp b.set_size a)
  unfolding resize_ioctl resize_end
  resize_ioctl-Settles = returned _ _ refl (resized refl refl) refl

-- The lock that was taken and given back.
given_back : (n : ℕ) → n + 1 - 1 ≡ n
given_back n = omega arith

-- The handlers of the options keep the disks.
module _ (k : Kernel) (env : IoctlEnv) (irp : Irp) (c : Ioctl) (b : Buffer) (a : Adapter k.State)
    (reads : IsReader c) where
  pub get_opt_ioctl-Settles :
      (cmd : OptCommand) (v : OptValue) → Settles env irp c b a (get_opt_ioctl k irp cmd v a)
  unfolding get_opt_ioctl
  get_opt_ioctl-Settles cmd v =
      split-if (Settles env irp c b a) (bad_input irp get_opt_command_size) _ _
        (λ h. unchanged env irp c b a _ _ refl (inl reads))
        (λ h.
          split-if (Settles env irp c b a) (bad_output irp option_value_size) _ _
            (λ h. unchanged env irp c b a _ _ refl (inl reads))
            (λ h. unchanged env irp c b a _ _ refl (inl reads)))

  set_opt_end-Settles :
      (name : List ℕ) (allowed : Bool) (r : NtStatus × (List DriverOption × k.State))
      → Settles env irp c b a (set_opt_end k irp name allowed a r)
  unfolding set_opt_end
  set_opt_end-Settles name allowed (status, (options, registry)) =
      let a' : Adapter k.State = record a { options = options; registry = registry } in
      split-if (Settles env irp c b a) (forbids_mappings k status name allowed)
        (with_status irp status (release_creation (hold_creation a'))) (with_status irp status a')
        (λ h. returned _ _ refl (kept refl (inl reads)) (given_back a.creation_owners))
        (λ h. returned _ _ refl (kept refl (inl reads)) refl)

  pub set_opt_ioctl-Settles :
      (cmd : SetOptCommand) → Settles env irp c b a (set_opt_ioctl k irp cmd a)
  unfolding set_opt_ioctl
  set_opt_ioctl-Settles cmd =
      split-if (Settles env irp c b a) (bad_input irp set_opt_command_size) _ _
        (λ h. unchanged env irp c b a _ _ refl (inl reads))
        (λ h.
          set_opt_end-Settles (opt_name_of cmd.name) _
            (set_drv_opt k (opt_name_of cmd.name) cmd.value cmd.persistent a.options a.registry))

  pub reset_opt_ioctl-Settles :
      (cmd : OptCommand) → Settles env irp c b a (reset_opt_ioctl k irp cmd a)
  unfolding reset_opt_ioctl
  reset_opt_ioctl-Settles cmd =
      split-if (Settles env irp c b a) (bad_input irp get_opt_command_size) _ _
        (λ h. unchanged env irp c b a _ _ refl (inl reads))
        (λ h. returned _ _ refl (kept refl (inl reads)) refl)

  list_opt_end-Settles :
      (r : NtStatus × (ℕ × List DriverOption)) → Settles env irp c b a (list_opt_end k irp a r)
  unfolding list_opt_end
  list_opt_end-Settles (NtStatus.success, r) = unchanged env irp c b a _ _ refl (inl reads)
  list_opt_end-Settles (NtStatus.buffer_too_small, r) = unchanged env irp c b a _ _ refl (inl reads)
  list_opt_end-Settles (_, r) = unchanged env irp c b a _ _ refl (inl reads)

  pub list_opt_ioctl-Settles :
      (allowed : Bool) → Settles env irp c b a (list_opt_ioctl k irp allowed a)
  unfolding list_opt_ioctl
  list_opt_ioctl-Settles allowed =
      split-if (Settles env irp c b a) (bad_input irp 4) _ _
        (λ h. unchanged env irp c b a _ _ refl (inl reads))
        (λ h. list_opt_end-Settles (list_drv_opt k irp.output_length allowed a.options a.registry))

  pub reload_ioctl-Settles : Settles env irp c b a (reload_ioctl k irp a)
  unfolding reload_ioctl
  reload_ioctl-Settles = returned _ _ refl (kept refl (inl reads)) refl
