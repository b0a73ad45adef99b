-- ===== src/Ioctl/Bounds/Handlers.antt =====
-- The output of each handler of driver/userspace.c against the output buffer.
use wnbd.Prelude.{
  ℕ, ◌-◌, ◌/◌, ◌^◌, ◌≤◌, ◌≡◌, refl, false, ◌||◌, Option, none, some, List, ltb, ◌==◌, arith,
  split-if,
}
use wnbd.Wdk.{NtStatus, is_failure}
use wnbd.Connections.{Disk, Extension, find_by_conn_id}
use wnbd.Types.{Properties}
use wnbd.Request.Send.{Fetch}
use wnbd.Ioctl.{RawProperties, FetchCommand, ReplyCommand, Irp, IoctlEnv, Adapter}
use wnbd.Ioctl.Lookup.{find_device_by_name, find_device_by_conn_id}
use wnbd.Ioctl.Check.{
  output_size, base_command_size, create_command_size, remove_command_size, stats_command_size,
  fetch_command_size, connection_info_size, drv_stats_size, version_size, pointer_size, bad_input,
  bad_output, is_empty, name_of,
}
use wnbd.Ioctl.Mapping.{
  create_end, create_disk, create_checked, create_ioctl, hold_creation, properties_of,
  disconnect_sync, delete_end, delete_found, delete_connection, remove_ioctl,
}
use wnbd.Ioctl.Query.{show_found, show_ioctl, stats_found, stats_ioctl, version_ioctl}
use wnbd.Ioctl.Traffic.{fetch_end, fetch_found, fetch_ioctl, reply_end, reply_found, reply_ioctl}
use wnbd.Ioctl.Bounds.{Fits, waiting, silent, within, quiet, created_output-size}

-- A test that passed.
long_enough : (irp : Irp) (size : ℕ) → bad_output irp size ≡ false → size ≤ irp.output_length
long_enough irp size h = ground (arith, h)

module _ {S : Type 0} (env : IoctlEnv) (irp : Irp) (a : Adapter S) where
  create_end-Fits :
      (p : Properties) (a' : Adapter S) (r : NtStatus × Extension)
      → connection_info_size ≤ irp.output_length
      → Fits irp (create_end env irp p a' r)
  unfolding create_end
  create_end-Fits p a' (status, ext) h =
      split-if (Fits irp) (is_failure status) _ _ (λ e. silent _ _ refl refl)
        (λ e. within _ _ refl (created_output-size (find_by_conn_id ext ext.last_connection_id)) h)

  pub create_ioctl-Fits : (raw : RawProperties) → Fits irp (create_ioctl env irp raw a)
  unfolding create_ioctl create_checked create_disk
  create_ioctl-Fits raw =
      split-if (Fits irp) (bad_input irp create_command_size || bad_output irp connection_info_size)
        _ _ (λ h. quiet irp a _)
        (λ h.
          let long : connection_info_size ≤ irp.output_length = ground (arith, h) in
          split-if (Fits irp) (raw.flags.use_kernel_nbd || is_empty (name_of raw.instance_name)) _ _
            (λ h. quiet irp a _)
            (λ h.
              split-if (Fits irp)
                (raw.block_count == 0
                  || raw.block_size == 0
                  || ltb ((2 ^ 64 - 1) / raw.block_size) raw.block_count)
                _ _ (λ h. quiet irp a _)
                (λ h. create_end-Fits (properties_of irp.pid raw) (hold_creation a) _ long)))

  delete_end-Fits : (o : Option (Adapter S)) → Fits irp (delete_end env irp o)
  unfolding delete_end
  delete_end-Fits none = waiting refl
  delete_end-Fits (some a') = quiet irp a' _

  delete_found-Fits : (r : Option Disk × Extension) → Fits irp (delete_found env irp a r)
  unfolding delete_found
  delete_found-Fits (none, ext) = silent _ _ refl refl
  delete_found-Fits (some d, ext) = delete_end-Fits (disconnect_sync env d (record a { ext = ext }))

  pub remove_ioctl-Fits : (raw : List ℕ) → Fits irp (remove_ioctl env irp raw a)
  unfolding remove_ioctl delete_connection
  remove_ioctl-Fits raw =
      split-if (Fits irp) (bad_input irp remove_command_size || is_empty (name_of raw)) _ _
        (λ h. quiet irp a _) (λ h. delete_found-Fits (find_device_by_name a.ext (name_of raw)))

  show_found-Fits :
      (r : Option Disk × Extension)
      → connection_info_size ≤ irp.output_length
      → Fits irp (show_found irp a r)
  unfolding show_found output_size
  show_found-Fits (none, ext) h = silent _ _ refl refl
  show_found-Fits (some d, ext) h = within _ _ refl (omega arith) h

  pub show_ioctl-Fits : (raw : List ℕ) → Fits irp (show_ioctl irp raw a)
  unfolding show_ioctl
  show_ioctl-Fits raw =
      split-if (Fits irp) (bad_input irp pointer_size || is_empty (name_of raw)) _ _
        (λ h. quiet irp a _)
        (λ h.
          split-if (Fits irp) (bad_output irp connection_info_size) _ _ (λ h. quiet irp a _)
            (λ h. show_found-Fits (find_device_by_name a.ext (name_of raw)) (long_enough irp _ h)))

  stats_found-Fits :
      (r : Option Disk × Extension)
      → drv_stats_size ≤ irp.output_length
      → Fits irp (stats_found irp a r)
  unfolding stats_found output_size
  stats_found-Fits (none, ext) h = silent _ _ refl refl
  stats_found-Fits (some d, ext) h = within _ _ refl (omega arith) h

  pub stats_ioctl-Fits : (raw : List ℕ) → Fits irp (stats_ioctl irp raw a)
  unfolding stats_ioctl
  stats_ioctl-Fits raw =
      split-if (Fits irp) (bad_input irp stats_command_size || is_empty (name_of raw)) _ _
        (λ h. quiet irp a _)
        (λ h.
          split-if (Fits irp) (bad_output irp drv_stats_size) _ _ (λ h. quiet irp a _)
            (λ h. stats_found-Fits (find_device_by_name a.ext (name_of raw)) (long_enough irp _ h)))

  pub version_ioctl-Fits : Fits irp (version_ioctl env irp a)
  unfolding version_ioctl output_size
  version_ioctl-Fits =
      split-if (Fits irp) (bad_input irp base_command_size) _ _ (λ h. quiet irp a _)
        (λ h.
          split-if (Fits irp) (bad_output irp version_size) _ _ (λ h. quiet irp a _)
            (λ h. within _ _ refl (omega arith) (long_enough irp _ h)))

  fetch_end-Fits :
      (d : Disk) (a' : Adapter S) (o : Option Fetch)
      → fetch_command_size ≤ irp.output_length
      → Fits irp (fetch_end env d a' o)
  unfolding fetch_end output_size
  fetch_end-Fits d a' none h = waiting refl
  fetch_end-Fits d a' (some f) h = within _ _ refl (omega arith) h

  fetch_found-Fits :
      (cmd : FetchCommand) (r : Option Disk × Extension)
      → fetch_command_size ≤ irp.output_length
      → Fits irp (fetch_found env irp cmd a r)
  unfolding fetch_found
  fetch_found-Fits cmd (none, ext) h = silent _ _ refl refl
  fetch_found-Fits cmd (some d, ext) h = fetch_end-Fits d (record a { ext = ext }) _ h

  pub fetch_ioctl-Fits :
      (cmd : FetchCommand)
      → fetch_command_size ≤ irp.output_length
      → Fits irp (fetch_ioctl env irp cmd a)
  unfolding fetch_ioctl
  fetch_ioctl-Fits cmd h =
      split-if (Fits irp) (bad_input irp pointer_size || bad_output irp pointer_size) _ _
        (λ e. quiet irp a _)
        (λ e. fetch_found-Fits cmd (find_device_by_conn_id a.ext cmd.connection_id) h)

  reply_found-Fits :
      (cmd : ReplyCommand) (r : Option Disk × Extension) → Fits irp (reply_found env irp cmd a r)
  unfolding reply_found reply_end
  reply_found-Fits cmd (none, ext) = silent _ _ refl refl
  reply_found-Fits cmd (some d, ext) = silent _ _ refl refl

  pub reply_ioctl-Fits : (cmd : ReplyCommand) → Fits irp (reply_ioctl env irp cmd a)
  unfolding reply_ioctl
  reply_ioctl-Fits cmd =
      split-if (Fits irp) (bad_input irp pointer_size) _ _ (λ e. quiet irp a _)
        (λ e. reply_found-Fits cmd (find_device_by_conn_id a.ext cmd.connection_id))
