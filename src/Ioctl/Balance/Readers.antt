-- ===== src/Ioctl/Balance/Readers.antt =====
-- The handlers of driver/userspace.c that leave the adapter's disks as they are.
use wnbd.Prelude.{
  ℕ, ◌+◌, ◌≡◌, inl, refl, Bool, true, false, Option, none, some, List, split-if, ◌||◌,
  if◌then◌else◌,
}
use wnbd.Wdk.{NtStatus}
use wnbd.Request.Send.{Fetch}
use wnbd.Ioctl.{ReplyCommand}
use wnbd.Ioctl.Query.{
  list_ioctl, enumerate_connections, list_end, required_size, show_ioctl, show_found, stats_ioctl,
  stats_found, version_ioctl,
}
use wnbd.Ioctl.Traffic.{
  caller_of, fetch_end, fetch_found, fetch_ioctl, reply_end, reply_found, reply_ioctl,
}
use wnbd.Connections.{Disk, Extension, find_by_conn_id, find_by_name}
use wnbd.Request.Dispatch.{dispatch_request}
use wnbd.Ioctl.{Ioctl, fetch_req, Buffer, Irp, IoctlEnv, Outcome, Adapter}
use wnbd.Ioctl.Lookup.{
  update_references, acquire_found, release_device, release-acquire, find_device_by_name,
  find_device_by_conn_id,
}
use wnbd.Ioctl.Check.{
  with_status, name_of, bad_input, bad_output, is_empty, base_command_size, stats_command_size,
  pointer_size, connection_info_size, drv_stats_size, version_size,
}
use wnbd.Ioctl.Balance.{IsReader, kept, Settles, returned, waits_request, unchanged, settle_found}

module _ {S : Type 0} (env : IoctlEnv) (irp : Irp) (c : Ioctl) (b : Buffer) (a : Adapter S)
    (reads : IsReader c) where
  -- A call that checks its input, then its output, and then looks a disk up that it only reads.
  settle_reader :
      (bad_in bad_out : Bool) (i o : NtStatus) (k : Option Disk × Extension → Outcome S)
      (answer : Option Disk)
      → Settles env irp c b a (k (none, a.ext))
      → ((d : Disk)
          → Settles env irp c b a
              (k (some d, update_references d.connection_id (λ n. n + 1) a.ext)))
      → Settles env irp c b a (
          if bad_in
          then with_status irp i a
          else if bad_out
          then with_status irp o a
          else k (acquire_found a.ext answer))
  settle_reader true bad_out i o k answer miss hit = unchanged env irp c b a _ _ refl (inl reads)
  settle_reader false true i o k answer miss hit = unchanged env irp c b a _ _ refl (inl reads)
  settle_reader false false i o k answer miss hit =
      settle_found env irp c b a k answer (λ e. miss) (λ d found free. hit d)

  pub show_ioctl-Settles : (raw : List ℕ) → Settles env irp c b a (show_ioctl irp raw a)
  unfolding show_ioctl find_device_by_name show_found release_device
  show_ioctl-Settles raw =
      settle_reader (bad_input irp pointer_size || is_empty (name_of raw))
        (bad_output irp connection_info_size) _ _ (show_found irp a)
        (find_by_name (name_of raw) a.ext.disks) (unchanged env irp c b a _ _ refl (inl reads))
        (λ d. returned _ _ refl (kept (release-acquire a.ext d) (inl reads)) refl)

  pub stats_ioctl-Settles : (raw : List ℕ) → Settles env irp c b a (stats_ioctl irp raw a)
  unfolding stats_ioctl find_device_by_name stats_found release_device
  stats_ioctl-Settles raw =
      settle_reader (bad_input irp stats_command_size || is_empty (name_of raw))
        (bad_output irp drv_stats_size) _ _ (stats_found irp a)
        (find_by_name (name_of raw) a.ext.disks) (unchanged env irp c b a _ _ refl (inl reads))
        (λ d. returned _ _ refl (kept (release-acquire a.ext d) (inl reads)) refl)

  pub list_ioctl-Settles : Settles env irp c b a (list_ioctl irp a)
  unfolding list_ioctl enumerate_connections list_end
  list_ioctl-Settles =
      split-if (Settles env irp c b a) (bad_output irp (required_size a.ext)) _ _
        (λ h. unchanged env irp c b a _ _ refl (inl reads))
        (λ h. unchanged env irp c b a _ _ refl (inl reads))

  pub version_ioctl-Settles : Settles env irp c b a (version_ioctl env irp a)
  unfolding version_ioctl
  version_ioctl-Settles =
      split-if (Settles env irp c b a) (bad_input irp base_command_size) _ _
        (λ h. unchanged env irp c b a _ _ refl (inl reads))
        (λ h.
          split-if (Settles env irp c b a) (bad_output irp version_size) _ _
            (λ h. unchanged env irp c b a _ _ refl (inl reads))
            (λ h. unchanged env irp c b a _ _ refl (inl reads)))

  pub reply_ioctl-Settles : (cmd : ReplyCommand) → Settles env irp c b a (reply_ioctl env irp cmd a)
  unfolding reply_ioctl find_device_by_conn_id reply_found reply_end release_device
  reply_ioctl-Settles cmd =
      split-if (Settles env irp c b a) (bad_input irp pointer_size) _ _
        (λ h. unchanged env irp c b a _ _ refl (inl reads))
        (λ h.
          settle_found env irp c b a (reply_found env irp cmd a)
            (find_by_conn_id a.ext cmd.connection_id)
            (λ e. unchanged env irp c b a _ _ refl (inl reads))
            (λ d found free. returned _ _ refl (kept (release-acquire a.ext d) (inl reads)) refl))

module _ {S : Type 0} (env : IoctlEnv) (irp : Irp) (b : Buffer) (a : Adapter S) where
  -- A disk that a handler held, and that another thread's work left as it was, is released.
  fetch_end-Settles :
      (d : Disk) (o : Option Fetch)
      → find_by_conn_id a.ext b.fetch.connection_id ≡ some d
      → dispatch_request
          (caller_of env irp b.fetch)
          env.fetch_rounds
          (a.devices d.connection_id)
          a.request_handle
          b.fetch.request
          a.memory
        ≡ o
      → Settles env irp fetch_req b a (
          fetch_end env d
            (record a { ext = update_references d.connection_id (λ n. n + 1) a.ext })
            o)
  unfolding fetch_end release_device
  fetch_end-Settles d none found e = waits_request d refl refl found e
  fetch_end-Settles d (some f) found e =
      returned _ _ refl (kept (release-acquire a.ext d) (inl tt)) refl

  pub fetch_ioctl-Settles : Settles env irp fetch_req b a (fetch_ioctl env irp b.fetch a)
  unfolding fetch_ioctl find_device_by_conn_id fetch_found
  fetch_ioctl-Settles =
      split-if (Settles env irp fetch_req b a)
        (bad_input irp pointer_size || bad_output irp pointer_size) _ _
        (λ h. unchanged env irp fetch_req b a _ _ refl (inl tt))
        (λ h.
          settle_found env irp fetch_req b a (fetch_found env irp b.fetch a)
            (find_by_conn_id a.ext b.fetch.connection_id)
            (λ e. unchanged env irp fetch_req b a _ _ refl (inl tt))
            (λ d found free. fetch_end-Settles d _ found refl))
