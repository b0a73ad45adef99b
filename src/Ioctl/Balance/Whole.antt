-- ===== src/Ioctl/Balance/Whole.antt =====
-- WnbdParseUserIOCTL of driver/userspace.c as a whole: what it holds, it gives back.
use wnbd.Prelude.{
  ℕ, ap, ◌≡◌, ◌≢◌, ◌⊎◌, inl, inr, refl, true, false, arith, none, some, not, Option, split-if,
}
use wnbd.Options.{Kernel}
use wnbd.Ioctl.{
  Ioctl, ping, create, remove, fetch_req, send_rsp, list, stats, reload_config, version, show,
  get_drv_opt, set_drv_opt, reset_drv_opt, list_drv_opt, set_disk_size, unknown, Buffer, Irp,
  Answer, IoctlEnv, Outcome, Adapter,
}
use wnbd.Connections.{Extension}
use wnbd.Wdk.{NtStatus}
use wnbd.Ioctl.Check.{ioctl_of, base_command_size, bad_input, overwriting}
use wnbd.Ioctl.Parse.{run_ioctl, parse_buffer, parse_user_ioctl}
use wnbd.Ioctl.Balance.{
  Effect, kept, created, removed, resized, Settles, returned, waits_removal, waits_request,
  unchanged,
}
use wnbd.Ioctl.Balance.Readers.{
  show_ioctl-Settles, stats_ioctl-Settles, list_ioctl-Settles, version_ioctl-Settles,
  fetch_ioctl-Settles, reply_ioctl-Settles,
}
use wnbd.Ioctl.Balance.Writers.{
  create_ioctl-Settles, remove_ioctl-Settles, resize_ioctl-Settles, get_opt_ioctl-Settles,
  set_opt_ioctl-Settles, reset_opt_ioctl-Settles, list_opt_ioctl-Settles, reload_ioctl-Settles,
}

-- No command can be read: it is another kind of request, there is no buffer, or less than a code in it.
abbrev pub IsUnreadable : Irp → Type 0
IsUnreadable irp =
    (irp.is_service_irp ≡ false)
    ⊎ (irp.system_buffer ≡ none)
    ⊎ (bad_input irp base_command_size ≡ true)

-- What a call comes to: a refusal that changes nothing, or the command that its buffer holds.
pub data Parsed {S : Type 0} (env : IoctlEnv) (irp : Irp) (a : Adapter S) (r : Outcome S)
    : Type 0 where
  unreadable :
      (ans : Answer)
      → r ≡ some (ans, a)
      → ans.status ≢ NtStatus.success
      → IsUnreadable irp
      → Parsed env irp a r
  ran :
      (b : Buffer)
      → irp.system_buffer ≡ some b
      → Settles env irp (ioctl_of b.io_control_code) b a r
      → Parsed env irp a r

module _ (k : Kernel) (env : IoctlEnv) (irp : Irp) (a : Adapter k.State) where
  run_ioctl-Settles : (c : Ioctl) (b : Buffer) → Settles env irp c b a (run_ioctl k env c irp b a)
  unfolding run_ioctl
  run_ioctl-Settles ping b = unchanged env irp ping b a _ _ refl (inl tt)
  run_ioctl-Settles create b = create_ioctl-Settles env irp b a
  run_ioctl-Settles remove b = remove_ioctl-Settles env irp b a
  run_ioctl-Settles set_disk_size b = resize_ioctl-Settles env irp b a
  run_ioctl-Settles list b = list_ioctl-Settles env irp list b a tt
  run_ioctl-Settles show b = show_ioctl-Settles env irp show b a tt b.instance_name
  run_ioctl-Settles reload_config b = reload_ioctl-Settles k env irp reload_config b a tt
  run_ioctl-Settles stats b = stats_ioctl-Settles env irp stats b a tt b.instance_name
  run_ioctl-Settles fetch_req b = fetch_ioctl-Settles env irp b a
  run_ioctl-Settles send_rsp b = reply_ioctl-Settles env irp send_rsp b a tt b.send
  run_ioctl-Settles version b = version_ioctl-Settles env irp version b a tt
  run_ioctl-Settles get_drv_opt b = get_opt_ioctl-Settles k env irp get_drv_opt b a tt b.opt b.value
  run_ioctl-Settles set_drv_opt b = set_opt_ioctl-Settles k env irp set_drv_opt b a tt b.set_opt
  run_ioctl-Settles reset_drv_opt b = reset_opt_ioctl-Settles k env irp reset_drv_opt b a tt b.opt
  run_ioctl-Settles list_drv_opt b =
      list_opt_ioctl-Settles k env irp list_drv_opt b a tt b.list_persistent
  run_ioctl-Settles unknown b = unchanged env irp unknown b a _ _ refl (inl tt)

  Effect-overwriting :
      (c : Ioctl) (b : Buffer) (ans : Answer) (ext : Extension) (n : ℕ)
      → Effect env irp c b a ans ext
      → Effect env irp c b a (record ans { overwritten = n }) ext
  Effect-overwriting c b ans ext n (kept e why) = kept e why
  Effect-overwriting c b ans ext n (created is e) = created is e
  Effect-overwriting c b ans ext n (removed d is found free go ok e) =
      removed d is found free go ok e
  Effect-overwriting c b ans ext n (resized is e) = resized is e

  Settles-overwriting :
      (c : Ioctl) (b : Buffer) (r : Outcome k.State) (n : ℕ)
      → Settles env irp c b a r
      → Settles env irp c b a (overwriting n r)
  unfolding overwriting
  Settles-overwriting c b r n (returned ans a' e effect owners) =
      returned (record ans { overwritten = n }) a' (ap (overwriting n) e)
        (Effect-overwriting c b ans a'.ext n effect) owners
  Settles-overwriting c b r n (waits_removal d x e is found held_by refs stays) =
      waits_removal d x (ap (overwriting n) e) is found held_by refs stays
  Settles-overwriting c b r n (waits_request d e is found h) =
      waits_request d (ap (overwriting n) e) is found h

  parse_buffer-Parsed :
      (o : Option Buffer) → irp.system_buffer ≡ o → Parsed env irp a (parse_buffer k env irp a o)
  unfolding parse_buffer
  parse_buffer-Parsed none e = unreadable _ refl (λ x. cc) (inr (inl e))
  parse_buffer-Parsed (some b) e =
      split-if (Parsed env irp a) (bad_input irp base_command_size) _ _
        (λ h. unreadable _ refl (λ x. cc) (inr (inr h)))
        (λ h. ran b e (
          Settles-overwriting (ioctl_of b.io_control_code) b _ _
            (run_ioctl-Settles (ioctl_of b.io_control_code) b)))

pub parse_user_ioctl-Settles :
    (k : Kernel) (env : IoctlEnv) (irp : Irp) (a : Adapter k.State)
    → Parsed env irp a (parse_user_ioctl k env irp a)
unfolding parse_user_ioctl
parse_user_ioctl-Settles k env irp a =
    split-if (Parsed env irp a) (not irp.is_service_irp) _ _
      (λ h. unreadable _ refl (λ x. cc) (inl (ground (arith, h))))
      (λ h. parse_buffer-Parsed k env irp a irp.system_buffer refl)
