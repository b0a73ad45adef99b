-- ===== src/Ioctl/Invariant.antt =====
-- Any commands of user space, one after the other, keep the adapter's disks consistent.
use wnbd.Prelude.{length, ℕ, ◌+◌, ◌<◌, ◌≡◌, sym, ap, subst, ◌∙◌, ◌^◌, some, All, []}
use wnbd.Connections.{id_bucket, find_in_bucket, find_by_conn_id, Extension}
use wnbd.Connections.Create.{IsFindClear}
use wnbd.Connections.Pairs.{OtherId, Pairwise, find_by_name-id}
use wnbd.Connections.Invariant.{OtherName, IsOld, OtherBit, IsPlaced, IsConsistent}
use wnbd.Connections.Invariant.Added.{create_connection-IsConsistent}
use wnbd.Connections.Invariant.Removed.{remove_disk-IsConsistent}
use wnbd.Connections.Invariant.Resized.{set_disk_size-IsConsistent}
use wnbd.Options.{Kernel}
use wnbd.Ioctl.Check.{name_of, ioctl_of}
use wnbd.Ioctl.{Ioctl, Buffer, Irp, Answer, IoctlEnv, Outcome, Adapter}
use wnbd.Ioctl.Mapping.{creation_env, properties_of}
use wnbd.Ioctl.Parse.{parse_user_ioctl}
use wnbd.Ioctl.Balance.{
  Effect, kept, created, removed, resized, Settles, returned, waits_removal, waits_request,
}
use wnbd.Ioctl.Balance.Whole.{Parsed, unreadable, ran, parse_user_ioctl-Settles}

-- No disk is mapped.
pub record IsFresh (ext : Extension) : Type 0 where
  pub no_disks : ext.disks ≡ []
  pub no_buckets : (b : ℕ) → ext.buckets b ≡ []
  pub no_count : ext.device_count ≡ 0

-- The calls that returned, one after the other; the connection ids have not run out.
pub data Calls (k : Kernel) (a : Adapter k.State) : Adapter k.State → Type 1 where
  start : Calls k a a
  call :
      {b c : Adapter k.State} {ans : Answer} (env : IoctlEnv) (irp : Irp)
      → Calls k a b
      → IsFindClear env.find_clear
      → b.ext.last_connection_id + 1 < 2 ^ 64
      → parse_user_ioctl k env irp b ≡ some (ans, c)
      → Calls k a c

IsFresh-IsConsistent : (ext : Extension) → IsFresh ext → IsConsistent ext
unfolding find_by_conn_id find_in_bucket
IsFresh-IsConsistent ext f = record {
  counted = f.no_count ∙ ap (λ l. length l) (sym f.no_disks);
  placed = subst (All (IsPlaced ext.ids)) (sym f.no_disks) tt;
  addressed = subst (Pairwise OtherBit) (sym f.no_disks) tt;
  old = subst (All (IsOld ext.last_connection_id)) (sym f.no_disks) tt;
  identified = subst (Pairwise OtherId) (sym f.no_disks) tt;
  named = subst (Pairwise OtherName) (sym f.no_disks) tt;
  hash_old = λ b. subst (All (IsOld ext.last_connection_id)) (sym (f.no_buckets b)) tt;
  hash_identified = λ b. subst (Pairwise OtherId) (sym (f.no_buckets b)) tt;
  hashed = λ id.
      ap (find_in_bucket id) (f.no_buckets (id_bucket id))
      ∙ ap (find_in_bucket id) (sym f.no_disks);
}

module _ {S : Type 0} (env : IoctlEnv) (irp : Irp) (a : Adapter S) where
  Effect-IsConsistent :
      (cmd : Ioctl) (b : Buffer) (ans : Answer) (ext : Extension)
      → Effect env irp cmd b a ans ext
      → IsFindClear env.find_clear
      → a.ext.last_connection_id + 1 < 2 ^ 64
      → IsConsistent a.ext
      → IsConsistent ext
  Effect-IsConsistent cmd b ans ext (kept e why) f room c = subst IsConsistent (sym e) c
  Effect-IsConsistent cmd b ans ext (created is e) f room c =
      subst IsConsistent (sym (ap (λ r. r.1) e)) (
        create_connection-IsConsistent env.find_clear (creation_env env a) a.ext
          (properties_of irp.pid b.properties) f room c)
  Effect-IsConsistent cmd b ans ext (removed d is found free go ok e) f room c =
      subst IsConsistent (sym e) (
        remove_disk-IsConsistent a.ext d c
          (find_by_name-id (name_of b.instance_name) a.ext.disks d c.identified found))
  Effect-IsConsistent cmd b ans ext (resized is e) f room c =
      subst IsConsistent (sym (ap (λ r. r.1) e))
        (set_disk_size-IsConsistent b.set_size.connection_id b.set_size.block_count a.ext c)

  Settles-IsConsistent :
      (cmd : Ioctl) (buf : Buffer) (r : Outcome S) (ans : Answer) (b : Adapter S)
      → r ≡ some (ans, b)
      → Settles env irp cmd buf a r
      → IsFindClear env.find_clear
      → a.ext.last_connection_id + 1 < 2 ^ 64
      → IsConsistent a.ext
      → IsConsistent b.ext
  Settles-IsConsistent cmd buf r ans b e (returned ans' b' e' effect owners) f room c =
      let same : b' ≡ b = cc in
      subst (λ x. IsConsistent x.ext) same (Effect-IsConsistent cmd buf ans' b'.ext effect f room c)
  Settles-IsConsistent cmd buf r ans b e (waits_removal d x e' is found held refs stays) f room c =
      cc
  Settles-IsConsistent cmd buf r ans b e (waits_request d e' is found h) f room c = cc

  Parsed-IsConsistent :
      (r : Outcome S) (ans : Answer) (b : Adapter S)
      → r ≡ some (ans, b)
      → Parsed env irp a r
      → IsFindClear env.find_clear
      → a.ext.last_connection_id + 1 < 2 ^ 64
      → IsConsistent a.ext
      → IsConsistent b.ext
  Parsed-IsConsistent r ans b e (unreadable ans' e' bad why) f room c =
      let same : a ≡ b = cc in subst (λ x. IsConsistent x.ext) same c
  Parsed-IsConsistent r ans b e (ran buf has settles) f room c =
      Settles-IsConsistent (ioctl_of buf.io_control_code) buf r ans b e settles f room c

-- From an adapter with no disks, after any commands of user space that returned, while the connection
-- ids have not run out: DeviceCount is the number of disks; every disk has a SCSI address below 128 of
-- its own, marked as taken in the bitmap; connection ids and names are unique; and the hash finds for
-- every connection id the disk that the list holds.
pub Calls-IsConsistent :
    (k : Kernel) (a b : Adapter k.State) → IsFresh a.ext → Calls k a b → IsConsistent b.ext
Calls-IsConsistent k a b fresh start = IsFresh-IsConsistent a.ext fresh
Calls-IsConsistent k a c fresh (call {b = b} {ans = ans} env irp calls f room e) =
    Parsed-IsConsistent env irp b (parse_user_ioctl k env irp b) ans c e
      (parse_user_ioctl-Settles k env irp b) f room (Calls-IsConsistent k a b fresh calls)
