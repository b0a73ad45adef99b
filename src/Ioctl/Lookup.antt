-- ===== src/Ioctl/Lookup.antt =====
-- A disk is held while it is used: WnbdAcquireDevice, WnbdReleaseDevice and the lookups of driver/util.c
-- with Acquire set. A disk is one object, in the device list and in the hash.
use wnbd.Prelude.{
  ℕ, ◌+◌, ◌-◌, ◌≡◌, refl, map, Bool, true, false, Option, none, some, List, [], ◌∷◌, ◌==◌, arith,
  if◌then◌else◌, ap, ◌∙◌,
}
use mathlib.Core.Path.{fun_ext}
use wnbd.Connections.{Disk, Extension, find_by_conn_id, find_by_name}

-- The disk's references, changed.
abbrev pub with_references : ℕ → (ℕ → ℕ) → Disk → Disk
with_references id f d =
    if d.connection_id == id then record d { references = f d.references } else d

unfoldable pub update_references : ℕ → (ℕ → ℕ) → Extension → Extension
update_references id f ext = record ext {
  disks = map (with_references id f) ext.disks;
  buckets = λ b. map (with_references id f) (ext.buckets b);
}

-- WnbdAcquireDevice: a disk whose rundown began cannot be held.
unfoldable pub acquire_device : Extension → Disk → Bool × Extension
unfolding update_references
acquire_device ext d =
    if d.released then (false, ext) else (true, update_references d.connection_id (λ n. n + 1) ext)

-- WnbdReleaseDevice
unfoldable pub release_device : Extension → Disk → Extension
unfolding update_references
release_device ext d = update_references d.connection_id (λ n. n - 1) ext

-- What follows the search: the disk that was found is acquired.
unfoldable pub acquire_found : Extension → Option Disk → Option Disk × Extension
unfolding acquire_device
acquire_found ext none = (none, ext)
acquire_found ext (some d) =
    let (acquired, ext') = acquire_device ext d in if acquired then (some d, ext') else (none, ext')

-- WnbdFindDeviceByInstanceName and WnbdFindDeviceByConnId, with Acquire set.
unfoldable pub find_device_by_name : Extension → List ℕ → Option Disk × Extension
unfolding acquire_found
find_device_by_name ext name = acquire_found ext (find_by_name name ext.disks)

unfoldable pub find_device_by_conn_id : Extension → ℕ → Option Disk × Extension
unfolding acquire_found
find_device_by_conn_id ext id = acquire_found ext (find_by_conn_id ext id)

references_undone :
    (id : ℕ) (ds : List Disk)
    → map (with_references id (λ n. n - 1)) (map (with_references id (λ n. n + 1)) ds) ≡ ds
references_undone id [] = refl
references_undone id (d ∷ ds) = ground (arith, references_undone id ds)

-- An adapter with a list of disks and a hash.
with_disks : Extension → List Disk → (ℕ → List Disk) → Extension
with_disks ext ds bs = record ext { disks = ds; buckets = bs }

-- Releasing a disk undoes acquiring it.
pub release-acquire :
    (ext : Extension) (d : Disk)
    → update_references d.connection_id
        (λ n. n - 1)
        (update_references d.connection_id (λ n. n + 1) ext)
      ≡ ext
unfolding update_references with_disks
release-acquire ext d =
    let id = d.connection_id in
    let bs : ℕ → List Disk = λ b.
      map (with_references id (λ n. n - 1))
        (map (with_references id (λ n. n + 1)) (ext.buckets b)) in
    ap (λ ds. with_disks ext ds bs) (references_undone id ext.disks)
    ∙ ap (with_disks ext ext.disks) (fun_ext λ b. references_undone id (ext.buckets b))
