-- ===== src/Connections/Invariant.antt =====
-- What holds of an adapter's disks after any operations of driver/userspace.c.
pub mod Added
pub mod Removed
pub mod Resized
use wnbd.Prelude.{
  ℕ, suc, ◌+◌, ◌-◌, ◌≤◌, ◌<◌, ◌^◌, ◌≡◌, ◌≢◌, refl, sym, ap, subst, ◌∙◌, Bool, true, false, Option,
  none, some, List, [], ◌∷◌, ◌++◌, ◌==◌, map, length, length-append, arith, Bool-cases, inl, inr,
  All, if◌then◌else◌, split-if,
}
use wnbd.Word.{inc64}
use wnbd.Types.{Properties}
use wnbd.Connections.{
  max_disks, Disk, Extension, set_id, id_bucket, find_in_bucket, find_by_conn_id, find_by_name,
  same_name, bit_of, new_disk, add_disk, remove_id, remove_disk, resize, set_found, set_disk_size,
}
use wnbd.Connections.Address.{bit_of-new_disk}
use wnbd.Connections.Create.{IsUntouched, IsAdded}
use wnbd.Connections.Pairs.{
  Pairwise, OtherId, All-map, All-weaken, All-zip, All-find, All-remove, Pairwise-append,
  Pairwise-map, Pairwise-remove, find-append, find-append_new, find-remove, find-remove_self,
  length-remove, remove-apart, find_by_name-id,
}

abbrev pub OtherBit : Disk → Disk → Type 0
OtherBit d e = bit_of e ≢ bit_of d

abbrev pub OtherName : Disk → Disk → Type 0
OtherName d e = same_name d.properties.instance_name e.properties.instance_name ≡ false

-- The bit of a disk is one of the bitmap's, and set.
abbrev pub IsPlaced : (ℕ → Bool) → Disk → Type 0
IsPlaced ids d = (bit_of d < max_disks) × (ids (bit_of d) ≡ true)

abbrev pub IsOld : ℕ → Disk → Type 0
IsOld last d = d.connection_id ≤ last

pub record IsConsistent (ext : Extension) : Type 0 where
  -- DeviceCount is the length of the list.
  pub counted : ext.device_count ≡ length ext.disks
  -- Every disk has a SCSI address of its own, which the bitmap marks as taken.
  pub placed : All (IsPlaced ext.ids) ext.disks
  pub addressed : Pairwise OtherBit ext.disks
  -- Connection ids and names are unique, and no id is newer than the last one given.
  pub old : All (IsOld ext.last_connection_id) ext.disks
  pub identified : Pairwise OtherId ext.disks
  pub named : Pairwise OtherName ext.disks
  -- The hash finds what the list holds.
  pub hash_old : (b : ℕ) → All (IsOld ext.last_connection_id) (ext.buckets b)
  pub hash_identified : (b : ℕ) → Pairwise OtherId (ext.buckets b)
  pub hashed : (id : ℕ) → find_by_conn_id ext id ≡ find_in_bucket id ext.disks

-- A bit that is set differs from one that is clear.
pub other_bit : (ids : ℕ → Bool) (i j : ℕ) → ids i ≡ true → ids j ≡ false → j ≢ i
other_bit ids i j h k e = ground (arith, h, k, ap ids e)

pub find_by_name-absent :
    (name : List ℕ) (ds : List Disk)
    → find_by_name name ds ≡ none
    → All (λ d. same_name d.properties.instance_name name ≡ false) ds
unfolding find_by_name
find_by_name-absent name [] h = tt
find_by_name-absent name (d ∷ ds) h =
    (ground (arith, h), find_by_name-absent name ds (ground (arith, h)))

-- A call that changed nothing but the last connection id.
pub IsUntouched-IsConsistent :
    (ext ext' : Extension)
    → IsUntouched ext ext'
    → ext.last_connection_id ≤ ext'.last_connection_id
    → IsConsistent ext
    → IsConsistent ext'
unfolding find_by_conn_id
IsUntouched-IsConsistent ext ext' (ds, bs, n, ids) le c =
    let older : (d : Disk) → IsOld ext.last_connection_id d → IsOld ext'.last_connection_id d =
      λ d h. omega (arith, h, le) in
    record {
      counted = n ∙ c.counted ∙ ap (λ l. length l) (sym ds);
      placed = subst (All (IsPlaced ext'.ids)) (sym ds) (
          All-weaken (IsPlaced ext.ids) (IsPlaced ext'.ids) ext.disks
            (λ d h. (h.0, ids (bit_of d) ∙ h.1)) c.placed);
      addressed = subst (Pairwise OtherBit) (sym ds) c.addressed;
      old =
          subst (All (IsOld ext'.last_connection_id)) (sym ds)
            (All-weaken _ _ ext.disks older c.old);
      identified = subst (Pairwise OtherId) (sym ds) c.identified;
      named = subst (Pairwise OtherName) (sym ds) c.named;
      hash_old = λ b.
          subst (λ f. All (IsOld ext'.last_connection_id) (f b)) (sym bs)
            (All-weaken _ _ (ext.buckets b) older (c.hash_old b));
      hash_identified = λ b. subst (λ f. Pairwise OtherId (f b)) (sym bs) (c.hash_identified b);
      hashed = λ id.
          ap (λ f. find_in_bucket id (f (id_bucket id))) bs
          ∙ c.hashed id
          ∙ ap (find_in_bucket id) (sym ds);
    }
