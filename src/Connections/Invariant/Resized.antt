-- ===== src/Connections/Invariant/Resized.antt =====
-- WnbdSetDiskSize of driver/userspace.c keeps the disks consistent.
use wnbd.Prelude.{
  ◌≤◌, ◌<◌, ℕ, ◌≡◌, refl, sym, ap, subst, ◌∙◌, Bool, true, Option, none, some, List, [], ◌∷◌, ◌==◌,
  map, length, arith, split-if,
}
use wnbd.Wdk.{NtStatus}
use wnbd.Connections.{
  max_disks, Disk, Extension, id_bucket, find_in_bucket, find_by_conn_id, same_name, bit_of, resize,
  set_found, set_disk_size,
}
use wnbd.Connections.Pairs.{OtherId, All-map, Pairwise-map}
use wnbd.Connections.Invariant.{OtherBit, OtherName, IsPlaced, IsOld, IsConsistent}

-- What a disk is identified by stays as it is.
record IsSame (d e : Disk) : Type 0 where
  bits : bit_of e ≡ bit_of d
  ids : e.connection_id ≡ d.connection_id
  names : e.properties.instance_name ≡ d.properties.instance_name

resize-IsSame : (id n : ℕ) (d : Disk) → IsSame d (resize id n d)
unfolding bit_of
resize-IsSame id n d =
    split-if (IsSame d) (d.connection_id == id) _ _
      (λ e. record { bits = refl; ids = refl; names = refl })
      (λ e. record { bits = refl; ids = refl; names = refl })

length-map : (f : Disk → Disk) (ds : List Disk) → length (map f ds) ≡ length ds
length-map f [] = refl
length-map f (d ∷ ds) = ground (arith, length-map f ds)

module _ (id n : ℕ) where
  resized_option : Option Disk → Option Disk
  resized_option none = none
  resized_option (some d) = some (resize id n d)

  found-resize :
      (j : ℕ) (ds : List Disk)
      → find_in_bucket j (map (resize id n) ds) ≡ resized_option (find_in_bucket j ds)
  unfolding find_in_bucket resized_option
  found-resize j [] = refl
  found-resize j (d ∷ ds) = ground (arith, found-resize j ds, (resize-IsSame id n d).ids)

  -- A search by id finds the same in two lists where it found the same before.
  find-resize :
      (j : ℕ) (ds es : List Disk)
      → find_in_bucket j ds ≡ find_in_bucket j es
      → find_in_bucket j (map (resize id n) ds) ≡ find_in_bucket j (map (resize id n) es)
  find-resize j ds es e = found-resize j ds ∙ ap resized_option e ∙ sym (found-resize j es)

  other-ids : (d e : Disk) → OtherId d e → OtherId (resize id n d) (resize id n e)
  other-ids d e h k = h (sym (resize-IsSame id n e).ids ∙ k ∙ (resize-IsSame id n d).ids)

  other-bits : (d e : Disk) → OtherBit d e → OtherBit (resize id n d) (resize id n e)
  other-bits d e h k = h (sym (resize-IsSame id n e).bits ∙ k ∙ (resize-IsSame id n d).bits)

  other-names : (d e : Disk) → OtherName d e → OtherName (resize id n d) (resize id n e)
  other-names d e h =
      ap (λ m. same_name m (resize id n e).properties.instance_name) (resize-IsSame id n d).names
      ∙ ap (same_name d.properties.instance_name) (resize-IsSame id n e).names
      ∙ h

  same-place : (ids : ℕ → Bool) (d : Disk) → IsPlaced ids d → IsPlaced ids (resize id n d)
  same-place ids d h =
      subst (λ b. (b < max_disks) × (ids b ≡ true)) (sym (resize-IsSame id n d).bits) h

  same-age : (last : ℕ) (d : Disk) → IsOld last d → IsOld last (resize id n d)
  same-age last d h = subst (λ i. i ≤ last) (sym (resize-IsSame id n d).ids) h

  resized-IsConsistent :
      (ext : Extension)
      → IsConsistent ext
      → IsConsistent (record ext {
        disks = map (resize id n) ext.disks;
        buckets = λ b. map (resize id n) (ext.buckets b);
      })
  unfolding find_by_conn_id
  resized-IsConsistent ext c =
      let f : Disk → Disk = resize id n in
      record {
        counted = c.counted ∙ sym (length-map f ext.disks);
        placed = All-map _ _ f ext.disks (same-place ext.ids) c.placed;
        addressed = Pairwise-map OtherBit f ext.disks other-bits c.addressed;
        old = All-map _ _ f ext.disks (same-age ext.last_connection_id) c.old;
        identified = Pairwise-map OtherId f ext.disks other-ids c.identified;
        named = Pairwise-map OtherName f ext.disks other-names c.named;
        hash_old =
            λ b. All-map _ _ f (ext.buckets b) (same-age ext.last_connection_id) (c.hash_old b);
        hash_identified =
            λ b. Pairwise-map OtherId f (ext.buckets b) other-ids (c.hash_identified b);
        hashed = λ j. find-resize j (ext.buckets (id_bucket j)) ext.disks (c.hashed j);
      }

  set_found-IsConsistent :
      (ext : Extension) (o : Option Disk) → IsConsistent ext → IsConsistent (set_found ext id n o).1
  unfolding set_found
  set_found-IsConsistent ext none c = c
  set_found-IsConsistent ext (some d) c =
      split-if (λ (r : NtStatus × Extension). IsConsistent r.1) d.released _ _ (λ e. c)
        (λ e. resized-IsConsistent ext c)

  pub set_disk_size-IsConsistent :
      (ext : Extension) → IsConsistent ext → IsConsistent (set_disk_size ext id n).1
  unfolding set_disk_size
  set_disk_size-IsConsistent ext c = set_found-IsConsistent ext (find_by_conn_id ext id) c
