-- ===== src/Connections/Invariant/Removed.antt =====
-- The end of the monitor thread of driver/userspace.c keeps the disks consistent.
use wnbd.Prelude.{
  ℕ, ◌≡◌, ◌≢◌, sym, subst, false, some, List, ◌==◌, arith, Bool-cases, inl, inr, All, split-if,
  if◌then◌else◌,
}
use wnbd.Connections.{
  Disk, Extension, set_id, id_bucket, find_in_bucket, find_by_conn_id, bit_of, remove_id,
  remove_disk,
}
use wnbd.Connections.Pairs.{
  Pairwise, OtherId, All-zip, All-remove, Pairwise-remove, find-remove, find-remove_self,
  length-remove, remove-apart,
}
use wnbd.Connections.Invariant.{OtherBit, OtherName, IsPlaced, IsOld, IsConsistent}

module _ (ext : Extension) (d : Disk) (c : IsConsistent ext) where
  -- A bucket after the removal, for a property that a removal keeps.
  in_removed :
      (P : List Disk → Type 0) (b : ℕ)
      → P (remove_id d.connection_id (ext.buckets b))
      → P (ext.buckets b)
      → P ((remove_disk ext d).buckets b)
  unfolding remove_disk
  in_removed P b h k = split-if P (b == id_bucket d.connection_id) _ _ (λ e. h) (λ e. k)

  removed-hashed :
      (j : ℕ) → find_by_conn_id (remove_disk ext d) j ≡ find_in_bucket j (remove_disk ext d).disks
  unfolding find_by_conn_id remove_disk
  removed-hashed j = elim (Bool-cases (d.connection_id == j)) [
    | inl t ↦
        let same : d.connection_id ≡ j = ground (arith, t) in
        subst
          (λ i.
            find_in_bucket j (
              if id_bucket j == id_bucket i
              then remove_id i (ext.buckets (id_bucket j))
              else ext.buckets (id_bucket j))
            ≡ find_in_bucket j (remove_id i ext.disks))
          (sym same)
          (ground (
            arith,
            find-remove_self j (ext.buckets (id_bucket j)) (c.hash_identified (id_bucket j)),
            find-remove_self j ext.disks c.identified,
          ))
    | inr f ↦
        let other : d.connection_id ≢ j = ground (arith, f) in
        ground (
          arith,
          find-remove j (ext.buckets (id_bucket j)) d.connection_id other,
          find-remove j ext.disks d.connection_id other,
          c.hashed j,
        )
  ]

  -- Another disk keeps its bit.
  keeps_place :
      (x : Disk)
      → IsPlaced ext.ids x
      → bit_of x ≢ bit_of d
      → IsPlaced (set_id ext.ids (bit_of d) false) x
  keeps_place x h ne = (h.0, ground (arith, h.1, ne))

  pub remove_disk-IsConsistent :
      find_in_bucket d.connection_id ext.disks ≡ some d → IsConsistent (remove_disk ext d)
  unfolding remove_disk
  remove_disk-IsConsistent found = record {
    counted = omega (arith, c.counted, length-remove d.connection_id ext.disks d found);
    placed =
        All-zip (IsPlaced ext.ids) (λ x. bit_of x ≢ bit_of d) _
          (remove_id d.connection_id ext.disks) keeps_place
          (All-remove (IsPlaced ext.ids) d.connection_id ext.disks c.placed)
          (remove-apart d.connection_id bit_of ext.disks d c.addressed found);
    addressed = Pairwise-remove OtherBit d.connection_id ext.disks c.addressed;
    old = All-remove (IsOld ext.last_connection_id) d.connection_id ext.disks c.old;
    identified = Pairwise-remove OtherId d.connection_id ext.disks c.identified;
    named = Pairwise-remove OtherName d.connection_id ext.disks c.named;
    hash_old = λ b.
        in_removed (All (IsOld ext.last_connection_id)) b
          (All-remove _ d.connection_id (ext.buckets b) (c.hash_old b)) (c.hash_old b);
    hash_identified = λ b.
        in_removed (Pairwise OtherId) b
          (Pairwise-remove OtherId d.connection_id (ext.buckets b) (c.hash_identified b))
          (c.hash_identified b);
    hashed = removed-hashed;
  }
