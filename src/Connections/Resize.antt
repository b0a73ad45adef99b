-- ===== src/Connections/Resize.antt =====
-- WnbdSetDiskSize of driver/userspace.c through the lookup by connection id of driver/util.c.
use wnbd.Prelude.{ℕ, ◌≡◌, ◌≢◌, refl, false, some, List, [], ◌∷◌, arith, map}
use wnbd.Wdk.{NtStatus}
use wnbd.Connections.{
  Disk, Extension, id_bucket, find_in_bucket, find_by_conn_id, resize, set_disk_size,
}

find_in_bucket-id :
    (id : ℕ) (ds : List Disk) (d : Disk) → find_in_bucket id ds ≡ some d → d.connection_id ≡ id
unfolding find_in_bucket
find_in_bucket-id id [] d h = ground arith
find_in_bucket-id id (x ∷ xs) d h = ground (arith, find_in_bucket-id id xs d)

-- The disk `d` with `n` blocks, and nothing else changed.
abbrev pub with_blocks : ℕ → Disk → Disk
with_blocks n d = record d { properties = record d.properties { block_count = n } }

find_resized :
    (id n : ℕ) (ds : List Disk) (d : Disk)
    → find_in_bucket id ds ≡ some d
    → find_in_bucket id (map (resize id n) ds) ≡ some (with_blocks n d)
unfolding find_in_bucket
find_resized id n [] d h = ground arith
find_resized id n (x ∷ xs) d h = ground (arith, find_resized id n xs d)

-- A lookup that no resize touches: the other disks keep their records.
find_other :
    (id n j : ℕ) (ds : List Disk)
    → j ≢ id
    → find_in_bucket j (map (resize id n) ds) ≡ find_in_bucket j ds
unfolding find_in_bucket
find_other id n j [] h = refl
find_other id n j (x ∷ xs) h = ground (arith, find_other id n j xs h)

-- If the disk of a connection id is found and not being released, setting its size succeeds, and from
-- then on that id finds the disk with `n` blocks and nothing else changed, while every other id finds what it found before.
pub set_disk_size-find :
    (ext : Extension) (id n j : ℕ) (d : Disk)
    → find_by_conn_id ext id ≡ some d
    → d.released ≡ false
    → j ≢ id
    → ((set_disk_size ext id n).0 ≡ NtStatus.success)
      × (find_by_conn_id (set_disk_size ext id n).1 id
          ≡ some (record d { properties = record d.properties { block_count = n } }))
      × (find_by_conn_id (set_disk_size ext id n).1 j ≡ find_by_conn_id ext j)
unfolding set_disk_size find_by_conn_id
set_disk_size-find ext id n j d h r ne = ground (
  arith,
  find_resized id n (ext.buckets (id_bucket id)) d h,
  find_other id n j (ext.buckets (id_bucket j)) ne,
)
