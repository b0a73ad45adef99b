-- ===== src/Connections/Remove.antt =====
-- A disk that goes, driver/userspace.c, gives back what it took when it came.
use wnbd.Prelude.{ℕ, ◌<◌, ◌≡◌, ◌≢◌, refl, true, false, List, [], ◌∷◌, ◌++◌, arith, All, ap}
use wnbd.Types.{Properties}
use wnbd.Connections.{
  max_disks, Disk, Extension, set_id, new_disk, add_disk, remove_id, remove_disk,
}
use wnbd.Connections.Address.{bit_of-new_disk}

-- No disk of the list has the connection id.
abbrev pub IsFreshId : ℕ → List Disk → Type 0
IsFreshId id = All (λ d. d.connection_id ≢ id)

remove_id-append :
    (id : ℕ) (ds : List Disk) (d : Disk)
    → IsFreshId id ds
    → d.connection_id ≡ id
    → remove_id id (ds ++ d ∷ []) ≡ ds
unfolding remove_id
remove_id-append id [] d h e = ground arith
remove_id-append id (x ∷ xs) d h e = ground (arith, remove_id-append id xs d h.1 e)

-- Adding a disk at a free bit of the bitmap, with a connection id that no disk has, and removing it
-- when it is torn down gives back the list, every bucket of the hash, the bitmap and the count.
pub remove_disk-add_disk :
    (ext : Extension) (p : Properties) (bit id : ℕ)
    → bit < max_disks
    → ext.ids bit ≡ false
    → IsFreshId id ext.disks
    → let d = new_disk p bit id in
      let ext' = remove_disk (add_disk (record ext { ids = set_id ext.ids bit true }) d) d in
      (ext'.disks ≡ ext.disks)
      × ((b : ℕ) → ext'.buckets b ≡ ext.buckets b)
      × ((i : ℕ) → ext'.ids i ≡ ext.ids i)
      × (ext'.device_count ≡ ext.device_count)
unfolding remove_disk add_disk new_disk
remove_disk-add_disk ext p bit id bound clear fresh =
    let d = new_disk p bit id in
    (
      remove_id-append id ext.disks d fresh refl,
      (λ b. ground arith),
      (λ i.
          ground (arith, (bit_of-new_disk p bit id bound).0, clear, λ (e : i ≡ bit). ap ext.ids e)),
      ground arith,
    )
