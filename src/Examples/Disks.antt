-- ===== src/Examples/Disks.antt =====
-- The theorems on the adapter's disks at concrete inputs.
use wnbd.Prelude.{
  ℕ, zero, suc, ◌+◌, ◌≤◌, ◌<◌, ◌≡◌, ◌≢◌, refl, Bool, true, false, Option, none, some, [], arith, ap,
  if◌then◌else◌,
}
use wnbd.Wdk.{NtStatus}
use wnbd.Connections.{
  Disk, Extension, CreateEnv, find_by_conn_id, new_disk, add_disk, set_disk_size, create_connection,
}
use wnbd.Connections.Create.{
  IsFindClear, Created, leaked, create_connection-Created, create_connection-references,
}
use wnbd.Connections.Resize.{set_disk_size-find}
use wnbd.Examples.{properties}

-- The first clear bit from `i` on, of the `n` bits that are left.
unfoldable pub first_clear : ℕ → ℕ → (ℕ → Bool) → Option ℕ
first_clear zero i ids = none
first_clear (suc n) i ids = let rest = first_clear n (suc i) ids in if ids i then rest else some i

first_clear-clear :
    (n i : ℕ) (ids : ℕ → Bool) (bit : ℕ)
    → first_clear n i ids ≡ some bit
    → (ids bit ≡ false) × (bit < i + n)
unfolding first_clear
first_clear-clear zero i ids bit h = ground arith
first_clear-clear (suc n) i ids bit h =
    ground (arith, first_clear-clear n (suc i) ids bit, λ (e : i ≡ bit). ap ids e)

first_clear-full :
    (n i : ℕ) (ids : ℕ → Bool) (bit : ℕ)
    → first_clear n i ids ≡ none
    → i ≤ bit
    → bit < i + n
    → ids bit ≡ true
unfolding first_clear
first_clear-full zero i ids bit h le lt = ground arith
first_clear-full (suc n) i ids bit h le lt =
    ground (arith, first_clear-full n (suc i) ids bit, λ (e : i ≡ bit). ap ids e)

abbrev pub find_clear : (ℕ → Bool) → Option ℕ
find_clear = first_clear 128 0

pub find_clear-IsFindClear : IsFindClear find_clear
find_clear-IsFindClear = record {
  clear = λ ids bit h. first_clear-clear 128 0 ids bit h;
  full = λ ids bit h lt. first_clear-full 128 0 ids bit h (omega arith) lt;
}

abbrev pub empty : Extension
empty = record {
  disks = [];
  buckets = λ b. [];
  device_count = 0;
  references = 0;
  ids = λ i. false;
  last_connection_id = 1;
}

abbrev pub create_env : CreateEnv
create_env = record {
  new_mappings_allowed = true;
  rundown_acquired = true;
  device_allocated = true;
  inquiry_allocated = true;
  thread_started = true;
}

create_connection-Created_example :
    Created properties empty (create_connection find_clear create_env empty properties)
create_connection-Created_example =
    create_connection-Created find_clear create_env empty properties find_clear-IsFindClear

-- New mappings are forbidden, and the reference stays.
abbrev forbidding : CreateEnv
forbidding = record create_env { new_mappings_allowed = false }

create_connection-references_example :
    let r = create_connection find_clear forbidding empty properties in
    (r.0 ≡ NtStatus.success → r.1.references ≡ empty.references + 1)
    × (r.0 ≢ NtStatus.success
        → r.1.references ≡ empty.references + leaked forbidding empty properties)
create_connection-references_example =
    create_connection-references find_clear forbidding empty properties

abbrev pub disk : Disk
disk = new_disk properties 5 2

abbrev pub one_disk : Extension
one_disk = add_disk empty disk

one_disk-found : find_by_conn_id one_disk 2 ≡ some disk
unfolding find_by_conn_id add_disk new_disk
one_disk-found = refl

disk-held : disk.released ≡ false
unfolding new_disk
disk-held = refl

set_disk_size-find_example :
    ((set_disk_size one_disk 2 2000).0 ≡ NtStatus.success)
    × (find_by_conn_id (set_disk_size one_disk 2 2000).1 2
        ≡ some (record disk { properties = record disk.properties { block_count = 2000 } }))
    × (find_by_conn_id (set_disk_size one_disk 2 2000).1 66 ≡ find_by_conn_id one_disk 66)
set_disk_size-find_example =
    set_disk_size-find one_disk 2 2000 66 disk one_disk-found disk-held (ground arith)
