-- ===== src/Connections.antt =====
-- The disks of an adapter, driver/userspace.c and the lookups of driver/util.c: SCSI addresses from a
-- bitmap, the device list and its hash by connection id, the adapter's rundown protection. What the
-- allocator, the thread manager and the bitmap search answer is an argument.
pub mod Address
pub mod Create
pub mod Remove
pub mod Pairs
pub mod Invariant
pub mod Resize
use wnbd.Prelude.{
  ℕ, ◌+◌, ◌-◌, ◌*◌, ◌/◌, ◌%◌, ◌^◌, map, Bool, true, false, ◌&&◌, ◌||◌, not, Option, none, some,
  List, [], ◌∷◌, ◌++◌, ◌==◌, ltb, if◌then◌else◌,
}
use wnbd.Word.{wrap16, inc64}
use wnbd.Wdk.{NtStatus}
use wnbd.Types.{Properties}

-- WNBD_MAX_LUNS_PER_TARGET, WNBD_MAX_TARGETS_PER_BUS, WNBD_MAX_BUSES_PER_ADAPTER
abbrev pub max_luns : ℕ
max_luns = 1

abbrev pub max_targets : ℕ
max_targets = 128

abbrev pub max_buses : ℕ
max_buses = 1

-- WNBD_MAX_NUMBER_OF_DISKS
abbrev pub max_disks : ℕ
max_disks = max_luns * max_targets * max_buses

-- A mapped disk as the adapter sees it; `released` once the monitor thread waits for its references.
pub record Disk : Type 0 where
  pub properties : Properties
  pub bus : ℕ
  pub target : ℕ
  pub lun : ℕ
  pub connection_id : ℕ
  pub references : ℕ
  pub released : Bool

-- WNBD_EXTENSION, with the statics of driver/userspace.c: the bitmap and the last connection id.
-- `references` counts what holds its rundown protection.
pub record Extension : Type 0 where
  pub disks : List Disk
  pub buckets : ℕ → List Disk
  pub device_count : ℕ
  pub references : ℕ
  pub ids : ℕ → Bool
  pub last_connection_id : ℕ

-- WNBD_CONN_ID_BUCKET: `ConnId & (64 - 1)`
unfoldable pub id_bucket : ℕ → ℕ
id_bucket id = id % 64

abbrev pub set_id : (ℕ → Bool) → ℕ → Bool → ℕ → Bool
set_id ids bit value i = if i == bit then value else ids i

-- The three lookups, without acquiring the disk.
unfoldable pub find_by_addr : ℕ → ℕ → ℕ → List Disk → Option Disk
find_by_addr bus target lun [] = none
find_by_addr bus target lun (d ∷ ds) =
    if (d.bus == bus) && (d.target == target) && (d.lun == lun)
    then some d
    else find_by_addr bus target lun ds

unfoldable pub find_in_bucket : ℕ → List Disk → Option Disk
find_in_bucket id [] = none
find_in_bucket id (d ∷ ds) = if d.connection_id == id then some d else find_in_bucket id ds

unfoldable pub find_by_conn_id : Extension → ℕ → Option Disk
unfolding find_in_bucket id_bucket
find_by_conn_id ext id = find_in_bucket id (ext.buckets (id_bucket id))

-- strcmp
unfoldable pub same_name : List ℕ → List ℕ → Bool
same_name [] [] = true
same_name (x ∷ xs) (y ∷ ys) = (x == y) && same_name xs ys
same_name _ _ = false

unfoldable pub find_by_name : List ℕ → List Disk → Option Disk
unfolding same_name
find_by_name name [] = none
find_by_name name (d ∷ ds) =
    if same_name d.properties.instance_name name then some d else find_by_name name ds

-- The address of a bit of the bitmap, and the bit that the monitor thread clears.
abbrev pub bus_of : ℕ → ℕ
bus_of bit = wrap16 (bit / max_luns / max_targets)

abbrev pub target_of : ℕ → ℕ
target_of bit = wrap16 (bit / max_luns % max_targets)

abbrev pub lun_of : ℕ → ℕ
lun_of bit = bit % max_luns

unfoldable pub bit_of : Disk → ℕ
bit_of d = d.lun + d.target * max_luns + d.bus * max_luns * max_targets

-- What the environment answers during WnbdCreateConnection.
pub record CreateEnv : Type 0 where
  pub new_mappings_allowed : Bool
  pub rundown_acquired : Bool
  pub device_allocated : Bool
  pub inquiry_allocated : Bool
  pub thread_started : Bool

-- The checks that follow the choice of an address.
abbrev pub is_bad_size : Properties → Bool
is_bad_size p =
    not (p.block_size == 512)
    || (p.block_count == 0)
    || ltb ((2 ^ 64 - 1) / p.block_size) p.block_count

unfoldable pub new_disk : Properties → ℕ → ℕ → Disk
new_disk p bit id = record {
  properties = p;
  bus = bus_of bit;
  target = target_of bit;
  lun = lun_of bit;
  connection_id = id;
  references = 0;
  released = false;
}

-- The disk enters the list and the hash.
unfoldable pub add_disk : Extension → Disk → Extension
unfolding id_bucket
add_disk ext d = record ext {
  disks = ext.disks ++ d ∷ [];
  buckets = λ b. if b == id_bucket d.connection_id then d ∷ ext.buckets b else ext.buckets b;
  device_count = ext.device_count + 1;
}

-- ExAcquireRundownProtection and ExReleaseRundownProtection on the adapter.
abbrev pub acquire : Bool → Extension → Extension
acquire acquired ext = if acquired then record ext { references = ext.references + 1 } else ext

abbrev pub release_adapter : Extension → Extension
release_adapter ext = record ext { references = ext.references - 1 }

-- The label `Exit` of a device whose address, if it has one, is `bit`.
abbrev pub give_up : Extension → NtStatus → NtStatus × Extension
give_up ext status = (status, release_adapter ext)

-- An address was found.
unfoldable pub create_at : CreateEnv → Extension → Properties → ℕ → NtStatus × Extension
unfolding new_disk add_disk
create_at env ext p bit =
    let id = inc64 ext.last_connection_id in
    let ext' = record ext { last_connection_id = id; ids = set_id ext.ids bit true } in
    let cleared = record ext' { ids = set_id ext'.ids bit false } in
    if is_bad_size p
    then give_up cleared NtStatus.invalid_parameter
    else if not env.thread_started
    then give_up cleared NtStatus.insufficient_resources
    else (NtStatus.success, add_disk ext' (new_disk p bit id))

-- RtlFindClearBitsAndSet answered.
unfoldable pub create_bit : CreateEnv → Extension → Properties → Option ℕ → NtStatus × Extension
unfolding create_at
create_bit env ext p none = give_up ext NtStatus.too_many_addresses
create_bit env ext p (some bit) = create_at env ext p bit

abbrev pub is_some {ℓ} : {A : Type ℓ} → Option A → Bool
is_some none = false
is_some (some a) = true

-- The adapter takes new disks, and is referenced.
unfoldable pub create_named :
    ((ℕ → Bool) → Option ℕ) → CreateEnv → Extension → Properties → NtStatus × Extension
unfolding create_bit
create_named find_clear env ext p =
    if is_some (find_by_name p.instance_name ext.disks)
    then (NtStatus.object_name_collision, ext)
    else if not env.device_allocated
    then (NtStatus.insufficient_resources, ext)
    else if not env.inquiry_allocated
    then give_up ext NtStatus.insufficient_resources
    else create_bit env ext p (find_clear ext.ids)

-- WnbdCreateConnection; `find_clear` is RtlFindClearBitsAndSet on the bitmap.
unfoldable pub create_connection :
    ((ℕ → Bool) → Option ℕ) → CreateEnv → Extension → Properties → NtStatus × Extension
unfolding create_named
create_connection find_clear env ext p =
    let ext' = acquire env.rundown_acquired ext in
    if not env.new_mappings_allowed || not env.rundown_acquired
    then (NtStatus.shutdown_in_progress, ext')
    else create_named find_clear env ext' p

-- WnbdSetDiskSize. The disk is one object, in the list and in the hash.
abbrev pub resize : ℕ → ℕ → Disk → Disk
resize id block_count d =
    if d.connection_id == id
    then record d { properties = record d.properties { block_count = block_count } }
    else d

unfoldable pub set_found : Extension → ℕ → ℕ → Option Disk → NtStatus × Extension
set_found ext id block_count none = (NtStatus.object_name_not_found, ext)
set_found ext id block_count (some d) =
    if d.released then (NtStatus.object_name_not_found, ext) else (
      NtStatus.success,
      record ext {
        disks = map (resize id block_count) ext.disks;
        buckets = λ b. map (resize id block_count) (ext.buckets b);
      },
    )

unfoldable pub set_disk_size : Extension → ℕ → ℕ → NtStatus × Extension
unfolding set_found
set_disk_size ext id block_count = set_found ext id block_count (find_by_conn_id ext id)

-- RemoveEntryList on a disk, by its connection id.
unfoldable pub remove_id : ℕ → List Disk → List Disk
remove_id id [] = []
remove_id id (d ∷ ds) = if d.connection_id == id then ds else d ∷ remove_id id ds

-- The end of WnbdDeviceMonitorThread: the disk leaves the list and the hash, its bit is cleared.
unfoldable pub remove_disk : Extension → Disk → Extension
unfolding remove_id bit_of id_bucket
remove_disk ext d = record ext {
  disks = remove_id d.connection_id ext.disks;
  buckets = λ b.
      if b == id_bucket d.connection_id
      then remove_id d.connection_id (ext.buckets b)
      else ext.buckets b;
  ids = set_id ext.ids (bit_of d) false;
  device_count = ext.device_count - 1;
  references = ext.references - 1;
}
