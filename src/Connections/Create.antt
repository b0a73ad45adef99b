-- ===== src/Connections/Create.antt =====
-- What WnbdCreateConnection of driver/userspace.c does to the adapter, on every branch.
use wnbd.Prelude.{
  List, ◌==◌, ◌⊎◌, ℕ, ◌+◌, ◌-◌, ◌*◌, ◌/◌, ◌%◌, ◌≤◌, ◌<◌, ◌^◌, ◌≡◌, ◌≢◌, refl, Bool, true, false,
  Option, none, some, [], ◌∷◌, ◌++◌, arith, not, if◌then◌else◌, subst, sym, ◌||◌, ◌&&◌, ap, ◌∙◌,
}
use wnbd.Word.{inc64}
use wnbd.Wdk.{NtStatus}
use wnbd.Types.{Properties}
use wnbd.Connections.{
  id_bucket, max_disks, Disk, Extension, CreateEnv, set_id, find_by_name, is_some, is_bad_size,
  new_disk, add_disk, create_at, create_bit, create_connection, create_named, acquire,
}

-- A search of the bitmap as documented: a clear bit of the bitmap, or none if all are set.
pub record IsFindClear (find_clear : (ℕ → Bool) → Option ℕ) : Type 0 where
  pub clear :
      (ids : ℕ → Bool) (bit : ℕ) → find_clear ids ≡ some bit → (ids bit ≡ false) × (bit < max_disks)
  pub full : (ids : ℕ → Bool) (bit : ℕ) → find_clear ids ≡ none → bit < max_disks → ids bit ≡ true

-- Nothing but references, and a connection id, was used up.
abbrev pub IsUntouched : Extension → Extension → Type 0
IsUntouched ext ext' =
    (ext'.disks ≡ ext.disks)
    × (ext'.buckets ≡ ext.buckets)
    × (ext'.device_count ≡ ext.device_count)
    × ((i : ℕ) → ext'.ids i ≡ ext.ids i)

-- The disk `d` is new: it has the properties `p`, the SCSI address 0:bit:0 and the connection id `id`,
-- nobody holds it and it is not being removed.
abbrev pub IsNew : Properties → ℕ → ℕ → Disk → Type 0
IsNew p bit id d =
    (d.properties ≡ p)
    × (d.bus ≡ 0)
    × (d.target ≡ bit)
    × (d.lun ≡ 0)
    × (d.connection_id ≡ id)
    × (d.references ≡ 0)
    × (d.released ≡ false)

-- A disk was added last, at a bit that was clear, with a size that 64 bits hold and the next connection
-- id, in whose bucket it comes first.
abbrev pub IsAdded : Properties → Extension → Extension → ℕ → Type 0
IsAdded p ext ext' bit =
    (ext.ids bit ≡ false)
    × (bit < max_disks)
    × (ext'.disks ≡ ext.disks ++ new_disk p bit ext'.last_connection_id ∷ [])
    × (ext'.device_count ≡ ext.device_count + 1)
    × ((i : ℕ) → ext'.ids i ≡ set_id ext.ids bit true i)
    × (p.block_size ≡ 512)
    × (p.block_count * p.block_size < 2 ^ 64)
    × (find_by_name p.instance_name ext.disks ≡ none)
    × (ext'.references ≡ ext.references + 1)
    × (ext'.last_connection_id ≡ inc64 ext.last_connection_id)
    × ((b : ℕ)
        → ext'.buckets b ≡ (
            if b == ext'.last_connection_id % 64
            then new_disk p bit ext'.last_connection_id ∷ ext.buckets b
            else ext.buckets b))
    × IsNew p bit ext'.last_connection_id (new_disk p bit ext'.last_connection_id)

-- The result of a call: a disk, or a failure that leaves the disks and the bitmap alone.
pub data Created (p : Properties) (ext : Extension) (r : NtStatus × Extension) : Type 0 where
  added : (bit : ℕ) → r.0 ≡ NtStatus.success → IsAdded p ext r.1 bit → Created p ext r
  failed : r.0 ≢ NtStatus.success → IsUntouched ext r.1 → Created p ext r

Created-if :
    {p : Properties} {ext : Extension} (b : Bool) (x y : NtStatus × Extension)
    → (b ≡ true → Created p ext x)
    → (b ≡ false → Created p ext y)
    → Created p ext (if b then x else y)
Created-if true x y f g = f refl
Created-if false x y f g = g refl

good_size :
    (p : Properties)
    → is_bad_size p ≡ false
    → (p.block_size ≡ 512) × (p.block_count * p.block_size < 2 ^ 64)
good_size p h =
    let size : p.block_size ≡ 512 = ground arith in
    let count : p.block_count ≤ (2 ^ 64 - 1) / 512 = ground (arith, size) in
    (size, subst (λ s. p.block_count * s < 2 ^ 64) (sym size) (omega (arith, count)))

-- A bit that is set and cleared again.
set_clear :
    (ids : ℕ → Bool) (bit i : ℕ)
    → ids bit ≡ false
    → set_id (set_id ids bit true) bit false i ≡ ids i
set_clear ids bit i h = ground (arith, λ (e : i ≡ bit). ap ids e)

-- The bucket `b` of a hash that a disk enters.
abbrev with_bucket : (ℕ → List Disk) → ℕ → Disk → ℕ → List Disk
with_bucket f id d b = if b == id % 64 then d ∷ f b else f b

-- The address of a bit of the bitmap: the only bus, the target that the bit counts, the only LUN.
pub new_disk-IsNew :
    (p : Properties) (bit id : ℕ) → bit < max_disks → IsNew p bit id (new_disk p bit id)
unfolding new_disk
new_disk-IsNew p bit id h =
    (refl, omega (arith, h), omega (arith, h), omega (arith, h), refl, refl, refl)

module _ (env : CreateEnv) (ext : Extension) (p : Properties) where
  create_at-Created :
      (bit : ℕ) (ext' : Extension)
      → ext'.disks ≡ ext.disks
      → ext'.buckets ≡ ext.buckets
      → ext'.device_count ≡ ext.device_count
      → ext'.ids ≡ ext.ids
      → ext'.references ≡ ext.references + 1
      → ext'.last_connection_id ≡ ext.last_connection_id
      → find_by_name p.instance_name ext.disks ≡ none
      → ext.ids bit ≡ false
      → bit < max_disks
      → Created p ext (create_at env ext' p bit)
  unfolding create_at add_disk id_bucket new_disk
  create_at-Created bit ext' hd hb hc hi hr hl name clear bound =
      Created-if (is_bad_size p) _ _
        (λ bad.
          failed (λ e. cc)
            (
              hd,
              hb,
              hc,
              λ i. set_clear ext'.ids bit i (ap (λ f. f bit) hi ∙ clear) ∙ ap (λ f. f i) hi,
            ))
        (λ good.
          Created-if (not env.thread_started) _ _
            (λ failed_start.
              failed (λ e. cc)
                (
                  hd,
                  hb,
                  hc,
                  λ i. set_clear ext'.ids bit i (ap (λ f. f bit) hi ∙ clear) ∙ ap (λ f. f i) hi,
                ))
            (λ started. added bit refl (
              clear,
              bound,
              ap (λ l. l ++ new_disk p bit (inc64 ext'.last_connection_id) ∷ []) hd,
              ap (λ n. n + 1) hc,
              (λ i. ap (λ f. set_id f bit true i) hi),
              (good_size p good).0,
              (good_size p good).1,
              name,
              hr,
              ap inc64 hl,
              (λ b.
                  ap
                    (λ f.
                      with_bucket f (inc64 ext'.last_connection_id)
                        (new_disk p bit (inc64 ext'.last_connection_id)) b)
                    hb),
              new_disk-IsNew p bit (inc64 ext'.last_connection_id) bound,
            )))

  abbrev referenced : Extension
  referenced = record ext { references = ext.references + 1 }

  create_bit-Created :
      (find_clear : (ℕ → Bool) → Option ℕ) (answer : Option ℕ)
      → IsFindClear find_clear
      → find_clear ext.ids ≡ answer
      → find_by_name p.instance_name ext.disks ≡ none
      → Created p ext (create_bit env referenced p answer)
  unfolding create_bit
  create_bit-Created find_clear none f e name = failed (λ e. cc) (refl, refl, refl, λ i. refl)
  create_bit-Created find_clear (some bit) f e name =
      create_at-Created bit referenced refl refl refl refl refl refl name (f.clear ext.ids bit e).0
        (f.clear ext.ids bit e).1

  absent : (o : Option Disk) → is_some o ≡ false → o ≡ none
  absent none h = refl
  absent (some d) h = ground arith

  named-Created :
      (find_clear : (ℕ → Bool) → Option ℕ)
      → IsFindClear find_clear
      → Created p ext (create_named find_clear env referenced p)
  unfolding create_named
  named-Created find_clear f =
      Created-if (is_some (find_by_name p.instance_name ext.disks)) _ _
        (λ h. failed (λ e. cc) (refl, refl, refl, λ i. refl))
        (λ name.
          Created-if (not env.device_allocated) _ _
            (λ h. failed (λ e. cc) (refl, refl, refl, λ i. refl))
            (λ h.
              Created-if (not env.inquiry_allocated) _ _
                (λ h. failed (λ e. cc) (refl, refl, refl, λ i. refl))
                (λ h.
                  create_bit-Created find_clear (find_clear ext.ids) f refl
                    (absent (find_by_name p.instance_name ext.disks) name))))

  acquired-Created :
      (find_clear : (ℕ → Bool) → Option ℕ) (acquired : Bool)
      → IsFindClear find_clear
      → Created p ext (
          if not env.new_mappings_allowed || not acquired
          then (NtStatus.shutdown_in_progress, acquire acquired ext)
          else create_named find_clear env (acquire acquired ext) p)
  acquired-Created find_clear true f =
      Created-if (not env.new_mappings_allowed || not true) _ _
        (λ h. failed (λ e. cc) (refl, refl, refl, λ i. refl)) (λ h. named-Created find_clear f)
  acquired-Created find_clear false f =
      Created-if (not env.new_mappings_allowed || not false) _ _
        (λ h. failed (λ e. cc) (refl, refl, refl, λ i. refl)) (λ h. ground arith)

-- Whatever the allocator and the thread manager answer, WnbdCreateConnection either fails, and then
-- the disks, the hash, the count and the bitmap are as before; or it adds one disk, last, whose name
-- no other disk has, at the SCSI address 0:bit:0 of a bit that was clear and is now set, with 512-byte blocks and a size in bytes that 64
-- bits hold, under the next connection id, in whose bucket of the hash it comes first, and holds one
-- more reference to the adapter. The bitmap search finds a clear bit of the
-- adapter's.
pub create_connection-Created :
    (find_clear : (ℕ → Bool) → Option ℕ) (env : CreateEnv) (ext : Extension) (p : Properties)
    → IsFindClear find_clear
    → Created p ext (create_connection find_clear env ext p)
unfolding create_connection
create_connection-Created find_clear env ext p f =
    acquired-Created env ext p find_clear env.rundown_acquired f

-- A call uses up at most one connection id.
pub create_connection-last :
    (find_clear : (ℕ → Bool) → Option ℕ) (env : CreateEnv) (ext : Extension) (p : Properties)
    → let last = (create_connection find_clear env ext p).1.last_connection_id in
      (last ≡ ext.last_connection_id) ⊎ (last ≡ inc64 ext.last_connection_id)
unfolding create_connection create_named create_bit create_at add_disk
create_connection-last find_clear env ext p = ground arith

-- A call that succeeds was allowed.
pub create_connection-allowed :
    (find_clear : (ℕ → Bool) → Option ℕ) (env : CreateEnv) (ext : Extension) (p : Properties)
    → (create_connection find_clear env ext p).0 ≡ NtStatus.success
    → env.new_mappings_allowed ≡ true
unfolding create_connection
create_connection-allowed find_clear env ext p h = ground (arith, h)

-- The references that a failed call leaks: it was allowed to hold the adapter, and found new mappings
-- forbidden, its name taken, or no memory for the disk.
abbrev pub leaked : CreateEnv → Extension → Properties → ℕ
leaked env ext p =
    if env.rundown_acquired
      && (not env.new_mappings_allowed
          || is_some (find_by_name p.instance_name ext.disks)
          || not env.device_allocated)
    then 1
    else 0

-- The adapter's references after a call: one more for a disk that was added; for a failure, as many
-- as before, but one more if the call was allowed to hold the adapter and then found new mappings
-- forbidden, the name taken, or no memory for the disk, where the reference is never given back.
pub create_connection-references :
    (find_clear : (ℕ → Bool) → Option ℕ) (env : CreateEnv) (ext : Extension) (p : Properties)
    → let r = create_connection find_clear env ext p in
      (r.0 ≡ NtStatus.success → r.1.references ≡ ext.references + 1)
      × (r.0 ≢ NtStatus.success → r.1.references ≡ ext.references + leaked env ext p)
unfolding create_connection create_named create_bit create_at add_disk
create_connection-references find_clear env ext p = ground arith
