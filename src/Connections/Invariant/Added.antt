-- ===== src/Connections/Invariant/Added.antt =====
-- WnbdCreateConnection of driver/userspace.c keeps the disks consistent.
use wnbd.Prelude.{
  ℕ, ◌+◌, ◌<◌, ◌^◌, ◌≡◌, ◌≢◌, refl, sym, ap, subst, ◌∙◌, Bool, true, false, Option, List, [], ◌∷◌,
  ◌++◌, ◌==◌, length, length-append, arith, Bool-cases, inl, inr, All, All-append, split-if,
}
use wnbd.Types.{Properties}
use wnbd.Connections.{
  max_disks, Disk, Extension, CreateEnv, set_id, id_bucket, find_in_bucket, find_by_conn_id,
  same_name, bit_of, new_disk, add_disk, create_connection,
}
use wnbd.Connections.Address.{bit_of-new_disk}
use wnbd.Connections.Create.{
  IsFindClear, IsAdded, added, failed, create_connection-Created, create_connection-last,
}
use wnbd.Connections.Pairs.{
  Pairwise, OtherId, All-weaken, Pairwise-append, find-append, find-append_new,
}
use wnbd.Connections.Invariant.{
  OtherBit, OtherName, IsPlaced, IsOld, IsConsistent, other_bit, find_by_name-absent,
  IsUntouched-IsConsistent,
}

-- Every id of an old list differs from a newer one.
newer :
    (last id : ℕ) (ds : List Disk)
    → last < id
    → All (IsOld last) ds
    → All (λ d. d.connection_id ≢ id) ds
newer last id ds lt h = All-weaken (IsOld last) _ ds (λ d le e. omega (arith, lt, le, e)) h

module _ (ext ext' : Extension) (x : Disk) (fresh : x.connection_id ≡ ext.last_connection_id + 1)
    (last : ext'.last_connection_id ≡ ext.last_connection_id + 1)
    (listed : ext'.disks ≡ ext.disks ++ x ∷ [])
    (entered : (b : ℕ) → ext'.buckets b ≡ (add_disk ext x).buckets b) (c : IsConsistent ext) where
  older : (d : Disk) → IsOld ext.last_connection_id d → IsOld ext'.last_connection_id d
  older d h = omega (arith, h, last)

  newest : IsOld ext'.last_connection_id x
  newest = omega (arith, fresh, last)

  -- A bucket after the insertion, for a property that its old contents and the new disk share.
  in_bucket :
      (P : List Disk → Type 0) (b : ℕ)
      → P (x ∷ ext.buckets b)
      → P (ext.buckets b)
      → P (ext'.buckets b)
  unfolding add_disk
  in_bucket P b h k =
      subst P (sym (entered b)) (split-if P (b == id_bucket x.connection_id) _ _ (λ e. h) (λ e. k))

  old_ids : (b : ℕ) → All (λ d. d.connection_id ≢ x.connection_id) (ext.buckets b)
  old_ids b =
      newer ext.last_connection_id x.connection_id (ext.buckets b) (omega (arith, fresh))
        (c.hash_old b)

  added-hash-IsOld : (b : ℕ) → All (IsOld ext'.last_connection_id) (ext'.buckets b)
  added-hash-IsOld b =
      let rest : All (IsOld ext'.last_connection_id) (ext.buckets b) =
        All-weaken _ _ (ext.buckets b) older (c.hash_old b) in
      in_bucket (All (IsOld ext'.last_connection_id)) b (newest, rest) rest

  added-hash_identified : (b : ℕ) → Pairwise OtherId (ext'.buckets b)
  added-hash_identified b =
      in_bucket (Pairwise OtherId) b (old_ids b, c.hash_identified b) (c.hash_identified b)

  added-hashed : (id : ℕ) → find_by_conn_id ext' id ≡ find_in_bucket id ext'.disks
  unfolding find_by_conn_id find_in_bucket add_disk
  added-hashed id = elim (Bool-cases (x.connection_id == id)) [
    | inl t ↦
        let same : x.connection_id ≡ id = ground (arith, t) in
        let fresh_id : All (λ d. d.connection_id ≢ id) ext.disks =
          newer ext.last_connection_id id ext.disks (omega (arith, fresh, same)) c.old in
        ap (find_in_bucket id) (entered (id_bucket id))
        ∙ ground (arith, t, same)
        ∙ sym (find-append_new id ext.disks x fresh_id same)
        ∙ ap (find_in_bucket id) (sym listed)
    | inr f ↦
        ap (find_in_bucket id) (entered (id_bucket id))
        ∙ ground (arith, f)
        ∙ c.hashed id
        ∙ sym (find-append id ext.disks x (ground (arith, f)))
        ∙ ap (find_in_bucket id) (sym listed)
  ]

-- The ids that a bitmap holds after one more was set.
still-IsPlaced :
    (ids ids' : ℕ → Bool) (bit : ℕ) (d : Disk)
    → ((i : ℕ) → ids' i ≡ set_id ids bit true i)
    → IsPlaced ids d
    → IsPlaced ids' d
still-IsPlaced ids ids' bit d same h = (h.0, same (bit_of d) ∙ ground (arith, h.1))

pub IsAdded-IsConsistent :
    (p : Properties) (ext ext' : Extension) (bit : ℕ)
    → ext.last_connection_id + 1 < 2 ^ 64
    → IsAdded p ext ext' bit
    → IsConsistent ext
    → IsConsistent ext'
unfolding new_disk add_disk id_bucket
IsAdded-IsConsistent p ext ext' bit room
      (clear, bound, listed, count, ids, size, wide, absent, refs, next, entered, new) c =
    let x : Disk = new_disk p bit ext'.last_connection_id in
    let last : ext'.last_connection_id ≡ ext.last_connection_id + 1 = omega (arith, next, room) in
    let fresh : x.connection_id ≡ ext.last_connection_id + 1 = new_id ∙ last in
    let place : bit_of x ≡ bit = (bit_of-new_disk p bit ext'.last_connection_id bound).0 in
    let old' : All (IsOld ext'.last_connection_id) ext.disks =
      All-weaken _ _ ext.disks (λ d h. omega (arith, h, last)) c.old in
    record {
      counted =
          count
          ∙ omega (arith, c.counted, length-append ext.disks (x ∷ []))
          ∙ ap (λ l. length l) (sym listed);
      placed = subst (All (IsPlaced ext'.ids)) (sym listed) (
          All-append (IsPlaced ext'.ids) ext.disks (x ∷ [])
            (All-weaken _ _ ext.disks (λ d h. still-IsPlaced ext.ids ext'.ids bit d ids h) c.placed)
            (
              (
                subst (λ i. i < max_disks) (sym place) bound,
                ap ext'.ids place ∙ ids bit ∙ ground arith,
              ),
              tt,
            ));
      addressed = subst (Pairwise OtherBit) (sym listed) (
          Pairwise-append OtherBit ext.disks x c.addressed (
            All-weaken (IsPlaced ext.ids) (λ d. OtherBit d x) ext.disks
              (λ d h e. other_bit ext.ids (bit_of d) bit h.1 clear (sym place ∙ e)) c.placed));
      old =
          subst (All (IsOld ext'.last_connection_id)) (sym listed)
            (All-append _ ext.disks (x ∷ []) old' (omega (arith, fresh, last), tt));
      identified = subst (Pairwise OtherId) (sym listed) (
          Pairwise-append OtherId ext.disks x c.identified (
            All-weaken (IsOld ext.last_connection_id) (λ d. OtherId d x) ext.disks
              (λ d h e. omega (arith, h, e, fresh)) c.old));
      named = subst (Pairwise OtherName) (sym listed) (
          Pairwise-append OtherName ext.disks x c.named (
            subst (λ n. All (λ d. same_name d.properties.instance_name n ≡ false) ext.disks)
              new_name (find_by_name-absent p.instance_name ext.disks absent)));
      hash_old = added-hash-IsOld ext ext' x fresh last listed entered c;
      hash_identified = added-hash_identified ext ext' x fresh last listed entered c;
      hashed = added-hashed ext ext' x fresh last listed entered c;
    }
  where
    new_id : (new_disk p bit ext'.last_connection_id).connection_id ≡ ext'.last_connection_id
    new_id = refl

    new_name : p.instance_name ≡ (new_disk p bit ext'.last_connection_id).properties.instance_name
    new_name = refl

-- Whatever WnbdCreateConnection returns.
pub create_connection-IsConsistent :
    (find_clear : (ℕ → Bool) → Option ℕ) (env : CreateEnv) (ext : Extension) (p : Properties)
    → IsFindClear find_clear
    → ext.last_connection_id + 1 < 2 ^ 64
    → IsConsistent ext
    → IsConsistent (create_connection find_clear env ext p).1
create_connection-IsConsistent find_clear env ext p f room c =
    let ext' = (create_connection find_clear env ext p).1 in
    elim (create_connection-Created find_clear env ext p f) [
      | added bit e h ↦ IsAdded-IsConsistent p ext ext' bit room h c
      | failed e h ↦
          IsUntouched-IsConsistent ext ext' h
            (ground (arith, create_connection-last find_clear env ext p, room)) c
    ]
