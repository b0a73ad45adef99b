-- ===== src/Nbd/Start/Accepts.antt =====
-- The mappings that TryStart of libwnbd/nbd_daemon.cpp accepts.
use native.Mathlib.Nat.{div-add-mod, mul_assoc}
use wnbd.Prelude.{
  ℕ, ◌*◌, ◌/◌, ◌%◌, ◌^◌, ◌≤◌, ◌<◌, ◌≡◌, refl, Bool, true, false, not, arith, ◌==◌, if◌then◌else◌,
  inl, inr, ◌⊎◌, ap, ◌∙◌, sym,
}
use wnbd.Nbd.Wire.{BlockSizeInfo}
use wnbd.Nbd.Socket.{Winsock, Outcome, ok, err, running, then_call}
use wnbd.Nbd.Handshake.{negotiate, Export}
use wnbd.Emulated.Pages.{max_transfer_length}
use wnbd.Nbd.Start.{
  no_export, thread_count, Mapping, StartHost, with_defaults, check_constraints, with_nbd_flags,
  check_block_count, with_export, find_export, create_mapping, try_start, default_block_size,
}

check_constraints-bounds :
    (info : BlockSizeInfo) (block_size : ℕ)
    → check_constraints info block_size ≡ ok tt
    → info.received ≡ true
    → 1 ≤ info.minimum
    → (block_size % info.minimum ≡ 0) × ((info.maximum ≡ 0) ⊎ (max_transfer_length ≤ info.maximum))
unfolding check_constraints
check_constraints-bounds info block_size h got one = ground (arith, h, got, one)

-- If the server's block size constraints are accepted, then every request for whole blocks of at most
-- 2 MiB keeps them: its offset and its length are multiples of the server's minimum, which is not 0,
-- and its length is at most the server's maximum, if there is one.
pub check_constraints-honoured :
    (info : BlockSizeInfo) (block_size address count : ℕ)
    → check_constraints info block_size ≡ ok tt
    → info.received ≡ true
    → 1 ≤ info.minimum
    → count * block_size ≤ max_transfer_length
    → ((k : ℕ) × (address * block_size ≡ k * info.minimum))
      × ((k : ℕ) × (count * block_size ≡ k * info.minimum))
      × ((info.maximum ≡ 0) ⊎ (count * block_size ≤ info.maximum))
check_constraints-honoured info block_size address count h got one fits =
    let (whole, top) = check_constraints-bounds info block_size h got one in
    let q = block_size / info.minimum in
    let e : block_size ≡ q * info.minimum =
      ground (arith, div-add-mod block_size info.minimum, whole) in
    (
      (address * q, ap (λ b. address * b) e ∙ sym (mul_assoc address q info.minimum)),
      (count * q, ap (λ b. count * b) e ∙ sym (mul_assoc count q info.minimum)),
      ground (arith, top, fits),
    )

abbrev pub IsAccepted : Mapping → Type 0
IsAccepted m =
    (m.block_size ≡ default_block_size)
    × (1 ≤ m.block_count)
    × (m.block_count * m.block_size < 2 ^ 64)

check_block_count-bounds :
    (m : Mapping)
    → check_block_count m ≡ ok tt
    → m.block_size ≡ 512
    → (1 ≤ m.block_count) × (m.block_count * m.block_size < 2 ^ 64)
unfolding check_block_count
check_block_count-bounds m h e = ground (arith, h, e)

-- A chain of calls that succeeds: its first call did, and the rest after it.
then-ok :
    {S A B : Type 0} (r : Outcome A × S) (f : A → S → Outcome B × S) (b : B)
    → (then_call r f).0 ≡ ok b
    → (a : A) × (r.0 ≡ ok a) × ((f a r.1).0 ≡ ok b)
then-ok (ok a, s) f b h = (a, refl, h)
then-ok (err e, s) f b h = cc
then-ok (running, s) f b h = cc

with_export-block_size :
    (m : Mapping) (x : Export) (r : Mapping × ℕ)
    → with_export m x ≡ ok r
    → r.0.block_size ≡ m.block_size
unfolding with_export
with_export-block_size m x r h = ground (arith, h)

if-ok :
    {S A : Type 0} (b : Bool) (x y : S → Outcome A × S) (s : S) (a : A)
    → ((if b then x else y) s).0 ≡ ok a
    → ((b ≡ true) × ((x s).0 ≡ ok a)) ⊎ ((b ≡ false) × ((y s).0 ≡ ok a))
if-ok true x y s a h = inl (refl, h)
if-ok false x y s a h = inr (refl, h)

module _ (w : Winsock) (host : StartHost w) where
  find_export-block_size :
      (fuel : ℕ) (m : Mapping) (s : w.State) (r : Mapping × ℕ)
      → (find_export w host fuel m s).0 ≡ ok r
      → r.0.block_size ≡ m.block_size
  unfolding find_export
  find_export-block_size fuel m s r h = elim (if-ok m.skip_negotiation _ _ s r h) [
    | inl (e, h') ↦ ground (arith, h')
    | inr (e, h') ↦
        let (x, h1, h2) = then-ok (negotiate w fuel true m.export_name 1 no_export s) _ r h' in
        with_export-block_size m x r h2
  ]

  create_mapping-same :
      (m p : Mapping) (s : w.State)
      → (create_mapping w host m s).0 ≡ ok p
      → (p ≡ m) × (check_block_count m ≡ ok tt)
  unfolding create_mapping
  create_mapping-same m p s h =
      let n = thread_count host.dispatcher_threads in
      let (a, h1, h2) = then-ok (check_block_count m, s) _ p h in
      let (b, h3, h4) = then-ok (host.create m s) _ p h2 in
      let (c, h5, h6) = then-ok (host.start_dispatcher n (host.create m s).1) _ p h4 in
      (ground (arith, h6), h1)

  -- A mapping that TryStart makes has blocks of 512 bytes, at least one of them, and a size in bytes
  -- below 2^64.
  pub try_start-IsAccepted :
      (fuel : ℕ) (m p : Mapping) (s : w.State) → (try_start w host fuel m s).0 ≡ ok p → IsAccepted p
  unfolding try_start with_nbd_flags
  try_start-IsAccepted fuel m p s h =
      let m' = with_defaults m in
      elim (if-ok (not (m'.block_size == default_block_size)) _ _ s p h) [
        | inl (e, h1) ↦ cc
        | inr (e, h1) ↦ elim (if-ok (not host.allocated) _ _ s p h1) [
          | inl (e', h2) ↦ cc
          | inr (e', h2) ↦
              let (a, h3, h4) = then-ok (host.connect s) _ p h2 in
              let s1 = (host.connect s).1 in
              let (b, h5, h6) = then-ok (host.set_tcp_flags s1) _ p h4 in
              let s2 = (host.set_tcp_flags s1).1 in
              let (found, h7, h8) = then-ok (find_export w host fuel m' s2) _ p h6 in
              let s3 = (find_export w host fuel m' s2).1 in
              let same = find_export-block_size fuel m' s2 found h7 in
              let (q, count) = create_mapping-same (with_nbd_flags found.1 found.0) p s3 h8 in
              let size : (with_nbd_flags found.1 found.0).block_size ≡ 512 =
                ground (arith, same, e) in
              let k = check_block_count-bounds (with_nbd_flags found.1 found.0) count size in
              ground (arith, q, size, k)
        ]
      ]
