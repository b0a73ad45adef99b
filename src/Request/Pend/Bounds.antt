-- ===== src/Request/Pend/Bounds.antt =====
-- `WnbdPendOperation` of driver/scsi_operation.c queues nothing outside the disk.
use native.Mathlib.Nat.{mul-le-mul_right}
use wnbd.Prelude.{
  ℕ, zero, suc, ◌+◌, ◌*◌, ◌^◌, ◌≤◌, ◌<◌, ◌≡◌, Bool, false, Option, none, some, List, [], ◌∷◌, arith,
  inl, ltb, All, get_or,
}
use wnbd.Word.{wrap32, wrap64}
use wnbd.Wdk.{ScsiOp}
use wnbd.Types.{Device, Element, Srb}
use wnbd.Cdb.{Range, cdb_get_range, opcode}
use wnbd.Request.Pend.{
  PendEnv, is_outside, pend_element, pend_range, pend_unmap, pend_reservation, pend_command,
  pend_operation, pend_cdb, unmap_buffer, unmap_list, pend_descriptor, unmap_address, unmap_count,
}
use wnbd.Request.Pend.Outcome.{
  Outcome, Enqueued-mono, pend_element-Outcome, Refused-buffer_too_small, Refused-invalid_parameter,
  Refused-success, Outcome-if,
}

-- The bytes of a request lie in the disk.
abbrev pub InDisk : Device → Element → Type 0
InDisk d e = e.starting_lbn + e.data_length ≤ d.properties.block_count * d.properties.block_size

abbrev pub IsBytes : List ℕ → Type 0
IsBytes = All (λ b. b < 256)

IsBytes-get_or : (xs : List ℕ) (i : ℕ) → IsBytes xs → get_or xs i 0 < 256
IsBytes-get_or [] i h = omega arith
IsBytes-get_or (x ∷ xs) zero h = h.0
IsBytes-get_or (x ∷ xs) (suc i) h = IsBytes-get_or xs i h.1

-- What a decoded range can be, for any bytes.
range_bounds :
    (cdb : List ℕ)
    → IsBytes cdb
    → ((cdb_get_range cdb).offset < 2 ^ 64) × ((cdb_get_range cdb).count < 2 ^ 32)
unfolding cdb_get_range
range_bounds cdb h =
    let b = λ (i : ℕ). IsBytes-get_or cdb i h in
    ground (arith, b 1, b 2, b 3, b 4, b 5, b 6, b 7, b 8, b 9, b 10, b 11, b 12, b 13)

unmap_bounds : (b : List ℕ) → IsBytes b → (unmap_address b < 2 ^ 64) × (unmap_count b < 2 ^ 32)
unmap_bounds buffer h =
    let b = λ (i : ℕ). IsBytes-get_or buffer i h in
    omega (arith, b 8, b 9, b 10, b 11, b 12, b 13, b 14, b 15, b 16, b 17, b 18, b 19)

inside_lem :
    (d : Device) (a c : ℕ)
    → a < 2 ^ 64
    → c < 2 ^ 32
    → is_outside d a c ≡ false
    → a + c ≤ d.properties.block_count
inside_lem d a c ha hc h = ground arith

scaled_le : (a c n s : ℕ) → a + c ≤ n → a * s + c * s ≤ n * s
scaled_le a c n s h = omega (arith, mul-le-mul_right s h)

in_disk_arith :
    (a c n s : ℕ) → a + c ≤ n → n * s < 2 ^ 64 → wrap64 (a * s) + wrap32 (wrap32 (c * s)) ≤ n * s
in_disk_arith a c n s h k = omega (arith, scaled_le a c n s h)

in_disk_arith64 :
    (a c n s : ℕ) → a + c ≤ n → n * s < 2 ^ 64 → wrap64 (a * s) + wrap32 (wrap64 (c * s)) ≤ n * s
in_disk_arith64 a c n s h k = omega (arith, scaled_le a c n s h)

-- WnbdCreateConnection maps no disk whose bytes a 64-bit number cannot count.
abbrev pub IsMappable : Device → Type 0
IsMappable d = d.properties.block_count * d.properties.block_size < 2 ^ 64

-- What may be queued for a command: a reservation's buffer, or a range of the disk.
abbrev pub IsPermitted : Device → ScsiOp → Element → Type 0
IsPermitted d ScsiOp.persistent_reserve_in e =
    (e.starting_lbn ≡ 0) × (e.data_length ≤ 2 * 1024 * 1024)
IsPermitted d ScsiOp.persistent_reserve_out e =
    (e.starting_lbn ≡ 0) × (e.data_length ≤ 2 * 1024 * 1024)
IsPermitted d _ e = InDisk d e

abbrev pub IsBuffer : Option (List ℕ) → Type 0
IsBuffer none = Unit {0}
IsBuffer (some b) = IsBytes b

module _ (env : PendEnv) (d : Device) (srb : Srb) where
  module _ (m : IsMappable d) where
    inside-Outcome :
        (a c : ℕ) (fua : Bool)
        → a + c ≤ d.properties.block_count
        → Outcome (InDisk d) env d srb (
            pend_element env d srb
              (wrap64 (a * d.properties.block_size))
              (wrap32 (c * d.properties.block_size))
              fua)
    inside-Outcome a c fua h =
        let arith_lem = in_disk_arith a c d.properties.block_count d.properties.block_size h m in
        Enqueued-mono (λ e r. omega arith) (pend_element-Outcome env d srb _ _ fua)

    inside-Outcome64 :
        (a c : ℕ)
        → a + c ≤ d.properties.block_count
        → Outcome (InDisk d) env d srb (
            pend_element env d srb
              (wrap64 (a * d.properties.block_size))
              (wrap64 (c * d.properties.block_size))
              false)
    inside-Outcome64 a c h =
        let arith_lem = in_disk_arith64 a c d.properties.block_count d.properties.block_size h m in
        Enqueued-mono (λ e r. omega arith) (pend_element-Outcome env d srb _ _ false)

    pend_range-Outcome :
        (op : ScsiOp) (range : Range)
        → (range.offset < 2 ^ 64) × (range.count < 2 ^ 32)
        → Outcome (InDisk d) env d srb (pend_range env d srb op range)
    unfolding pend_range
    pend_range-Outcome op range h = search (
      Outcome-if,
      inl,
      Refused-buffer_too_small,
      Refused-invalid_parameter,
      inside-Outcome,
      inside_lem d range.offset range.count h.0 h.1,
    )

    unmap_list-Outcome :
        (cdb buffer : List ℕ)
        → IsBytes buffer
        → Outcome (InDisk d) env d srb (unmap_list env d srb cdb buffer)
    unfolding unmap_list pend_descriptor
    unmap_list-Outcome cdb buffer h =
        let bounds = unmap_bounds buffer h in
        search
          (
            Outcome-if,
            inl,
            Refused-buffer_too_small,
            Refused-invalid_parameter,
            Refused-success,
            inside-Outcome64,
            inside_lem d _ _ bounds.0 bounds.1,
          )
          depth 12

    unmap_buffer-Outcome :
        (cdb : List ℕ) (buffer : Option (List ℕ))
        → IsBuffer buffer
        → Outcome (InDisk d) env d srb (unmap_buffer env d srb cdb buffer)
    unfolding unmap_buffer
    unmap_buffer-Outcome cdb none h = inl (Refused-buffer_too_small d _)
    unmap_buffer-Outcome cdb (some buffer) h = unmap_list-Outcome cdb buffer h

  small-Outcome :
      ltb (2 * 1024 * 1024) srb.data_transfer_length ≡ false
      → Outcome
          (λ e. (e.starting_lbn ≡ 0) × (e.data_length ≤ 2 * 1024 * 1024))
          env
          d
          srb
          (pend_element env d srb 0 srb.data_transfer_length false)
  small-Outcome h =
      Enqueued-mono (λ e r. ground arith)
        (pend_element-Outcome env d srb 0 srb.data_transfer_length false)

  reservation-Outcome :
      Outcome
        (λ e. (e.starting_lbn ≡ 0) × (e.data_length ≤ 2 * 1024 * 1024))
        env
        d
        srb
        (pend_reservation env d srb)
  unfolding pend_reservation
  reservation-Outcome = search (Outcome-if, inl, Refused-buffer_too_small, small-Outcome)

  command-Outcome :
      (cdb : List ℕ) (op : ScsiOp)
      → IsMappable d
      → IsBytes cdb
      → IsBuffer srb.data_buffer
      → Outcome (IsPermitted d op) env d srb (pend_command env d srb cdb op)
  unfolding pend_command
  command-Outcome cdb ScsiOp.persistent_reserve_in m h k = reservation-Outcome
  command-Outcome cdb ScsiOp.persistent_reserve_out m h k = reservation-Outcome
  command-Outcome cdb ScsiOp.unmap m h k =
      unfold pend_unmap in unmap_buffer-Outcome m cdb srb.data_buffer k
  command-Outcome cdb ScsiOp.read6 m h k = pend_range-Outcome m ScsiOp.read6 _ (range_bounds cdb h)
  command-Outcome cdb ScsiOp.read10 m h k =
      pend_range-Outcome m ScsiOp.read10 _ (range_bounds cdb h)
  command-Outcome cdb ScsiOp.read12 m h k =
      pend_range-Outcome m ScsiOp.read12 _ (range_bounds cdb h)
  command-Outcome cdb ScsiOp.read16 m h k =
      pend_range-Outcome m ScsiOp.read16 _ (range_bounds cdb h)
  command-Outcome cdb ScsiOp.write6 m h k =
      pend_range-Outcome m ScsiOp.write6 _ (range_bounds cdb h)
  command-Outcome cdb ScsiOp.write10 m h k =
      pend_range-Outcome m ScsiOp.write10 _ (range_bounds cdb h)
  command-Outcome cdb ScsiOp.write12 m h k =
      pend_range-Outcome m ScsiOp.write12 _ (range_bounds cdb h)
  command-Outcome cdb ScsiOp.write16 m h k =
      pend_range-Outcome m ScsiOp.write16 _ (range_bounds cdb h)
  command-Outcome cdb ScsiOp.synchronize_cache m h k =
      pend_range-Outcome m ScsiOp.synchronize_cache _ (range_bounds cdb h)
  command-Outcome cdb ScsiOp.synchronize_cache16 m h k =
      pend_range-Outcome m ScsiOp.synchronize_cache16 _ (range_bounds cdb h)
  command-Outcome cdb _ m h k = inl (Refused-invalid_parameter d _)

abbrev pub op_of : Option (List ℕ) → ScsiOp
op_of none = ScsiOp.unknown
op_of (some cdb) = opcode cdb

cdb-Outcome :
    (env : PendEnv) (d : Device) (srb : Srb) (cdb : Option (List ℕ))
    → IsBuffer cdb
    → IsBuffer srb.data_buffer
    → IsMappable d
    → Outcome (IsPermitted d (op_of cdb)) env d srb (pend_cdb env d srb cdb)
unfolding pend_cdb
cdb-Outcome env d srb none h k m = inl (Refused-invalid_parameter d _)
cdb-Outcome env d srb (some cdb) h k m = command-Outcome env d srb cdb (opcode cdb) m h k

-- On a device whose size in bytes fits 64 bits, a request with any bytes for its CDB and its buffer
-- either is refused, and then no queue, no pool and no gauge has changed, or is queued last by one
-- new element. Its byte range lies in the disk, but for a persistent reservation, which has offset 0
-- and a length of at most 2 MiB.
pub pend_operation-IsPermitted :
    (env : PendEnv) (d : Device) (srb : Srb)
    → IsBuffer srb.cdb
    → IsBuffer srb.data_buffer
    → IsMappable d
    → Outcome (IsPermitted d (op_of srb.cdb)) env d srb (pend_operation env d srb)
unfolding pend_operation
pend_operation-IsPermitted env d srb = cdb-Outcome env d srb srb.cdb
