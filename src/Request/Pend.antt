-- ===== src/Request/Pend.antt =====
-- WnbdPendElement and WnbdPendOperation of driver/scsi_operation.c: a request is checked and
-- queued. The clock's readings and what the allocator returns are arguments. Each operation returns
-- its status, the SRB as it left it, and the device.
pub mod Outcome
pub mod Bounds
use wnbd.Prelude.{
  ℕ, ◌+◌, ◌*◌, ◌/◌, ◌%◌, ◌^◌, Bool, true, false, ◌&&◌, ◌||◌, not, Option, none, some, List, [], ◌∷◌,
  ◌++◌, ◌==◌, ltb, if◌then◌else◌,
}
use wnbd.Word.{wrap32, wrap64, inc64, dec64}
use wnbd.Wdk
use wnbd.Wdk.{
  NtStatus, SrbStatus, ScsiOp, check_condition, sense_illegal_request, adsense_illegal_block,
  unmap_list_header_size, unmap_block_descriptor_size,
}
use wnbd.Types.{Device, Element, Srb, WnbdStatus}
use wnbd.Cdb.{Range, as_byte, opcode, be16, be32, be64, cdb_get_range}
use wnbd.Request.SrbStatus.{set_status}
use wnbd.Request.Pool.{Slot, alloc_element}

-- What the environment decides while a request is queued: the two readings of the interrupt time,
-- and the address that a direct allocation gives. `revision` is the version that INQUIRY reports.
pub record PendEnv : Type 0 where
  pub received_at : ℕ
  pub queued_at : ℕ
  pub fresh : Option ℕ
  pub revision : List ℕ

abbrev pub Pended : Type 0
Pended = NtStatus × Srb × Device

-- The counters that a request changes on arrival.
unfoldable pub count_arrival : PendEnv → Device → Device
count_arrival env d = record d {
  stats = record d.stats {
    last_received_req_timestamp = env.received_at;
    total_received_requests = inc64 d.stats.total_received_requests;
    unsubmitted_requests = inc64 d.stats.unsubmitted_requests;
  };
}

-- The queue element of a request.
unfoldable pub new_element : PendEnv → Slot → Srb → ℕ → ℕ → Bool → Element
new_element env slot srb lbn data_length fua = record {
  addr = slot.addr;
  srb = srb;
  starting_lbn = lbn;
  data_length = wrap32 data_length;
  fua = fua;
  tag = 0;
  aborted = false;
  completed = false;
  pooled = slot.pooled;
  req_timestamp = env.queued_at;
}

unfoldable pub queue_slot : PendEnv → Srb → ℕ → ℕ → Bool → Option Slot × Device → Pended
unfolding new_element
queue_slot env srb lbn data_length fua (none, d) = (
  NtStatus.insufficient_resources,
  record srb { srb_status = SrbStatus.aborted },
  record d { stats = record d.stats { unsubmitted_requests = dec64 d.stats.unsubmitted_requests } },
)
queue_slot env srb lbn data_length fua (some slot, d) = (
  NtStatus.pending,
  srb,
  record d {
    pending = d.pending ++ new_element env slot srb lbn data_length fua ∷ [];
    device_event = d.device_event + 1;
  },
)

-- WnbdPendElement
unfoldable pub pend_element : PendEnv → Device → Srb → ℕ → ℕ → Bool → Pended
unfolding count_arrival queue_slot alloc_element
pend_element env d srb lbn data_length fua =
    queue_slot env srb lbn data_length fua (alloc_element (count_arrival env d) env.fresh)

-- An SRB that is refused with that SRB status.
abbrev refuse : Device → Srb → NtStatus → SrbStatus → Pended
refuse d srb status srb_status = (status, record srb { srb_status = srb_status }, d)

-- A block range outside the disk, in 64-bit arithmetic.
abbrev pub is_outside : Device → ℕ → ℕ → Bool
is_outside d address count =
    ltb (wrap64 (address + count)) address
    || ltb d.properties.block_count (wrap64 (address + count))

-- The status of a range outside the disk.
abbrev illegal_block : WnbdStatus
illegal_block = record {
  scsi_status = check_condition;
  sense_key = sense_illegal_request;
  asc = adsense_illegal_block;
  ascq = 0;
  information = 0;
  information_valid = false;
}

is_synchronize_cache : ScsiOp → Bool
is_synchronize_cache ScsiOp.synchronize_cache = true
is_synchronize_cache _ = false

is_synchronize_cache16 : ScsiOp → Bool
is_synchronize_cache16 ScsiOp.synchronize_cache16 = true
is_synchronize_cache16 _ = false

-- Reads, writes and cache synchronisation.
unfoldable pub pend_range : PendEnv → Device → Srb → ScsiOp → Range → Pended
unfolding is_synchronize_cache is_synchronize_cache16 set_status pend_element
pend_range env d srb op range =
    let block_size = d.properties.block_size in
    let data_length = wrap32 (range.count * block_size) in
    if ltb data_length srb.data_transfer_length
      && (not (is_synchronize_cache op) || not (is_synchronize_cache16 op))
    then refuse d srb NtStatus.buffer_too_small SrbStatus.aborted
    else if is_outside d range.offset range.count
    then (NtStatus.invalid_parameter, set_status srb illegal_block, d)
    else pend_element env d srb (wrap64 (range.offset * block_size)) data_length
        (not (range.fua == 0))

-- The one block descriptor of an UNMAP parameter list, after the header.
abbrev pub unmap_address : List ℕ → ℕ
unmap_address b =
    be64 (as_byte b 8) (as_byte b 9) (as_byte b 10) (as_byte b 11) (as_byte b 12) (as_byte b 13)
      (as_byte b 14) (as_byte b 15)

abbrev pub unmap_count : List ℕ → ℕ
unmap_count b = be32 (as_byte b 16) (as_byte b 17) (as_byte b 18) (as_byte b 19)

-- BlockDescrDataLength
abbrev pub descriptors_length : List ℕ → ℕ
descriptors_length b = be16 (as_byte b 2) (as_byte b 3)

-- An UNMAP whose parameter list lies in the buffer.
unfoldable pub pend_descriptor : PendEnv → Device → Srb → List ℕ → Pended
unfolding pend_element
pend_descriptor env d srb buffer =
    let block_size = d.properties.block_size in
    let address = unmap_address buffer in
    let count = unmap_count buffer in
    if is_outside d address count
    then refuse d srb NtStatus.invalid_parameter SrbStatus.invalid_request
    else pend_element env d srb (wrap64 (address * block_size)) (wrap64 (count * block_size)) false

unfoldable pub unmap_list : PendEnv → Device → Srb → List ℕ → List ℕ → Pended
unfolding pend_descriptor
unmap_list env d srb cdb buffer =
    let desc_length = descriptors_length buffer in
    if ltb srb.data_transfer_length unmap_list_header_size
      || ltb srb.data_transfer_length (unmap_list_header_size + desc_length)
      || ltb (2 * 1024 * 1024) desc_length
    then refuse d srb NtStatus.buffer_too_small SrbStatus.aborted
    else if as_byte cdb 1 % 2 == 1
    then refuse d srb NtStatus.invalid_parameter SrbStatus.invalid_request
    else if desc_length == 0
    then (
      NtStatus.success,
      record srb { data_transfer_length = 0; srb_status = SrbStatus.success },
      d,
    )
    else if not (desc_length / unmap_block_descriptor_size == 1)
    then refuse d srb NtStatus.invalid_parameter SrbStatus.invalid_request
    else pend_descriptor env d srb buffer

unfoldable pub unmap_buffer : PendEnv → Device → Srb → List ℕ → Option (List ℕ) → Pended
unfolding unmap_list
unmap_buffer env d srb cdb none = refuse d srb NtStatus.buffer_too_small SrbStatus.aborted
unmap_buffer env d srb cdb (some buffer) = unmap_list env d srb cdb buffer

unfoldable pub pend_unmap : PendEnv → Device → Srb → List ℕ → Pended
unfolding unmap_buffer
pend_unmap env d srb cdb = unmap_buffer env d srb cdb srb.data_buffer

-- Persistent reservations.
unfoldable pub pend_reservation : PendEnv → Device → Srb → Pended
unfolding pend_element
pend_reservation env d srb =
    if ltb (2 * 1024 * 1024) srb.data_transfer_length
    then refuse d srb NtStatus.buffer_too_small SrbStatus.aborted
    else pend_element env d srb 0 srb.data_transfer_length false

-- The switch of WnbdPendOperation.
unfoldable pub pend_command : PendEnv → Device → Srb → List ℕ → ScsiOp → Pended
unfolding pend_range pend_unmap pend_reservation
pend_command env d srb cdb ScsiOp.read6 = pend_range env d srb ScsiOp.read6 (cdb_get_range cdb)
pend_command env d srb cdb ScsiOp.read10 = pend_range env d srb ScsiOp.read10 (cdb_get_range cdb)
pend_command env d srb cdb ScsiOp.read12 = pend_range env d srb ScsiOp.read12 (cdb_get_range cdb)
pend_command env d srb cdb ScsiOp.read16 = pend_range env d srb ScsiOp.read16 (cdb_get_range cdb)
pend_command env d srb cdb ScsiOp.write6 = pend_range env d srb ScsiOp.write6 (cdb_get_range cdb)
pend_command env d srb cdb ScsiOp.write10 = pend_range env d srb ScsiOp.write10 (cdb_get_range cdb)
pend_command env d srb cdb ScsiOp.write12 = pend_range env d srb ScsiOp.write12 (cdb_get_range cdb)
pend_command env d srb cdb ScsiOp.write16 = pend_range env d srb ScsiOp.write16 (cdb_get_range cdb)
pend_command env d srb cdb ScsiOp.synchronize_cache =
    pend_range env d srb ScsiOp.synchronize_cache (cdb_get_range cdb)
pend_command env d srb cdb ScsiOp.synchronize_cache16 =
    pend_range env d srb ScsiOp.synchronize_cache16 (cdb_get_range cdb)
pend_command env d srb cdb ScsiOp.unmap = pend_unmap env d srb cdb
pend_command env d srb cdb ScsiOp.persistent_reserve_in = pend_reservation env d srb
pend_command env d srb cdb ScsiOp.persistent_reserve_out = pend_reservation env d srb
pend_command env d srb cdb _ = refuse d srb NtStatus.invalid_parameter SrbStatus.invalid_request

unfoldable pub pend_cdb : PendEnv → Device → Srb → Option (List ℕ) → Pended
unfolding pend_command
pend_cdb env d srb none = refuse d srb NtStatus.invalid_parameter SrbStatus.invalid_request
pend_cdb env d srb (some cdb) = pend_command env d srb cdb (opcode cdb)

-- WnbdPendOperation
unfoldable pub pend_operation : PendEnv → Device → Srb → Pended
unfolding pend_cdb
pend_operation env d srb = pend_cdb env d srb srb.cdb
