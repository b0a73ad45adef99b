-- ===== src/Request/Validate.antt =====
-- ValidateScsiRequest of driver/util.c: what the disk's properties let through.
use wnbd.Prelude.{ℕ, Bool, true, false, not, Option, none, some, List, ◌≡◌, arith}
use wnbd.Types.{
  RequestType, req_unknown, req_read, req_write, req_flush, req_unmap, req_disconnect,
  req_persist_res_in, req_persist_res_out, Flags, Device, Element,
}
use wnbd.Cdb.{opcode, request_type}

-- The first switch: changes are refused on a read-only disk, other types are unsupported.
passes_access : Flags → RequestType → Bool
passes_access flags req_unmap = not flags.read_only
passes_access flags req_write = not flags.read_only
passes_access flags req_flush = not flags.read_only
passes_access flags req_persist_res_out = not flags.read_only
passes_access flags req_persist_res_in = true
passes_access flags req_read = true
passes_access flags _ = false

-- The second switch: what the backend supports.
passes_support : Flags → RequestType → Bool
passes_support flags req_unmap = flags.unmap_supported
passes_support flags req_flush = flags.flush_supported
passes_support flags req_persist_res_in = flags.persist_res_supported
passes_support flags req_persist_res_out = flags.persist_res_supported
passes_support flags _ = true

unfoldable pub validate_type : Flags → RequestType → Bool
unfolding passes_access passes_support
validate_type flags type = elim (passes_access flags type) [
  | true ↦ passes_support flags type
  | false ↦ false
]

validate_cdb : Flags → Option (List ℕ) → Bool
unfolding validate_type
validate_cdb flags none = false
validate_cdb flags (some cdb) = validate_type flags (request_type (opcode cdb))

-- ValidateScsiRequest
unfoldable pub validate_scsi_request : Device → Element → Bool
unfolding validate_cdb
validate_scsi_request d e = validate_cdb d.properties.flags e.srb.cdb

-- Whether a request of that type asks for a change of the disk.
abbrev pub is_change : RequestType → Bool
is_change req_write = true
is_change req_unmap = true
is_change req_flush = true
is_change req_persist_res_out = true
is_change _ = false

-- A request type that passes is one the driver knows; on a read-only disk it changes nothing; and
-- what it asks for, unmap, flush or a persistent reservation, is supported by the backend.
pub validate_type_sound :
    (flags : Flags) (type : RequestType)
    → validate_type flags type ≡ true
    → (is_change type ≡ true → flags.read_only ≡ false)
      × (type ≡ req_unmap → flags.unmap_supported ≡ true)
      × (type ≡ req_flush → flags.flush_supported ≡ true)
      × (type ≡ req_persist_res_in → flags.persist_res_supported ≡ true)
      × (type ≡ req_persist_res_out → flags.persist_res_supported ≡ true)
      × (type ≡ req_unknown → ⊥)
      × (type ≡ req_disconnect → ⊥)
unfolding validate_type
validate_type_sound flags req_unknown h = ground arith
validate_type_sound flags _ h = ground arith
