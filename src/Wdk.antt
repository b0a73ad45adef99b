-- ===== src/Wdk.antt =====
-- What the driver takes from the WDK headers (ntstatus.h, srb.h, scsi.h), by name: status codes as
-- enumerations, and the numbers that the SCSI standards fix. The driver only compares these values.
use wnbd.Prelude.{ℕ, Bool, true, false, if◌then◌else◌, ◌==◌}

-- NTSTATUS; `exception` is a code that `GetExceptionCode` or another component reports.
pub data NtStatus : Type 0 where
  success pending insufficient_resources invalid_parameter buffer_too_small : NtStatus
  access_denied not_found internal_error invalid_handle object_name_not_found : NtStatus
  object_name_collision too_many_addresses shutdown_in_progress buffer_overflow : NtStatus
  invalid_device_request device_busy object_type_mismatch : NtStatus
  exception : ℕ → NtStatus

-- `if (Status)`: every code but STATUS_SUCCESS is non-zero.
abbrev pub is_failure : NtStatus → Bool
is_failure success = false
is_failure _ = true

-- SRB_STATUS_*; `error true` carries SRB_STATUS_AUTOSENSE_VALID.
pub data SrbStatus : Type 0 where
  pending success aborted invalid_request no_device internal_error data_overrun : SrbStatus
  timeout bus_reset bad_srb_block_length : SrbStatus
  error : Bool → SrbStatus

-- The operation codes that the driver names, and any other byte.
pub data ScsiOp : Type 0 where
  read6 read10 read12 read16 write6 write10 write12 write16 : ScsiOp
  synchronize_cache synchronize_cache16 unmap : ScsiOp
  persistent_reserve_in persistent_reserve_out : ScsiOp
  inquiry mode_sense mode_sense10 read_capacity read_capacity16 : ScsiOp
  verify test_unit_ready report_luns unknown : ScsiOp

-- The SCSIOP_* values.
abbrev pub scsi_op : ℕ → ScsiOp
scsi_op b =
    if b == 0x08
    then read6
    else if b == 0x28
    then read10
    else if b == 0xa8
    then read12
    else if b == 0x88
    then read16
    else if b == 0x0a
    then write6
    else if b == 0x2a
    then write10
    else if b == 0xaa
    then write12
    else if b == 0x8a
    then write16
    else if b == 0x35
    then synchronize_cache
    else if b == 0x91
    then synchronize_cache16
    else if b == 0x42
    then unmap
    else if b == 0x5e
    then persistent_reserve_in
    else if b == 0x5f
    then persistent_reserve_out
    else if b == 0x12
    then inquiry
    else if b == 0x1a
    then mode_sense
    else if b == 0x5a
    then mode_sense10
    else if b == 0x25
    then read_capacity
    else if b == 0x9e
    then read_capacity16
    else if b == 0x2f
    then verify
    else if b == 0x00
    then test_unit_ready
    else if b == 0xa0
    then report_luns
    else unknown

-- SCSISTAT_CHECK_CONDITION, SCSI_SENSE_ILLEGAL_REQUEST, SCSI_ADSENSE_ILLEGAL_BLOCK,
-- SCSI_SENSE_ERRORCODE_FIXED_CURRENT.
abbrev pub check_condition : ℕ
check_condition = 0x02

abbrev pub sense_illegal_request : ℕ
sense_illegal_request = 0x05

abbrev pub adsense_illegal_block : ℕ
adsense_illegal_block = 0x21

abbrev pub errorcode_fixed_current : ℕ
errorcode_fixed_current = 0x70

-- sizeof(SENSE_DATA), and how much of it follows AdditionalSenseLength.
abbrev pub sense_data_size : ℕ
sense_data_size = 18

abbrev pub sense_additional_length : ℕ
sense_additional_length = 10

-- sizeof(UNMAP_LIST_HEADER), sizeof(UNMAP_BLOCK_DESCRIPTOR).
abbrev pub unmap_list_header_size : ℕ
unmap_list_header_size = 8

abbrev pub unmap_block_descriptor_size : ℕ
unmap_block_descriptor_size = 16
