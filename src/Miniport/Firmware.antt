-- ===== src/Miniport/Firmware.antt =====
-- SRB_FUNCTION_IO_CONTROL: WnbdProcessSrbIOCTL, WnbdFirmareIOCTL and WnbdFirmwareInfo of
-- driver/scsi_driver_extensions.c. The sizes and versions of the WDK's structures are parameters.
use wnbd.Prelude.{
  ℕ, ◌+◌, ◌*◌, ◌/◌, ◌≤◌, ◌≡◌, refl, Bool, not, ◌||◌, Option, none, some, ◌==◌, ltb, leb, arith,
  if◌then◌else◌, split-if,
}
use wnbd.Wdk.{SrbStatus}

-- The WDK's sizes of SRB_IO_CONTROL, FIRMWARE_REQUEST_BLOCK, STORAGE_FIRMWARE_INFO_V2 and
-- STORAGE_FIRMWARE_SLOT_INFO_V2, and the versions of the second and third.
pub record Layout : Type 0 where
  pub io_control_size : ℕ
  pub request_size : ℕ
  pub info_size : ℕ
  pub slot_size : ℕ
  pub request_version : ℕ
  pub info_version : ℕ

-- FIRMWARE_STATUS_*
pub data FirmwareStatus : Type 0 where
  firmware_success firmware_invalid_parameter firmware_buffer_too_small : FirmwareStatus

-- What the handlers read of the data buffer: whether ControlCode is IOCTL_SCSI_MINIPORT_FIRMWARE,
-- whether Function is FIRMWARE_FUNCTION_GET_INFO, and the Version and Size of the information at an
-- offset. `length` is the data transfer length.
pub record IoControl : Type 0 where
  pub is_firmware : Bool
  pub length : ℕ
  pub version : ℕ
  pub is_get_info : Bool
  pub data_buffer_offset : ℕ
  pub data_buffer_length : ℕ
  pub info_version_at : ℕ → ℕ
  pub info_size_at : ℕ → ℕ

-- STORAGE_FIRMWARE_INFO_V2 as it is written: where, how many bytes are zeroed, and whether the slot
-- with its revision follows.
pub record FirmwareInfo : Type 0 where
  pub offset : ℕ
  pub zeroed : ℕ
  pub slot : Bool

-- The SRB's status, SrbControl->ReturnCode if it is set, the information, and DataBufferLength after
-- the call.
pub record Controlled : Type 0 where
  pub srb_status : SrbStatus
  pub return_code : Option FirmwareStatus
  pub info : Option FirmwareInfo
  pub data_buffer_length : ℕ

abbrev bad_length : IoControl → Controlled
bad_length c = record {
  srb_status = SrbStatus.bad_srb_block_length;
  return_code = some firmware_invalid_parameter;
  info = none;
  data_buffer_length = c.data_buffer_length;
}

-- ALIGN_UP to the size of a pointer.
abbrev align_up : ℕ → ℕ
align_up n = (n + 7) / 8 * 8

module _ (l : Layout) where
  -- The information is written.
  unfoldable pub write_info : IoControl → Controlled
  write_info c =
      let room = leb (l.info_size + l.slot_size) c.data_buffer_length in
      record {
        srb_status = SrbStatus.success;
        return_code = some (if room then firmware_success else firmware_buffer_too_small);
        info =
            some (record {
              offset = c.data_buffer_offset;
              zeroed = c.data_buffer_length;
              slot = room;
            });
        data_buffer_length = if room then c.data_buffer_length else l.info_size + l.slot_size;
      }

  -- WnbdFirmwareInfo
  unfoldable pub firmware_info : IoControl → Controlled
  unfolding write_info
  firmware_info c =
      if ltb c.data_buffer_length l.info_size
      then bad_length c
      else if not (c.info_version_at c.data_buffer_offset == l.info_version)
          || ltb (c.info_size_at c.data_buffer_offset) l.info_size
      then bad_length c
      else write_info c

  -- WnbdFirmareIOCTL
  unfoldable pub firmware_ioctl : IoControl → Controlled
  unfolding firmware_info
  firmware_ioctl c =
      if ltb c.length (l.io_control_size + l.request_size)
      then record (bad_length c) { return_code = none }
      else if ltb c.length (c.data_buffer_offset + c.data_buffer_length)
          || ltb c.version l.request_version
          || ltb c.data_buffer_offset (align_up (l.io_control_size + l.request_size))
      then bad_length c
      else if c.is_get_info
      then firmware_info c
      else record {
        srb_status = SrbStatus.success;
        return_code = some firmware_success;
        info = none;
        data_buffer_length = c.data_buffer_length;
      }

  -- WnbdProcessSrbIOCTL, which reads ControlCode whatever the length.
  unfoldable pub process_srb_ioctl : IoControl → Controlled
  unfolding firmware_ioctl
  process_srb_ioctl c = if c.is_firmware then firmware_ioctl c else bad_length c

-- How far the information reaches from its offset.
abbrev pub info_reach : Layout → FirmwareInfo → ℕ
info_reach l i = if i.slot then l.info_size + l.slot_size else l.info_size

-- Nothing was written; or what was zeroed and what was filled in lies in the data buffer, behind the
-- two headers.
pub data IsInside (l : Layout) (c : IoControl) (r : Controlled) : Type 0 where
  nothing : r.info ≡ none → IsInside l c r
  inside :
      (i : FirmwareInfo)
      → r.info ≡ some i
      → i.offset + i.zeroed ≤ c.length
      → info_reach l i ≤ i.zeroed
      → l.io_control_size + l.request_size ≤ i.offset
      → IsInside l c r

-- Whatever the data buffer of an SRB_FUNCTION_IO_CONTROL holds: either no firmware information is
-- written; or it is zeroed and filled in behind the control header and the request block and within the
-- data transfer length, the slot included if there is one.
pub process_srb_ioctl-IsInside : (l : Layout) (c : IoControl) → IsInside l c (process_srb_ioctl l c)
unfolding process_srb_ioctl firmware_ioctl firmware_info write_info
process_srb_ioctl-IsInside l c =
    split-if (IsInside l c) c.is_firmware _ _
      (λ h.
        split-if (IsInside l c) (ltb c.length (l.io_control_size + l.request_size)) _ _
          (λ h. nothing refl)
          (λ h.
            split-if (IsInside l c)
              (ltb c.length (c.data_buffer_offset + c.data_buffer_length)
                || ltb c.version l.request_version
                || ltb c.data_buffer_offset (align_up (l.io_control_size + l.request_size)))
              _ _ (λ h. nothing refl)
              (λ checked.
                split-if (IsInside l c) c.is_get_info _ _
                  (λ h.
                    split-if (IsInside l c) (ltb c.data_buffer_length l.info_size) _ _
                      (λ h. nothing refl)
                      (λ long.
                        split-if (IsInside l c)
                          (not (c.info_version_at c.data_buffer_offset == l.info_version)
                            || ltb (c.info_size_at c.data_buffer_offset) l.info_size)
                          _ _ (λ h. nothing refl)
                          (λ h.
                            inside _ refl (ground (arith, checked)) (ground (arith, long))
                              (ground (arith, checked)))))
                  (λ h. nothing refl))))
      (λ h. nothing refl)
