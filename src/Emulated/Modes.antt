-- ===== src/Emulated/Modes.antt =====
-- INQUIRY, MODE SENSE and REPORT LUNS of driver/scsi_operation.c. Sizes, offsets and codes of the
-- structures are the WDK's.
pub mod Agree
pub mod Bounds
use wnbd.Prelude.{
  ℕ, ◌+◌, ◌-◌, ◌*◌, ◌/◌, ◌%◌, ◌^◌, Bool, true, false, not, ◌&&◌, ◌||◌, Option, none, some, List, [],
  ◌∷◌, ◌++◌, ◌==◌, ltb, if◌then◌else◌, length, take, drop,
}
use wnbd.Wdk.{SrbStatus, ScsiOp}
use wnbd.Types.{Device, Srb}
use wnbd.Cdb.{as_byte, opcode}
use wnbd.Emulated.{Answer, answered, put, put_at, zeroed}
use wnbd.Emulated.Pages.{write, process_extended_inquiry}

-- INQUIRYDATABUFFERSIZE
abbrev pub inquiry_size : ℕ
inquiry_size = 36

-- WNBD_INQUIRY_VENDOR_ID and WNBD_INQUIRY_PRODUCT_ID: "WNBD", "WNBD_DISK".
abbrev vendor_id : List ℕ
vendor_id = 87 ∷ 78 ∷ 66 ∷ 68 ∷ []

abbrev product_id : List ℕ
product_id = 87 ∷ 78 ∷ 66 ∷ 68 ∷ 95 ∷ 68 ∷ 73 ∷ 83 ∷ 75 ∷ []

-- The first bytes of what WnbdSetInquiryData makes; `revision` is the four bytes of the version.
unfoldable pub inquiry_data : List ℕ → List ℕ
inquiry_data revision = write 32 (take 4 revision) (
    write 16 product_id
      (write 8 vendor_id (put (0 ∷ 0 ∷ 5 ∷ 2 ∷ 31 ∷ 0 ∷ 0 ∷ 66 ∷ []) (zeroed inquiry_size []))))

-- The two kinds of inquiry, on the zeroed buffer.
unfoldable pub inquiry_command : List ℕ → Device → Srb → List ℕ → List ℕ → Answer
unfolding process_extended_inquiry inquiry_data
inquiry_command revision d srb cdb buffer =
    let page = as_byte cdb 2 in
    if not (as_byte cdb 1 % 2 == 0)
    then process_extended_inquiry d srb page buffer
    else if not (page == 0)
    then (SrbStatus.internal_error, record srb { data_buffer = some buffer })
    else answered srb (put (inquiry_data revision) buffer) inquiry_size

unfoldable pub inquiry_buffer : List ℕ → Device → Srb → List ℕ → Option (List ℕ) → Answer
unfolding inquiry_command
inquiry_buffer revision d srb cdb none = (SrbStatus.internal_error, srb)
inquiry_buffer revision d srb cdb (some buffer) =
    inquiry_command revision d srb cdb (zeroed srb.data_transfer_length buffer)

-- WnbdInquiry
unfoldable pub inquiry : List ℕ → Device → Srb → List ℕ → Answer
unfolding inquiry_buffer
inquiry revision d srb cdb = inquiry_buffer revision d srb cdb srb.data_buffer

-- MODE_PAGE_CACHING, MODE_SENSE_RETURN_ALL, MODE_SENSE_CHANGEABLE_VALUES
abbrev pub page_caching : ℕ
page_caching = 0x08

abbrev pub return_all : ℕ
return_all = 0x3f

abbrev pub changeable_values : ℕ
changeable_values = 0x40

-- CHECK_MODE_SENSE and CHECK_MODE_SENSE10: PageCode is the low six bits of byte 2, Pc the other two.
abbrev pub check_mode_sense : List ℕ → ℕ → Bool
check_mode_sense cdb page =
    let code = as_byte cdb 2 % 64 in
    (as_byte cdb 2 / 64 == changeable_values) || (not (code == page) && not (code == return_all))

-- MODE_DSP_WRITE_PROTECT and MODE_DSP_FUA_SUPPORTED.
abbrev pub device_specific : Device → ℕ
device_specific d =
    (if d.properties.flags.read_only then 128 else 0)
    + (if d.properties.flags.fua_supported then 16 else 0)

-- sizeof(MODE_CACHING_PAGE)
abbrev pub caching_size : ℕ
caching_size = 12

-- A mode sense command: the size of its header, and the header's bytes with where they are written.
pub record Header : Type 0 where
  pub size : ℕ
  pub fields : List ℕ → List ℕ

abbrev pub header6 : Device → Header
header6 d = record { size = 4; fields = put (15 ∷ 0 ∷ device_specific d ∷ 0 ∷ []) }

abbrev pub header10 : Device → Header
header10 d = record {
  size = 8;
  fields = λ b. write 6 (0 ∷ 0 ∷ []) (put (0 ∷ 18 ∷ 0 ∷ device_specific d ∷ []) b);
}

-- The caching page's first three bytes; the buffer is not zeroed, so the bits that are not written
-- keep their values.
abbrev pub caching_fields : Device → List ℕ → List ℕ
caching_fields d old =
    let b0 = as_byte old 0 in
    let b2 = as_byte old 2 in
    let cache = if d.properties.flags.flush_supported then 4 else 1 in
    (b0 / 64 % 2 * 64 + page_caching) ∷ 10 ∷ (b2 / 8 * 8 + b2 / 2 % 2 * 2 + cache) ∷ []

abbrev pub caching_page : Device → ℕ → List ℕ → List ℕ
caching_page d offset buffer = write offset (caching_fields d (drop offset buffer)) buffer

-- One case of WnbdSetModeSense and the page of WnbdModeSense.
unfoldable pub mode_page : Device → Srb → List ℕ → List ℕ → Header → Answer
mode_page d srb cdb buffer h =
    if check_mode_sense cdb page_caching
    then (SrbStatus.invalid_request, srb)
    else if ltb srb.data_transfer_length (h.size + caching_size)
    then (SrbStatus.data_overrun, srb)
    else answered srb (caching_page d h.size (h.fields buffer)) (h.size + caching_size)

unfoldable pub mode_command : Device → Srb → List ℕ → List ℕ → ScsiOp → Answer
unfolding mode_page
mode_command d srb cdb buffer ScsiOp.mode_sense = mode_page d srb cdb buffer (header6 d)
mode_command d srb cdb buffer ScsiOp.mode_sense10 = mode_page d srb cdb buffer (header10 d)
mode_command d srb cdb buffer _ = (SrbStatus.invalid_request, srb)

unfoldable pub mode_buffer : Device → Srb → List ℕ → Option (List ℕ) → Answer
unfolding mode_command
mode_buffer d srb cdb none = (SrbStatus.internal_error, srb)
mode_buffer d srb cdb (some buffer) = mode_command d srb cdb buffer (opcode cdb)

-- WnbdModeSense
unfoldable pub mode_sense : Device → Srb → List ℕ → Answer
unfolding mode_buffer
mode_sense d srb cdb = mode_buffer d srb cdb srb.data_buffer

-- sizeof(LUN_LIST)
abbrev pub lun_list_size : ℕ
lun_list_size = 8

unfoldable pub luns_buffer : Srb → Option (List ℕ) → Answer
luns_buffer srb none = (SrbStatus.internal_error, srb)
luns_buffer srb (some buffer) =
    answered srb (write 3 (8 ∷ []) (zeroed srb.data_transfer_length buffer)) (lun_list_size + 8)

-- WnbdReportLuns
unfoldable pub report_luns : Srb → Answer
unfolding luns_buffer
report_luns srb = luns_buffer srb srb.data_buffer
