-- ===== src/Emulated/Pages.antt =====
-- The vital product data pages of driver/scsi_operation.c. The buffer was zeroed, so the bit fields of
-- a byte are written as one. Sizes, offsets and codes of the structures are the WDK's.
pub mod Bounds
pub mod Served
use wnbd.Prelude.{
  ℕ, ◌+◌, ◌-◌, ◌/◌, ◌%◌, ◌^◌, ◌*◌, Bool, true, false, not, ◌||◌, Option, none, some, List, [], ◌∷◌,
  ◌++◌, ◌==◌, ltb, if◌then◌else◌, length, take, drop,
}
use wnbd.Word.{wrap8}
use wnbd.Wdk.{SrbStatus}
use wnbd.Types.{Device, Srb}
use wnbd.Cdb.{as_byte}
use wnbd.Emulated.{Answer, answered, put, reverse4}

-- Bytes written at an offset.
abbrev pub write : ℕ → List ℕ → List ℕ → List ℕ
write i bytes buffer = take i buffer ++ (bytes ++ drop (i + length bytes) buffer)

abbrev pub page_supported : ℕ
page_supported = 0x00

abbrev pub page_serial : ℕ
page_serial = 0x80

abbrev pub page_identifiers : ℕ
page_identifiers = 0x83

abbrev pub page_limits : ℕ
page_limits = 0xb0

abbrev pub page_characteristics : ℕ
page_characteristics = 0xb1

abbrev pub page_provisioning : ℕ
page_provisioning = 0xb2

-- WNBD_DEFAULT_MAX_TRANSFER_LENGTH
abbrev pub max_transfer_length : ℕ
max_transfer_length = 2 * 1024 * 1024

abbrev pub overrun : Srb → List ℕ → Answer
overrun srb buffer = (SrbStatus.data_overrun, record srb { data_buffer = some buffer })

-- The device type and the code of a page.
abbrev pub head : ℕ → List ℕ → List ℕ
head code buffer = put (0 ∷ code ∷ []) buffer

abbrev pub page_list : Bool → List ℕ
page_list naa =
    page_supported
    ∷ page_serial
    ∷ page_limits
    ∷ page_characteristics
    ∷ page_provisioning
    ∷ (if naa then page_identifiers ∷ [] else [])

abbrev pub number_of_pages : Bool → ℕ
number_of_pages naa = if naa then 6 else 5

-- WnbdSetVpdSupportedPages
unfoldable pub set_supported_pages : Device → Srb → ℕ → List ℕ → Answer
set_supported_pages d srb n buffer =
    answered srb
      (write 3 (n ∷ page_list d.properties.flags.naa_id_specified) (head page_supported buffer))
      (4 + n)

-- The size of the identifier by its NAA type, the high half of its first byte.
abbrev pub naa_id_size : List ℕ → ℕ
naa_id_size id = let type = as_byte id 0 / 16 % 16 in if (type == 2) || (type == 5) then 8 else 16

-- WnbdSetVpdDeviceIdentifier
unfoldable pub set_device_identifier : Device → Srb → List ℕ → Answer
set_device_identifier d srb buffer =
    let id = d.properties.naa_identifier in
    let size = naa_id_size id in
    if not d.properties.flags.naa_id_specified
    then (SrbStatus.invalid_request, record srb { data_buffer = some buffer })
    else if ltb srb.data_transfer_length (4 + (4 + size))
    then overrun srb buffer
    else answered srb
        (write 7 (size ∷ take size id)
          (write 3 ((4 + size) ∷ 1 ∷ 3 ∷ []) (head page_identifiers buffer)))
        (4 + (4 + size))

-- The size that the page gives the serial number, with its NUL, in a UCHAR.
abbrev pub serial_size : List ℕ → ℕ
serial_size serial = wrap8 (wrap8 (length serial) + 1)

-- WnbdSetVpdSerialNumber
unfoldable pub set_serial_number : Device → Srb → List ℕ → Answer
set_serial_number d srb buffer =
    let serial = d.properties.serial_number in
    let size = serial_size serial in
    if ltb srb.data_transfer_length (4 + size)
    then overrun srb buffer
    else answered srb (write 3 (size ∷ take size (serial ++ (0 ∷ []))) (head page_serial buffer))
        (4 + size)

-- The UNMAP limits: one descriptor, and as many blocks as it can name.
unfoldable pub unmap_limits : Device → List ℕ → List ℕ
unmap_limits d buffer =
    if d.properties.flags.unmap_supported
    then write 20 (reverse4 (2 ^ 32 - 1) ++ reverse4 1) buffer
    else buffer

abbrev pub block_limits_size : ℕ
block_limits_size = 64

-- WnbdSetVpdBlockLimits
unfoldable pub set_block_limits : Device → Srb → List ℕ → Answer
unfolding unmap_limits
set_block_limits d srb buffer =
    answered srb
      (unmap_limits d (
        write 8 (reverse4 (max_transfer_length / d.properties.block_size))
          (write 3 (60 ∷ []) (head page_limits buffer))))
      block_limits_size

abbrev pub provisioning_size : ℕ
provisioning_size = 8

-- WnbdSetVpdLogicalBlockProvisioning: the LBPU bit, and thin provisioning.
unfoldable pub set_provisioning : Device → Srb → List ℕ → Answer
set_provisioning d srb buffer =
    let page = write 3 (4 ∷ []) (head page_provisioning buffer) in
    answered srb (if d.properties.flags.unmap_supported then write 5 (128 ∷ 2 ∷ []) page else page)
      provisioning_size

abbrev pub characteristics_size : ℕ
characteristics_size = 64

-- WnbdSetVpdBlockDeviceCharacteristics, with the FUAB bit.
unfoldable pub set_characteristics : Device → Srb → List ℕ → Answer
set_characteristics d srb buffer =
    answered srb
      (write 7 (0 ∷ (if d.properties.flags.fua_supported then 2 else 0) ∷ [])
        (write 3 (60 ∷ 0 ∷ 0 ∷ []) (head page_characteristics buffer)))
      characteristics_size

-- A page of fixed size, if the buffer holds it.
abbrev pub if_fits : ℕ → Srb → List ℕ → Answer → Answer
if_fits size srb buffer answer =
    if ltb srb.data_transfer_length size then overrun srb buffer else answer

-- WnbdProcessExtendedInquiry; a page that it does not know leaves the zeroed buffer, with success.
unfoldable pub process_extended_inquiry : Device → Srb → ℕ → List ℕ → Answer
unfolding set_supported_pages set_serial_number set_block_limits set_provisioning
    set_characteristics set_device_identifier
process_extended_inquiry d srb page buffer =
    let n = number_of_pages d.properties.flags.naa_id_specified in
    if page == page_supported
    then if_fits (4 + n) srb buffer (set_supported_pages d srb n buffer)
    else if page == page_serial
    then set_serial_number d srb buffer
    else if page == page_limits
    then if_fits block_limits_size srb buffer (set_block_limits d srb buffer)
    else if page == page_provisioning
    then if_fits provisioning_size srb buffer (set_provisioning d srb buffer)
    else if page == page_characteristics
    then if_fits characteristics_size srb buffer (set_characteristics d srb buffer)
    else if page == page_identifiers
    then set_device_identifier d srb buffer
    else (SrbStatus.success, record srb { data_buffer = some buffer })
