-- ===== src/Emulated.antt =====
-- Commands that driver/scsi_operation.c answers without queuing them. Here: READ CAPACITY (10 and 16).
pub mod Capacity
pub mod Pages
pub mod Modes
pub mod Operation
use wnbd.Prelude.{
  ℕ, ◌+◌, ◌-◌, ◌/◌, ◌%◌, ◌^◌, Bool, true, false, not, Option, none, some, List, [], ◌∷◌, ◌++◌, ◌==◌,
  ltb, if◌then◌else◌, length, take, drop, replicate, min,
}
use wnbd.Wdk.{SrbStatus, ScsiOp}
use wnbd.Types.{Device, Srb}
use wnbd.Cdb.{as_byte, opcode}

-- REVERSE_BYTES_4 and REVERSE_BYTES_8: the low bytes of a value, most significant first.
abbrev pub reverse4 : ℕ → List ℕ
reverse4 v = v / 2 ^ 24 % 256 ∷ v / 2 ^ 16 % 256 ∷ v / 2 ^ 8 % 256 ∷ v % 256 ∷ []

abbrev pub reverse8 : ℕ → List ℕ
reverse8 v = reverse4 (v / 2 ^ 32) ++ reverse4 v

-- Bytes written at the front of a buffer, and one byte at an offset.
abbrev pub put : List ℕ → List ℕ → List ℕ
put bytes buffer = bytes ++ drop (length bytes) buffer

abbrev pub put_at : ℕ → ℕ → List ℕ → List ℕ
put_at i byte buffer = take i buffer ++ (byte ∷ drop (i + 1) buffer)

-- RtlZeroMemory(DataBuffer, DataTransferLength)
abbrev pub zeroed : ℕ → List ℕ → List ℕ
zeroed n buffer = replicate n 0 ++ drop n buffer

-- sizeof(READ_CAPACITY_DATA), sizeof(READ_CAPACITY_DATA_EX), sizeof(READ_CAPACITY16_DATA), and the
-- offset of its Reserved3, of the WDK.
abbrev pub capacity_size : ℕ
capacity_size = 8

abbrev pub capacity_ex_size : ℕ
capacity_ex_size = 12

abbrev pub capacity16_size : ℕ
capacity16_size = 32

abbrev pub reserved3_offset : ℕ
reserved3_offset = 16

-- A status, and the SRB with its buffer.
abbrev pub Answer : Type 0
Answer = SrbStatus × Srb

abbrev pub answered : Srb → List ℕ → ℕ → Answer
answered srb buffer size =
    (SrbStatus.success, record srb { data_buffer = some buffer; data_transfer_length = size })

abbrev refused : Srb → List ℕ → Answer
refused srb buffer = (SrbStatus.invalid_request, record srb { data_buffer = some buffer })

-- The last block address that READ CAPACITY(10) can report is MAXULONG.
abbrev pub short_lba : ℕ → ℕ
short_lba max_lba = if ltb max_lba (2 ^ 32 - 1) then max_lba else 2 ^ 32 - 1

unfoldable pub capacity10 : Srb → ℕ → ℕ → List ℕ → Answer
capacity10 srb block_size max_lba buffer =
    if ltb srb.data_transfer_length capacity_size
    then refused srb buffer
    else answered srb (put (reverse4 (short_lba max_lba) ++ reverse4 block_size) buffer)
        capacity_size

-- The LBPME bit is bit 7 of byte 14.
unfoldable pub with_unmap : Device → ℕ → List ℕ → List ℕ
with_unmap d length buffer =
    if ltb length reserved3_offset
    then buffer
    else if d.properties.flags.unmap_supported
    then put_at 14 128 buffer
    else buffer

abbrev pub returned_length : ℕ → ℕ
returned_length length =
    if ltb length reserved3_offset
    then capacity_ex_size
    else if ltb length capacity16_size
    then reserved3_offset
    else capacity16_size

unfoldable pub capacity16 : Device → Srb → List ℕ → ℕ → ℕ → List ℕ → Answer
unfolding with_unmap
capacity16 d srb cdb block_size max_lba buffer =
    let length = srb.data_transfer_length in
    if not (as_byte cdb 1 % 32 == 16)
    then refused srb buffer
    else if ltb length capacity_ex_size
    then refused srb buffer
    else answered srb (with_unmap d length (put (reverse8 max_lba ++ reverse4 block_size) buffer))
        (returned_length length)

unfoldable pub capacity_command : Device → Srb → List ℕ → ScsiOp → ℕ → ℕ → List ℕ → Answer
unfolding capacity10 capacity16
capacity_command d srb cdb ScsiOp.read_capacity block_size max_lba buffer =
    capacity10 srb block_size max_lba buffer
capacity_command d srb cdb ScsiOp.read_capacity16 block_size max_lba buffer =
    capacity16 d srb cdb block_size max_lba buffer
capacity_command d srb cdb _ block_size max_lba buffer = refused srb buffer

unfoldable pub capacity_buffer : Device → Srb → List ℕ → Option (List ℕ) → Answer
unfolding capacity_command
capacity_buffer d srb cdb none = (SrbStatus.internal_error, srb)
capacity_buffer d srb cdb (some buffer) =
    if d.properties.block_count == 0
    then (SrbStatus.internal_error, srb)
    else capacity_command d srb cdb (opcode cdb) d.properties.block_size
        (d.properties.block_count - 1) (zeroed srb.data_transfer_length buffer)

-- WnbdReadCapacity, with the disk's sizes as WnbdHandleSrbOperation passes them.
unfoldable pub read_capacity : Device → Srb → List ℕ → Answer
unfolding capacity_buffer
read_capacity d srb cdb = capacity_buffer d srb cdb srb.data_buffer
