-- ===== src/Emulated/Capacity.antt =====
-- What READ CAPACITY of driver/scsi_operation.c tells the host.
use wnbd.Prelude.{
  ℕ, ◌+◌, ◌-◌, ◌%◌, ◌^◌, ◌≤◌, ◌<◌, ◌≡◌, none, some, List, [], arith, min, ap, ◌∙◌, sym, subst,
}
use wnbd.Wdk.{SrbStatus}
use wnbd.Types.{Device, Srb}
use wnbd.Cdb.{as_byte, be32, be64}
use wnbd.Emulated.{
  Answer, zeroed, with_unmap, capacity10, capacity16, capacity_command, capacity_buffer,
  read_capacity,
}

-- The big-endian numbers at the start of a buffer.
abbrev pub read32 : List ℕ → ℕ → ℕ
read32 b i = be32 (as_byte b i) (as_byte b (i + 1)) (as_byte b (i + 2)) (as_byte b (i + 3))

abbrev pub read64 : List ℕ → ℕ
read64 b =
    be64 (as_byte b 0) (as_byte b 1) (as_byte b 2) (as_byte b 3) (as_byte b 4) (as_byte b 5)
      (as_byte b 6) (as_byte b 7)

abbrev pub bytes_of : Srb → List ℕ
bytes_of srb = elim srb.data_buffer [ none ↦ [] | some b ↦ b ]

-- READ CAPACITY(16) with a transfer length of at least 12 bytes succeeds, reports no more bytes than
-- that length, and the host reads the last block address and the block size from the buffer, whether
-- or not the disk supports unmapping.
pub capacity16_lem :
    (d : Device) (srb : Srb) (cdb : List ℕ) (block_size max_lba : ℕ) (buffer : List ℕ)
    → as_byte cdb 1 % 32 ≡ 16
    → 12 ≤ srb.data_transfer_length
    → block_size < 2 ^ 32
    → max_lba < 2 ^ 64
    → let r = capacity16 d srb cdb block_size max_lba buffer in
      (r.0 ≡ SrbStatus.success)
      × (r.1.data_transfer_length ≤ srb.data_transfer_length)
      × (read64 (bytes_of r.1) ≡ max_lba)
      × (read32 (bytes_of r.1) 8 ≡ block_size)
unfolding capacity16 with_unmap
capacity16_lem d srb cdb block_size max_lba buffer h len hs hl = ground arith

-- READ CAPACITY(16) as WnbdReadCapacity serves it, for a disk with at least one block, a buffer and a
-- transfer length of at least 12 bytes: it succeeds, reports no more bytes than that length, and the
-- host reads from the buffer the number of blocks less one, which is the last block address, and the
-- block size.
pub read_capacity-last_block :
    (d : Device) (srb : Srb) (cdb buffer : List ℕ)
    → srb.data_buffer ≡ some buffer
    → as_byte cdb 0 ≡ 0x9e
    → as_byte cdb 1 % 32 ≡ 16
    → 12 ≤ srb.data_transfer_length
    → 1 ≤ d.properties.block_count
    → d.properties.block_count < 2 ^ 64
    → d.properties.block_size < 2 ^ 32
    → let r = read_capacity d srb cdb in
      (r.0 ≡ SrbStatus.success)
      × (r.1.data_transfer_length ≤ srb.data_transfer_length)
      × (read64 (bytes_of r.1) + 1 ≡ d.properties.block_count)
      × (read32 (bytes_of r.1) 8 ≡ d.properties.block_size)
unfolding read_capacity capacity_buffer capacity_command
read_capacity-last_block d srb cdb buffer has op action len some_blocks count size =
    let p = d.properties in
    let zeros = zeroed srb.data_transfer_length buffer in
    let (ok, short, lba, block) =
      capacity16_lem d srb cdb p.block_size (p.block_count - 1) zeros action len size
        (omega (arith, count)) in
    let same : read_capacity d srb cdb
        ≡ capacity16 d srb cdb p.block_size (p.block_count - 1) zeros =
      ground (arith, has, op, some_blocks) in
    (
      ap (λ r. r.0) same ∙ ok,
      subst (λ (r : Answer). r.1.data_transfer_length ≤ srb.data_transfer_length) (sym same) short,
      ap (λ (r : Answer). read64 (bytes_of r.1) + 1) same ∙ omega (arith, lba, some_blocks),
      ap (λ (r : Answer). read32 (bytes_of r.1) 8) same ∙ block,
    )

-- READ CAPACITY(10) with a transfer length of at least 8 bytes succeeds, and the host reads the block
-- size and the last block address from the buffer, or 2^32 - 1 for an address that 32 bits cannot hold.
pub capacity10_lem :
    (srb : Srb) (block_size max_lba : ℕ) (buffer : List ℕ)
    → 8 ≤ srb.data_transfer_length
    → block_size < 2 ^ 32
    → let r = capacity10 srb block_size max_lba buffer in
      (r.0 ≡ SrbStatus.success)
      × (r.1.data_transfer_length ≤ srb.data_transfer_length)
      × (read32 (bytes_of r.1) 0 ≡ min max_lba (2 ^ 32 - 1))
      × (read32 (bytes_of r.1) 4 ≡ block_size)
unfolding capacity10
capacity10_lem srb block_size max_lba buffer len hs = ground arith
