-- ===== src/Cdb/Decode.antt =====
-- The block ranges that `SrbCdbGetRange` of driver/srb_helper.h reads are those that an initiator
-- encoded, for each command length. The encoders follow the SCSI block commands' layout.
use wnbd.Prelude.{ℕ, ◌*◌, ◌/◌, ◌%◌, ◌^◌, ◌≤◌, ◌<◌, ◌≡◌, List, [], ◌∷◌, arith}
use wnbd.Cdb.{cdb_get_range}

-- The byte of `n` that stands `k` bits up.
abbrev pub byte_at : ℕ → ℕ → ℕ
byte_at n k = n / 2 ^ k % 256

abbrev pub encode6 : ℕ → ℕ → ℕ → List ℕ
encode6 op lba blocks =
    op ∷ byte_at lba 16 ∷ byte_at lba 8 ∷ byte_at lba 0 ∷ (blocks % 256) ∷ 0 ∷ []

abbrev pub encode10 : ℕ → ℕ → ℕ → ℕ → List ℕ
encode10 op fua lba blocks =
    op
    ∷ (fua * 8)
    ∷ byte_at lba 24
    ∷ byte_at lba 16
    ∷ byte_at lba 8
    ∷ byte_at lba 0
    ∷ 0
    ∷ byte_at blocks 8
    ∷ byte_at blocks 0
    ∷ 0
    ∷ []

abbrev pub encode12 : ℕ → ℕ → ℕ → ℕ → List ℕ
encode12 op fua lba blocks =
    op
    ∷ (fua * 8)
    ∷ byte_at lba 24
    ∷ byte_at lba 16
    ∷ byte_at lba 8
    ∷ byte_at lba 0
    ∷ byte_at blocks 24
    ∷ byte_at blocks 16
    ∷ byte_at blocks 8
    ∷ byte_at blocks 0
    ∷ 0
    ∷ 0
    ∷ []

abbrev pub encode16 : ℕ → ℕ → ℕ → ℕ → List ℕ
encode16 op fua lba blocks =
    op
    ∷ (fua * 8)
    ∷ byte_at lba 56
    ∷ byte_at lba 48
    ∷ byte_at lba 40
    ∷ byte_at lba 32
    ∷ byte_at lba 24
    ∷ byte_at lba 16
    ∷ byte_at lba 8
    ∷ byte_at lba 0
    ∷ byte_at blocks 24
    ∷ byte_at blocks 16
    ∷ byte_at blocks 8
    ∷ byte_at blocks 0
    ∷ 0
    ∷ 0
    ∷ []

abbrev IsRange : List ℕ → ℕ → ℕ → ℕ → Type 0
IsRange cdb lba blocks fua =
    ((cdb_get_range cdb).offset ≡ lba)
    × ((cdb_get_range cdb).count ≡ blocks)
    × ((cdb_get_range cdb).fua ≡ fua)

-- The four lengths of a transfer command, with the operation codes, block addresses and counts that
-- each can carry. A 6-byte command has no FUA bit and counts from 1 to 256.
pub data Form : Type 0 where
  form6 form10 form12 form16 : Form

abbrev pub encode : Form → ℕ → ℕ → ℕ → ℕ → List ℕ
encode form6 op fua lba blocks = encode6 op lba blocks
encode form10 op fua lba blocks = encode10 op fua lba blocks
encode form12 op fua lba blocks = encode12 op fua lba blocks
encode form16 op fua lba blocks = encode16 op fua lba blocks

abbrev pub Fits : Form → ℕ → ℕ → ℕ → ℕ → Type 0
Fits form6 op fua lba blocks =
    (op < 32) × (fua < 1) × (lba < 2 ^ 21) × (1 ≤ blocks) × (blocks ≤ 256)
Fits form10 op fua lba blocks =
    (32 ≤ op) × (op < 96) × (fua < 2) × (lba < 2 ^ 32) × (blocks < 2 ^ 16)
Fits form12 op fua lba blocks =
    (160 ≤ op) × (op < 192) × (fua < 2) × (lba < 2 ^ 32) × (blocks < 2 ^ 32)
Fits form16 op fua lba blocks =
    (128 ≤ op) × (op < 160) × (fua < 2) × (lba < 2 ^ 64) × (blocks < 2 ^ 32)

-- For every length of command, the range read from an encoded command is the block address, the
-- block count and the FUA bit that were encoded, if they fit the command.
pub cdb_get_range-encode :
    (form : Form) (op fua lba blocks : ℕ)
    → Fits form op fua lba blocks
    → let range = cdb_get_range (encode form op fua lba blocks) in
      (range.offset ≡ lba) × (range.count ≡ blocks) × (range.fua ≡ fua)
unfolding cdb_get_range
cdb_get_range-encode form6 op fua lba blocks h = ground arith
cdb_get_range-encode form10 op fua lba blocks h = ground arith
cdb_get_range-encode form12 op fua lba blocks h = ground arith
cdb_get_range-encode form16 op fua lba blocks h = ground arith
