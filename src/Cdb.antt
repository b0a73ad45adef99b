-- ===== src/Cdb.antt =====
-- Command descriptor blocks: driver/srb_helper.h, ScsiOpToWnbdReqType of driver/util.h, and the
-- tests on an SRB's command of driver/util.c. A CDB is the list of its bytes (`AsByte`); a byte past
-- the end reads 0. Where the source joins byte lanes by `<<` and `|`, the lanes are disjoint, so
-- the join is a sum.
pub mod Decode
use wnbd.Prelude.{
  ℕ, ◌+◌, ◌*◌, ◌/◌, ◌%◌, ◌^◌, Bool, true, false, Option, none, some, List, ◌==◌, if◌then◌else◌,
  get_or,
}
use wnbd.Wdk
use wnbd.Wdk.{ScsiOp, scsi_op}
use wnbd.Types.{
  RequestType, req_unknown, req_read, req_write, req_flush, req_unmap, req_persist_res_in,
  req_persist_res_out, Srb,
}

abbrev pub as_byte : List ℕ → ℕ → ℕ
as_byte cdb i = get_or cdb i 0

-- Cdb->AsByte[0]
abbrev pub opcode : List ℕ → ScsiOp
opcode cdb = scsi_op (as_byte cdb 0)

abbrev pub be16 : ℕ → ℕ → ℕ
be16 b0 b1 = b0 * 2 ^ 8 + b1

abbrev pub be32 : ℕ → ℕ → ℕ → ℕ → ℕ
be32 b0 b1 b2 b3 = b0 * 2 ^ 24 + b1 * 2 ^ 16 + b2 * 2 ^ 8 + b3

abbrev pub be64 : ℕ → ℕ → ℕ → ℕ → ℕ → ℕ → ℕ → ℕ → ℕ
be64 b0 b1 b2 b3 b4 b5 b6 b7 =
    b0 * 2 ^ 56
    + b1 * 2 ^ 48
    + b2 * 2 ^ 40
    + b3 * 2 ^ 32
    + b4 * 2 ^ 24
    + b5 * 2 ^ 16
    + b6 * 2 ^ 8
    + b7

-- The block range of a command, and its FUA bit.
pub record Range : Type 0 where
  pub offset : ℕ
  pub count : ℕ
  pub fua : ℕ

-- A one-bit field: bit 3 of byte 1 is ForceUnitAccess.
abbrev fua_bit : List ℕ → ℕ
fua_bit cdb = as_byte cdb 1 / 8 % 2

range6 : List ℕ → Range
range6 cdb = record {
  offset = as_byte cdb 1 % 32 * 2 ^ 16 + as_byte cdb 2 * 2 ^ 8 + as_byte cdb 3;
  count = if as_byte cdb 4 == 0 then 256 else as_byte cdb 4;
  fua = 0;
}

range10 : List ℕ → Range
range10 cdb = record {
  offset = be32 (as_byte cdb 2) (as_byte cdb 3) (as_byte cdb 4) (as_byte cdb 5);
  count = be16 (as_byte cdb 7) (as_byte cdb 8);
  fua = fua_bit cdb;
}

range12 : List ℕ → Range
range12 cdb = record {
  offset = be32 (as_byte cdb 2) (as_byte cdb 3) (as_byte cdb 4) (as_byte cdb 5);
  count = be32 (as_byte cdb 6) (as_byte cdb 7) (as_byte cdb 8) (as_byte cdb 9);
  fua = fua_bit cdb;
}

range16 : List ℕ → Range
range16 cdb = record {
  offset =
      be64 (as_byte cdb 2) (as_byte cdb 3) (as_byte cdb 4) (as_byte cdb 5) (as_byte cdb 6)
        (as_byte cdb 7) (as_byte cdb 8) (as_byte cdb 9);
  count = be32 (as_byte cdb 10) (as_byte cdb 11) (as_byte cdb 12) (as_byte cdb 13);
  fua = fua_bit cdb;
}

-- SrbCdbGetRange, its results zero before the call. The command group is the top three bits.
unfoldable pub cdb_get_range : List ℕ → Range
unfolding range6 range10 range12 range16
cdb_get_range cdb =
    let group = as_byte cdb 0 / 32 % 8 in
    if group == 0
    then range6 cdb
    else if group == 1
    then range10 cdb
    else if group == 2
    then range10 cdb
    else if group == 4
    then range16 cdb
    else if group == 5
    then range12 cdb
    else record { offset = 0; count = 0; fua = 0 }

-- ScsiOpToWnbdReqType
unfoldable pub request_type : ScsiOp → RequestType
request_type ScsiOp.read6 = req_read
request_type ScsiOp.read10 = req_read
request_type ScsiOp.read12 = req_read
request_type ScsiOp.read16 = req_read
request_type ScsiOp.write6 = req_write
request_type ScsiOp.write10 = req_write
request_type ScsiOp.write12 = req_write
request_type ScsiOp.write16 = req_write
request_type ScsiOp.unmap = req_unmap
request_type ScsiOp.synchronize_cache = req_flush
request_type ScsiOp.synchronize_cache16 = req_flush
request_type ScsiOp.persistent_reserve_in = req_persist_res_in
request_type ScsiOp.persistent_reserve_out = req_persist_res_out
request_type _ = req_unknown

is_read_op : ScsiOp → Bool
is_read_op ScsiOp.read6 = true
is_read_op ScsiOp.read10 = true
is_read_op ScsiOp.read12 = true
is_read_op ScsiOp.read16 = true
is_read_op _ = false

is_per_res_in_op : ScsiOp → Bool
is_per_res_in_op ScsiOp.persistent_reserve_in = true
is_per_res_in_op _ = false

-- IsReadSrb
unfoldable pub is_read_srb : Srb → Bool
unfolding is_read_op
is_read_srb srb = elim srb.cdb [ none ↦ false | some cdb ↦ is_read_op (opcode cdb) ]

-- IsPerResInSrb
unfoldable pub is_per_res_in_srb : Srb → Bool
unfolding is_per_res_in_op
is_per_res_in_srb srb = elim srb.cdb [ none ↦ false | some cdb ↦ is_per_res_in_op (opcode cdb) ]
