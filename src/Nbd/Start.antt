-- ===== src/Nbd/Start.antt =====
-- NbdDaemon::TryStart of libwnbd/nbd_daemon.cpp. Connecting, socket options, WnbdCreate and
-- WnbdStartDispatcher are parameters.
pub mod Accepts
use wnbd.Prelude.{
  ℕ, ◌+◌, ◌-◌, ◌*◌, ◌/◌, ◌%◌, ◌^◌, Bool, true, false, not, ◌&&◌, ◌||◌, Option, none, some, List, [],
  ◌==◌, ltb, leb, if◌then◌else◌,
}
use wnbd.Types.{Flags}
use wnbd.Emulated.Pages.{max_transfer_length}
use wnbd.Nbd.Wire.{
  BlockSizeInfo, check_flag, bit_read_only, bit_send_flush, bit_send_fua, bit_send_trim,
}
use wnbd.Nbd.Socket.{
  Winsock, ErrorCode, Outcome, ok, err, running, Proto, then_call, ◌>>=◌, return_ok, return_err,
}
use wnbd.Nbd.Handshake.{Export, negotiate, parsed}

-- WNBD_DEFAULT_BLOCK_SIZE
abbrev pub default_block_size : ℕ
default_block_size = 512

-- The properties that TryStart reads and sets.
pub record Mapping : Type 0 where
  pub export_name : List ℕ
  pub skip_negotiation : Bool
  pub block_size : ℕ
  pub block_count : ℕ
  pub max_unmap_desc_count : ℕ
  pub flags : Flags

-- The calls of TryStart; `allocated` says that the read buffer could be allocated.
pub record StartHost (w : Winsock) : Type 0 where
  pub allocated : Bool
  pub connect : Proto w (Unit {0})
  pub set_tcp_flags : Proto w (Unit {0})
  pub create : Mapping → Proto w (Unit {0})
  pub start_dispatcher : ℕ → Proto w (Unit {0})
  -- WNBD_DISPATCHER_THREADS as a number, if it is set
  pub dispatcher_threads : Option ℕ

-- The first lines: defaults, and the one block size that is allowed.
unfoldable pub with_defaults : Mapping → Mapping
with_defaults m = record m {
  max_unmap_desc_count = 1;
  flags = record m.flags { persist_res_supported = false };
  block_size = if m.block_size == 0 then default_block_size else m.block_size;
}

-- The server's block size constraints, for a block size.
unfoldable pub check_constraints : BlockSizeInfo → ℕ → Outcome (Unit {0})
check_constraints info block_size =
    if not info.received
    then ok tt
    else if ltb block_size info.minimum
    then err ErrorCode.not_supported
    else if not (info.minimum == 0) && not (block_size % info.minimum == 0)
    then err ErrorCode.not_supported
    else if not (info.maximum == 0) && ltb info.maximum max_transfer_length
    then err ErrorCode.not_supported
    else ok tt

-- The flags of the mapping, with the transmission flags of the server.
unfoldable pub with_nbd_flags : ℕ → Mapping → Mapping
with_nbd_flags nbd m = record m {
  flags = record m.flags {
    read_only = m.flags.read_only || check_flag bit_read_only nbd;
    unmap_supported = m.flags.unmap_supported || check_flag bit_send_trim nbd;
    flush_supported = m.flags.flush_supported || check_flag bit_send_flush nbd;
    fua_supported = m.flags.fua_supported || check_flag bit_send_fua nbd;
  };
}

unfoldable pub check_block_count : Mapping → Outcome (Unit {0})
check_block_count m =
    if (m.block_count == 0) || ltb ((2 ^ 64 - 1) / m.block_size) m.block_count
    then err ErrorCode.invalid_parameter
    else ok tt

-- What the negotiation changes, with the server's flags.
unfoldable pub with_export : Mapping → Export → Outcome (Mapping × ℕ)
unfolding check_constraints
with_export m x = elim (check_constraints x.info m.block_size) [
  | ok a ↦ ok (record m { block_count = x.size / m.block_size }, x.flags)
  | err e ↦ err e
  | running ↦ running
]

abbrev pub no_export : Export
no_export = record {
  size = 0;
  flags = 0;
  seen = false;
  info = record { minimum = 0; preferred = 0; maximum = 0; received = false };
}

-- How many dispatcher threads: WNBD_DISPATCHER_THREADS if it is 1 to 255, else one.
unfoldable pub thread_count : Option ℕ → ℕ
thread_count none = 1
thread_count (some n) = if leb 1 n && leb n 255 then n else 1

module _ (w : Winsock) (host : StartHost w) where
  -- The negotiation, or the mapping's own block count and no flags. `fuel` bounds NbdNegotiate.
  unfoldable pub find_export : ℕ → Mapping → Proto w (Mapping × ℕ)
  unfolding negotiate with_export
  find_export fuel m =
      if m.skip_negotiation
      then return_ok (m, 0)
      else (do x ← negotiate w fuel true m.export_name 1 no_export; parsed (with_export m x))

  -- From the flags of the server on.
  unfoldable pub create_mapping : Mapping → Proto w Mapping
  unfolding check_block_count thread_count
  create_mapping m = do
    _ ← parsed (check_block_count m)
    _ ← host.create m
    _ ← host.start_dispatcher (thread_count host.dispatcher_threads)
    return_ok m

  -- TryStart, with the properties of the mapping that it makes.
  unfoldable pub try_start : ℕ → Mapping → Proto w Mapping
  unfolding with_defaults find_export with_nbd_flags create_mapping
  try_start fuel m =
      let m' = with_defaults m in
      if not (m'.block_size == default_block_size)
      then return_err ErrorCode.invalid_parameter
      else if not host.allocated
      then return_err ErrorCode.not_enough_memory
      else (do
        _ ← host.connect
        _ ← host.set_tcp_flags
        found ← find_export fuel m'
        create_mapping (with_nbd_flags found.1 found.0))
