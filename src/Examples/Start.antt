-- ===== src/Examples/Start.antt =====
-- The NBD daemon starts a mapping.
use wnbd.Prelude.{ℕ, ◌*◌, ◌≤◌, ◌≡◌, refl, true, false, some, [], ◌∷◌, arith, ◌⊎◌}
use wnbd.Nbd.Wire.{BlockSizeInfo}
use wnbd.Nbd.Handshake.{
  validate_initial_magic, validate_option_magic, require_fixed_newstyle, client_flags_of,
}
use wnbd.Nbd.Socket.{recv_exact, ok, return_ok}
use wnbd.Nbd.Start.{Mapping, StartHost, try_start, check_constraints}
use wnbd.Nbd.Start.Accepts.{IsAccepted, try_start-IsAccepted, check_constraints-honoured}
use wnbd.Examples.Sockets.{slow, transcript}

abbrev ready : StartHost slow
ready = record {
  allocated = true;
  connect = return_ok tt;
  set_tcp_flags = return_ok tt;
  create = λ m. return_ok tt;
  start_dispatcher = λ n. return_ok tt;
  dispatcher_threads = some 4;
}

abbrev mapping : ℕ → ℕ → Mapping
mapping block_size block_count = record {
  export_name = 100 ∷ [];
  skip_negotiation = false;
  block_size = block_size;
  block_count = block_count;
  max_unmap_desc_count = 1;
  flags = record {
    read_only = false;
    flush_supported = false;
    fua_supported = false;
    unmap_supported = false;
    use_kernel_nbd = false;
    persist_res_supported = false;
    naa_id_specified = false;
  };
}

starts : (try_start slow ready 100 (mapping 0 0) (transcript, [])).0 ≡ ok (mapping 512 2048)
unfolding try_start recv_exact validate_initial_magic validate_option_magic require_fixed_newstyle
    client_flags_of
starts = refl

try_start-IsAccepted_example : IsAccepted (mapping 512 2048)
try_start-IsAccepted_example =
    try_start-IsAccepted slow ready 100 (mapping 0 0) (mapping 512 2048) (transcript, []) starts

abbrev limits : BlockSizeInfo
limits = record { minimum = 256; preferred = 4096; maximum = 33554432; received = true }

within : check_constraints limits 512 ≡ ok tt
unfolding check_constraints
within = refl

check_constraints-honoured_example :
    ((k : ℕ) × (3 * 512 ≡ k * 256))
    × ((k : ℕ) × (8 * 512 ≡ k * 256))
    × ((limits.maximum ≡ 0) ⊎ (8 * 512 ≤ limits.maximum))
check_constraints-honoured_example =
    check_constraints-honoured limits 512 3 8 within refl (omega arith) (omega arith)
