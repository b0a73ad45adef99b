-- ===== src/Examples/Requests.antt =====
-- The theorems on single calls at concrete inputs.
use wnbd.Prelude.{
  ◌-◌, ◌≡◌, refl, true, false, Option, none, some, [], ◌∷◌, ◌++◌, arith, take, drop, replicate, min,
}
use wnbd.Types.{Device, Element}
use wnbd.Cdb.{cdb_get_range, request_type}
use wnbd.Cdb.Decode.{encode, form10, cdb_get_range-encode}
use wnbd.Submitted.{init_hash, insert, find_tag, remove_by_tag}
use wnbd.Submitted.Sync.{IsSynced, init_hash-IsSynced, insert-IsSynced}
use wnbd.Submitted.Lookup.{DistinctTags, without_tag, remove_by_tag-scan}
use wnbd.Request.Initialize.{initialize_device}
use wnbd.Request.Execute.{execute_scsi}
use wnbd.Request.Validate.{validate_scsi_request}
use wnbd.Request.Memory.{unmapped}
use wnbd.Request.Send.{Fetch, removal}
use wnbd.Request.Dispatch.{Caller, begin_fetch, dispatch_request, dispatch_round, zero_request}
use wnbd.Request.Dispatch.Return.{returns, dispatch_request-returns}
use wnbd.Request.Dispatch.Balance.{dispatch_request-balanced}
use wnbd.Request.Response.{Reply, ReplyEnv, fill_data, handle_response}
use wnbd.Request.Response.Data.{fill_data_lem}
use wnbd.Request.Response.Balance.{handle_response-balanced}
use wnbd.Examples.{blank, read_srb, lock_env, no_memory, round, queued_device, fetched_device}

-- WRITE(10) with FUA, 8 blocks at block 3
cdb_get_range-encode_example :
    let range = cdb_get_range (encode form10 42 1 3 8) in
    (range.offset ≡ 3) × (range.count ≡ 8) × (range.fua ≡ 1)
cdb_get_range-encode_example = cdb_get_range-encode form10 42 1 3 8 (ground arith)

abbrev element : Element
element = record {
  addr = 16;
  srb = read_srb;
  starting_lbn = 1536;
  data_length = 4096;
  fua = false;
  tag = 257;
  aborted = false;
  completed = false;
  pooled = true;
  req_timestamp = 11;
}

abbrev submitted_device : Device
submitted_device = insert (init_hash blank) element

submitted_device-IsSynced : IsSynced submitted_device
submitted_device-IsSynced =
    insert-IsSynced (init_hash blank) element (init_hash-IsSynced blank refl)
      (unfold init_hash in ground arith)

submitted_device-tags : DistinctTags submitted_device.submitted
unfolding insert init_hash
submitted_device-tags = ground arith

remove_by_tag-scan_example :
    ((remove_by_tag submitted_device 257).0 ≡ find_tag 257 submitted_device.submitted)
    × ((remove_by_tag submitted_device 257).1.submitted
        ≡ without_tag 257 submitted_device.submitted)
remove_by_tag-scan_example =
    remove_by_tag-scan submitted_device 257 submitted_device-IsSynced submitted_device-tags

abbrev caller : Caller
caller = record { pid = 4; removed_at_exit = false; data_buffer_size = 4096 }

-- What the call leaves, or what it began with.
abbrev fetched_or : Option Fetch → Fetch → Fetch
fetched_or none f = f
fetched_or (some f) g = f

abbrev fetched : Fetch
fetched =
    fetched_or (dispatch_request caller (round ∷ []) queued_device 0 zero_request no_memory)
      (begin_fetch queued_device 0 zero_request no_memory)

fetched-returns :
    dispatch_request caller (round ∷ []) queued_device 0 zero_request no_memory ≡ some fetched
unfolding dispatch_request execute_scsi initialize_device cdb_get_range dispatch_round
    validate_scsi_request request_type
fetched-returns = refl

dispatch_request-balanced_example : (fetched.mapping ≡ unmapped) × (fetched.memory ≡ no_memory)
dispatch_request-balanced_example =
    dispatch_request-balanced caller (round ∷ []) queued_device 0 zero_request no_memory fetched
      fetched-returns

fill_data_lem_example :
    fill_data (some (1 ∷ 2 ∷ [])) 2 3 (9 ∷ 9 ∷ 9 ∷ 9 ∷ [])
    ≡ take (min 3 2) (1 ∷ 2 ∷ []) ++ (replicate (3 - 2) 0 ++ drop 3 (9 ∷ 9 ∷ 9 ∷ 9 ∷ []))
fill_data_lem_example = fill_data_lem (1 ∷ 2 ∷ []) (9 ∷ 9 ∷ 9 ∷ 9 ∷ []) 2 3 (omega arith)

abbrev reply : Reply
reply = record {
  request_handle = 1;
  status = record {
    scsi_status = 0;
    sense_key = 0;
    asc = 0;
    ascq = 0;
    information = 0;
    information_valid = false;
  };
  data_buffer = some (1 ∷ 2 ∷ []);
  data_buffer_size = 2;
}

abbrev reply_env : ReplyEnv
reply_env = record { pid = 4; system_address = true; lock = lock_env; now = 30 }

handle_response-balanced_example :
    (handle_response reply_env reply fetched_device no_memory).2 ≡ no_memory
handle_response-balanced_example = handle_response-balanced reply_env reply fetched_device no_memory

-- A request is fetched, or else the wait is ended by the removal event.
dispatch_request-returns_example :
    returns (
      dispatch_request caller
        (round ∷ record round { wait = removal } ∷ [])
        queued_device
        0
        zero_request
        no_memory)
    ≡ true
dispatch_request-returns_example =
    dispatch_request-returns caller (round ∷ record round { wait = removal } ∷ []) queued_device 0
      zero_request no_memory refl
