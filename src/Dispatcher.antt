-- ===== src/Dispatcher.antt =====
-- The request dispatcher of libwnbd/libwnbd.cpp: a thread fetches requests from the driver and hands
-- them to the callbacks of the disk's owner, who answers them. The driver's and the system's answers
-- are arguments; what a callback does is the owner's, and its reply a step of its own.
pub mod Handled
pub mod Counters
pub mod Threads
use wnbd.Prelude.{
  ℕ, ◌+◌, ◌%◌, ◌^◌, Bool, true, false, not, ◌&&◌, ◌||◌, Option, none, some, List, [], ◌∷◌, ltb,
  ◌==◌, if◌then◌else◌,
}
use wnbd.Word.{inc64, dec64, wrap64}
use wnbd.Types
use wnbd.Types.{
  RequestType, req_unknown, req_read, req_write, req_flush, req_unmap, req_disconnect,
  req_persist_res_in, req_persist_res_out, WnbdStatus, IoRequest, Command,
}
use wnbd.Nbd.Daemon.Replies.{set_sense, no_status}

-- WNBD_USR_STATS
pub record UserStats : Type 0 where
  pub total_received_requests : ℕ
  pub total_submitted_requests : ℕ
  pub total_received_replies : ℕ
  pub unsubmitted_requests : ℕ
  pub pending_submitted_requests : ℕ
  pub pending_replies : ℕ
  pub read_errors : ℕ
  pub write_errors : ℕ
  pub flush_errors : ℕ
  pub unmap_errors : ℕ
  pub persist_res_in_errors : ℕ
  pub persist_res_out_errors : ℕ
  pub invalid_requests : ℕ
  pub total_rw_requests : ℕ
  pub total_read_blocks : ℕ
  pub total_written_blocks : ℕ

-- WNBD_INTERFACE: which callbacks are set.
pub record Interface : Type 0 where
  pub read : Bool
  pub write : Bool
  pub flush : Bool
  pub unmap : Bool
  pub persist_res_in : Bool
  pub persist_res_out : Bool

-- WNBD_IO_REQUEST, with the flag Anchor of an unmap request.
pub record Incoming : Type 0 where
  pub request : IoRequest
  pub anchor : Bool

-- WNBD_IO_RESPONSE
pub record Response : Type 0 where
  pub request_handle : ℕ
  pub request_type : RequestType
  pub status : WnbdStatus

-- WNBD_DISK with the properties that are read. `called` are the requests that were handed to a callback
-- and `sent` the responses that were handed to the driver, both latest first; `removals` counts the
-- calls of WnbdRemove.
pub record UserDisk : Type 0 where
  pub flush_supported : Bool
  pub unmap_supported : Bool
  pub unmap_anchor_supported : Bool
  pub persist_res_supported : Bool
  pub max_unmap_desc_count : ℕ
  pub interface : Interface
  pub stopping : Bool
  pub stopped : Bool
  pub started : Bool
  pub stats : UserStats
  pub called : List IoRequest
  pub sent : List Response
  pub removals : ℕ

-- WnbdIsRunning
abbrev pub is_running : UserDisk → Bool
is_running d = d.started && not d.stopped

-- WnbdSignalStopped
abbrev pub signal_stopped : UserDisk → UserDisk
signal_stopped d = record d { stopped = true }

-- WnbdStopDispatcher
unfoldable pub stop_dispatcher : UserDisk → UserDisk
stop_dispatcher d =
    if d.stopping then d else record d { stopping = true; removals = d.removals + 1 }

-- The error counter of a failed request.
unfoldable pub count_error : RequestType → UserStats → UserStats
count_error req_read s = record s { read_errors = inc64 s.read_errors }
count_error req_write s = record s { write_errors = inc64 s.write_errors }
count_error req_flush s = record s { flush_errors = inc64 s.flush_errors }
count_error req_unmap s = record s { unmap_errors = inc64 s.unmap_errors }
count_error req_persist_res_in s = record s {
  persist_res_in_errors = inc64 s.persist_res_in_errors;
}
count_error req_persist_res_out s = record s {
  persist_res_out_errors = inc64 s.persist_res_out_errors;
}
count_error _ s = s

-- A Win32 error code: success, ERROR_NOT_FOUND, ERROR_PIPE_NOT_CONNECTED, or another one.
pub data Win32Error : Type 0 where
  error_success error_not_found error_pipe_not_connected : Win32Error
  other_error : ℕ → Win32Error

abbrev pub is_not_found : Win32Error → Bool
is_not_found error_not_found = true
is_not_found _ = false

-- The counters of a response.
unfoldable pub count_reply : Response → UserStats → UserStats
unfolding count_error
count_reply r s =
    let s' = record s {
      total_received_replies = inc64 s.total_received_replies;
      pending_submitted_requests = dec64 s.pending_submitted_requests;
    } in
    if r.status.scsi_status == 0 then s' else count_error r.request_type s'

-- PendingReplies, counted up for the call of WnbdIoctlSendResponse and down after it.
abbrev pub count_call : UserStats → UserStats
count_call s = record s { pending_replies = dec64 (inc64 s.pending_replies) }

-- WnbdSendResponseEx; `ioctl` is what WnbdIoctlSendResponse returns.
unfoldable pub send_response : Win32Error → Response → UserDisk → Win32Error × UserDisk
unfolding count_reply
send_response ioctl r d =
    let d' = record d { stats = count_reply r d.stats } in
    if not (is_running d')
    then (error_pipe_not_connected, d')
    else (ioctl, record d' { sent = r ∷ d.sent; stats = count_call d'.stats })

-- SCSI_SENSE_ILLEGAL_REQUEST, and the additional sense codes.
abbrev pub sense_illegal : ℕ
sense_illegal = 0x05

abbrev pub adsense_illegal_command : ℕ
adsense_illegal_command = 0x20

abbrev pub adsense_invalid_cdb : ℕ
adsense_invalid_cdb = 0x24

abbrev pub adsense_invalid_parameter : ℕ
adsense_invalid_parameter = 0x26

-- What the switch decides: the disk disconnects, a callback is called, or the request is refused with
-- an additional sense code.
pub data Verdict : Type 0 where
  disconnect hand_over : Verdict
  unsupported : ℕ → Verdict

abbrev when : Bool → Verdict
when supported = if supported then hand_over else unsupported adsense_illegal_command

abbrev pub descriptor_count : Command → ℕ
descriptor_count (Command.unmap n) = n
descriptor_count _ = 0

unfoldable pub judge : UserDisk → Incoming → Verdict
judge d i = elim i.request.request_type [
  | req_disconnect ↦ disconnect
  | req_read ↦ when d.interface.read
  | req_write ↦ when d.interface.write
  | req_flush ↦ when (d.interface.flush && d.flush_supported)
  | req_unmap ↦
      if not d.interface.unmap || not d.unmap_supported
      then unsupported adsense_illegal_command
      else if not d.unmap_anchor_supported && i.anchor
      then unsupported adsense_invalid_cdb
      else if ltb d.max_unmap_desc_count (descriptor_count i.request.cmd)
      then unsupported adsense_invalid_parameter
      else hand_over
  | req_persist_res_in ↦ when (d.interface.persist_res_in && d.persist_res_supported)
  | req_persist_res_out ↦ when (d.interface.persist_res_out && d.persist_res_supported)
  | req_unknown ↦ unsupported adsense_illegal_command
]

-- The counters of a request that a callback took.
unfoldable pub count_blocks : RequestType → Command → UserStats → UserStats
count_blocks req_read (Command.transfer address count fua) s = record s {
  total_rw_requests = inc64 s.total_rw_requests;
  total_read_blocks = wrap64 (s.total_read_blocks + count);
}
count_blocks req_write (Command.transfer address count fua) s = record s {
  total_rw_requests = inc64 s.total_rw_requests;
  total_written_blocks = wrap64 (s.total_written_blocks + count);
}
count_blocks _ _ s = s

abbrev pub arrived : UserStats → UserStats
arrived s = record s {
  total_received_requests = inc64 s.total_received_requests;
  unsubmitted_requests = inc64 s.unsubmitted_requests;
}

-- What follows the switch, for a valid request and for an invalid one.
abbrev pub submitted : UserStats → UserStats
submitted s = record s {
  unsubmitted_requests = dec64 s.unsubmitted_requests;
  total_submitted_requests = inc64 s.total_submitted_requests;
  pending_submitted_requests = inc64 s.pending_submitted_requests;
}

abbrev pub invalid : UserStats → UserStats
invalid s = record s {
  unsubmitted_requests = dec64 s.unsubmitted_requests;
  invalid_requests = inc64 s.invalid_requests;
}

abbrev pub with_stats : (UserStats → UserStats) → UserDisk → UserDisk
with_stats f d = record d { stats = f d.stats }

-- The response to a request that is refused.
unfoldable pub refusal_of : ℕ → IoRequest → Response
refusal_of asc r = record {
  request_handle = r.request_handle;
  request_type = r.request_type;
  status = set_sense no_status sense_illegal asc;
}

abbrev pub one_more_pending : UserStats → UserStats
one_more_pending s = record s { pending_submitted_requests = inc64 s.pending_submitted_requests }

-- The response was sent, or not.
unfoldable pub refused_end : Win32Error × UserDisk → UserDisk
refused_end (status, d) = if is_not_found status then signal_stopped d else d

unfoldable pub run_verdict : Win32Error → Verdict → IoRequest → UserDisk → UserDisk
unfolding count_blocks refusal_of send_response refused_end
run_verdict ioctl disconnect r d = with_stats submitted (signal_stopped d)
run_verdict ioctl hand_over r d =
    with_stats submitted
      (with_stats (count_blocks r.request_type r.cmd) (record d { called = r ∷ d.called }))
run_verdict ioctl (unsupported asc) r d =
    with_stats invalid
      (refused_end (send_response ioctl (refusal_of asc r) (with_stats one_more_pending d)))

-- WnbdHandleRequest; `ioctl` is what the driver answers if a response is sent.
unfoldable pub handle_request : Win32Error → Incoming → UserDisk → UserDisk
unfolding judge run_verdict
handle_request ioctl i d = run_verdict ioctl (judge d i) i.request (with_stats arrived d)

-- A round of the loop: whether ResetEvent succeeds, and the request, or the error, that
-- WnbdIoctlFetchRequest brings once it is complete.
pub data Round : Type 0 where
  reset_failed : Round
  fetch_failed : Win32Error → Round
  fetched : Win32Error → Incoming → Round

-- The loop of WnbdDispatcherLoop; `none` is a thread that is still running after the rounds given.
unfoldable pub dispatcher_rounds : List Round → UserDisk → Option UserDisk
unfolding handle_request
dispatcher_rounds [] d = if is_running d then none else some d
dispatcher_rounds (reset_failed ∷ rounds) d = some d
dispatcher_rounds (fetch_failed e ∷ rounds) d = some d
dispatcher_rounds (fetched ioctl i ∷ rounds) d =
    let rest = dispatcher_rounds rounds (handle_request ioctl i d) in
    if is_running d then rest else some d

-- WnbdDispatcherLoop, whose event and buffer may not be had.
unfoldable pub dispatcher_loop : Bool → List Round → UserDisk → Option UserDisk
unfolding dispatcher_rounds stop_dispatcher
dispatcher_loop has_resources rounds d =
    elim (if has_resources then dispatcher_rounds rounds d else some d) [
      | none ↦ none
      | some d' ↦ some (stop_dispatcher d')
    ]
