-- ===== src/Nbd/Daemon/Replies.antt =====
-- ProcessNbdReply and NbdReplyWorker of libwnbd/nbd_daemon.cpp.
pub mod Frames
use wnbd.Prelude.{
  ℕ, zero, suc, ◌+◌, Bool, true, false, not, ◌&&◌, ◌||◌, Option, none, some, List, [], ◌∷◌, ◌==◌,
  ltb, if◌then◌else◌,
}
use wnbd.Wdk.{check_condition}
use wnbd.Types.{WnbdStatus, RequestType, req_read}
use wnbd.Nbd.Wire.{Reply}
use wnbd.Nbd.Socket.{Winsock, ErrorCode, Outcome, ok, err, running, Proto, recv_exact}
use wnbd.Nbd.Request.{read_reply}
use wnbd.Nbd.Daemon.{
  PendingRequest, find, erase, Daemon, IoResponse, Submission, submitted, io_pending, submit_failed,
  Host, is_read, shutdown,
}

abbrev pub no_status : WnbdStatus
no_status = record {
  scsi_status = 0;
  sense_key = 0;
  asc = 0;
  ascq = 0;
  information = 0;
  information_valid = false;
}

-- WnbdSetSense of libwnbd/libwnbd.cpp
abbrev pub set_sense : WnbdStatus → ℕ → ℕ → WnbdStatus
set_sense status key asc = record status {
  scsi_status = check_condition;
  sense_key = key;
  asc = asc;
  information = 0;
  information_valid = false;
}

-- SCSI_SENSE_MEDIUM_ERROR and SCSI_ADSENSE_UNRECOVERED_ERROR
abbrev pub sense_medium_error : ℕ
sense_medium_error = 3

abbrev pub adsense_unrecovered_error : ℕ
adsense_unrecovered_error = 0x11

-- The response to a reply, with the data that was read for it.
abbrev pub response : Reply → PendingRequest → List ℕ → IoResponse
response reply request payload = record {
  request_handle = reply.handle;
  request_type = request.request_type;
  status =
      if reply.error == 0
      then no_status
      else set_sense no_status sense_medium_error adsense_unrecovered_error;
  data_bytes = payload;
}

-- NbdGetReadResponseBufferSize, with a place for the result.
unfoldable pub response_buffer_size : ℕ → ℕ → Outcome ℕ
response_buffer_size len capacity =
    if ltb capacity len then err ErrorCode.file_too_large else ok len

-- An error, or success.
abbrev pub result_of : Option ErrorCode → Outcome (Unit {0})
result_of none = ok tt
result_of (some e) = err e

-- A reply with which data comes.
abbrev pub has_payload : Reply → PendingRequest → Bool
has_payload reply request = (reply.error == 0) && is_read request.request_type

module _ (w : Winsock) (host : Host w) where
  abbrev pub Step : Type 0
  Step = Outcome (Unit {0}) × (Daemon × w.State)

  -- An error while the disk is being removed is ignored; a response that is pending is waited for.
  unfoldable pub conclude : Daemon → Submission × w.State → Step
  conclude d (submitted, s) = (ok tt, (d, s))
  conclude d (io_pending, s) =
      if d.terminate_in_progress
      then (ok tt, (d, s))
      else (let (e, s') = host.wait_response s in (result_of e, (d, s')))
  conclude d (submit_failed e, s) =
      if d.terminate_in_progress then (ok tt, (d, s)) else (err e, (d, s))

  unfoldable pub respond : Daemon → Reply → PendingRequest → List ℕ → w.State → Step
  unfolding conclude
  respond d reply request payload s =
      conclude d (host.send_response (response reply request payload) s)

  unfoldable pub after_payload : Daemon → Reply → PendingRequest → Outcome (List ℕ) × w.State → Step
  unfolding respond
  after_payload d reply request (ok payload, s) = respond d reply request payload s
  after_payload d reply request (err e, s) = (err e, (d, s))
  after_payload d reply request (running, s) = (running, (d, s))

  unfoldable pub read_payload : Daemon → Reply → PendingRequest → Outcome ℕ → w.State → Step
  unfolding after_payload recv_exact
  read_payload d reply request (ok size) s = after_payload d reply request (recv_exact w size s)
  read_payload d reply request (err e) s = (err e, (d, s))
  read_payload d reply request running s = (running, (d, s))

  -- A reply to a request that was found; it is no longer pending.
  unfoldable pub answer : Daemon → Reply → PendingRequest → w.State → Step
  unfolding read_payload respond response_buffer_size
  answer d reply request s =
      if has_payload reply request
      then read_payload d reply request (response_buffer_size request.len d.buffer_size) s
      else respond d reply request [] s

  unfoldable pub look_up : Daemon → Reply → Option PendingRequest → w.State → Step
  unfolding answer
  look_up d reply none s = (err ErrorCode.invalid_parameter, (d, s))
  look_up d reply (some request) s =
      answer (record d { pending = erase reply.handle d.pending }) reply request s

  unfoldable pub after_reply : Daemon → Outcome Reply × w.State → Step
  unfolding look_up
  after_reply d (ok reply, s) = look_up d reply (find reply.handle d.pending) s
  after_reply d (err e, s) = (err e, (d, s))
  after_reply d (running, s) = (running, (d, s))

  -- ProcessNbdReply
  unfoldable pub process_nbd_reply : Daemon → w.State → Step
  unfolding after_reply read_reply
  process_nbd_reply d s = after_reply d (read_reply w s)

  -- The loop of NbdReplyWorker, on fuel; `none` where it was followed no further. Every error, that
  -- of a connection which was closed too, ends in a hard shutdown.
  unfoldable pub reply_worker : ℕ → Daemon → w.State → Option (Daemon × w.State)
  unfolding process_nbd_reply shutdown
  reply_worker zero d s = none
  reply_worker (suc fuel) d s =
      let (reset, s1) = host.reset_event s in
      let (r, (d2, s2)) = process_nbd_reply d s1 in
      let rest = reply_worker fuel d2 s2 in
      if d.terminated
      then some (d, s)
      else if not reset
      then some (shutdown w host true d s1).1
      else elim r [ ok a ↦ rest | err e ↦ some (shutdown w host true d2 s2).1 | running ↦ none ]
