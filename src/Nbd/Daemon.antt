-- ===== src/Nbd/Daemon.antt =====
-- libwnbd/nbd_daemon.cpp: the map of pending requests, the handlers of requests, the replies of the
-- server and the shutdown. Locks are held around each access, so a handler is one step. What the
-- daemon calls of Windows and of libwnbd/libwnbd.cpp is a parameter.
pub mod Replies
pub mod Requests
use wnbd.Prelude.{
  ℕ, zero, suc, ◌+◌, ◌*◌, Bool, true, false, not, ◌&&◌, ◌||◌, Option, none, some, List, [], ◌∷◌,
  ◌==◌, ltb, if◌then◌else◌,
}
use wnbd.Word.{wrap32, wrap64}
use wnbd.Types.{WnbdStatus, RequestType, req_read, req_write, req_flush, req_unmap}
use wnbd.Nbd.Wire.{Command, cmd_read, cmd_write, cmd_disc, cmd_flush, cmd_trim, Reply}
use wnbd.Nbd.Socket.{Winsock, ErrorCode, Outcome, ok, err, running, Proto, recv_exact}
use wnbd.Nbd.Request.{nbd_request, send_write, read_reply}

-- PendingRequestInfo
pub record PendingRequest : Type 0 where
  pub request_handle : ℕ
  pub request_type : RequestType
  pub len : ℕ

-- std::unordered_map of pending requests by handle: emplace keeps an entry that is there.
unfoldable pub find : ℕ → List PendingRequest → Option PendingRequest
find h [] = none
find h (p ∷ ps) = if p.request_handle == h then some p else find h ps

unfoldable pub emplace : PendingRequest → List PendingRequest → List PendingRequest
unfolding find
emplace p ps = elim (find p.request_handle ps) [ none ↦ p ∷ ps | some q ↦ ps ]

unfoldable pub erase : ℕ → List PendingRequest → List PendingRequest
erase h [] = []
erase h (p ∷ ps) = if p.request_handle == h then ps else p ∷ erase h ps

-- The members of NbdDaemon: whether Socket is not INVALID_SOCKET, whether WnbdDisk is not NULL.
pub record Daemon : Type 0 where
  pub block_size : ℕ
  pub socket_open : Bool
  pub transmission_started : Bool
  pub terminated : Bool
  pub terminate_in_progress : Bool
  pub has_disk : Bool
  pub buffer_size : ℕ
  pub pending : List PendingRequest

-- WNBD_IO_RESPONSE and its data.
pub record IoResponse : Type 0 where
  pub request_handle : ℕ
  pub request_type : RequestType
  pub status : WnbdStatus
  pub data_bytes : List ℕ

-- WnbdRemove and WnbdSendResponseEx, by what the code tells apart.
pub data Removed : Type 0 where
  removed not_there : Removed
  remove_failed : ErrorCode → Removed

pub data Submission : Type 0 where
  submitted io_pending : Submission
  submit_failed : ErrorCode → Submission

-- The calls of the daemon, on the state that the socket has too: WnbdRemove(hard), shutdown,
-- closesocket, ResetEvent, WnbdSendResponseEx and GetOverlappedResult. A Boolean says that a call
-- succeeded.
pub record Host (w : Winsock) : Type 0 where
  pub remove : Bool → w.State → Removed × w.State
  pub shutdown_socket : w.State → Bool × w.State
  pub close_socket : w.State → Bool × w.State
  pub reset_event : w.State → Bool × w.State
  pub send_response : IoResponse → w.State → Submission × w.State
  pub wait_response : w.State → Option ErrorCode × w.State

abbrev pub is_read : RequestType → Bool
is_read req_read = true
is_read _ = false

-- The length in bytes, a UINT32, and the offset, a UINT64.
abbrev pub byte_length : Daemon → ℕ → ℕ
byte_length d count = wrap32 (count * d.block_size)

abbrev pub byte_offset : Daemon → ℕ → ℕ
byte_offset d address = wrap64 (address * d.block_size)

abbrev pub track : ℕ → RequestType → ℕ → Daemon → Daemon
track handle type count d = record d {
  pending =
      emplace (record { request_handle = handle; request_type = type; len = byte_length d count })
        d.pending;
}

module _ (w : Winsock) (host : Host w) where
  -- DisconnectNbd without its result, which its caller only logs.
  unfoldable pub disconnect : Daemon → w.State → Daemon × w.State
  unfolding nbd_request
  disconnect d s =
      if not d.socket_open
      then (d, s)
      else (let told =
            if d.transmission_started then (nbd_request w true 0 0 0 cmd_disc s).1 else s in
          (
            record d { socket_open = false; transmission_started = false },
            (host.close_socket (host.shutdown_socket told).1).1,
          ))

  -- The end of Shutdown: Terminated is set, and the connection closed.
  unfoldable pub terminate : Daemon → w.State → Outcome (Unit {0}) × (Daemon × w.State)
  unfolding disconnect
  terminate d s = (ok tt, disconnect (record d { terminated = true }) s)

  unfoldable pub after_remove : Daemon → Removed × w.State → Outcome (Unit {0}) × (Daemon × w.State)
  unfolding terminate
  after_remove d (remove_failed e, s) = (err e, (d, s))
  after_remove d (removed, s) = terminate d s
  after_remove d (not_there, s) = terminate d s

  -- Shutdown
  unfoldable pub shutdown : Bool → Daemon → w.State → Outcome (Unit {0}) × (Daemon × w.State)
  unfolding after_remove
  shutdown hard d s =
      let d' = record d { terminate_in_progress = true } in
      if d.terminated
      then (ok tt, (d, s))
      else if d.has_disk
      then after_remove d' (host.remove hard s)
      else terminate d' s

  -- What a handler does with the result of its request.
  unfoldable pub submitted_or_shutdown : Daemon → Outcome (Unit {0}) × w.State → Daemon × w.State
  unfolding shutdown
  submitted_or_shutdown d (ok a, s) = (d, s)
  submitted_or_shutdown d (err e, s) = (shutdown true d s).1
  submitted_or_shutdown d (running, s) = (d, s)

  -- Read
  unfoldable pub handle_read : ℕ → ℕ → ℕ → Daemon → w.State → Daemon × w.State
  unfolding nbd_request submitted_or_shutdown emplace
  handle_read handle address count d s =
      submitted_or_shutdown (track handle req_read count d) (
        nbd_request w d.socket_open (byte_offset d address) (byte_length d count) handle cmd_read s)

  -- Write
  unfoldable pub handle_write :
      ℕ → Option (List ℕ) → ℕ → ℕ → Bool → Daemon → w.State → Daemon × w.State
  unfolding send_write submitted_or_shutdown emplace
  handle_write handle buffer address count fua d s =
      submitted_or_shutdown (track handle req_write count d) (
        send_write w d.socket_open (byte_offset d address) (byte_length d count) buffer handle fua
          s)

  -- Flush
  unfoldable pub handle_flush : ℕ → ℕ → Daemon → w.State → Daemon × w.State
  unfolding nbd_request submitted_or_shutdown emplace
  handle_flush handle count d s =
      submitted_or_shutdown (track handle req_flush count d)
        (nbd_request w d.socket_open 0 0 handle cmd_flush s)

  -- Unmap, with its one descriptor.
  unfoldable pub handle_unmap : ℕ → ℕ → ℕ → Daemon → w.State → Daemon × w.State
  unfolding nbd_request submitted_or_shutdown emplace
  handle_unmap handle address count d s =
      submitted_or_shutdown (track handle req_unmap count d) (
        nbd_request w d.socket_open (byte_offset d address) (byte_length d count) handle cmd_trim s)
