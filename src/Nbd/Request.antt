-- ===== src/Nbd/Request.antt =====
-- Requests and replies of the transmission phase, libwnbd/nbd_protocol.cpp. `valid` says that the
-- socket's handle is not INVALID_SOCKET.
pub mod Wire
use wnbd.Prelude.{
  ℕ, ◌+◌, ◌^◌, Bool, true, false, not, ◌&&◌, Option, none, some, List, [], ◌∷◌, ◌++◌, ◌==◌,
  if◌then◌else◌, take,
}
use wnbd.Nbd.Wire.{
  big4, big8, little8, from_big4, from_little8, request_magic, reply_magic, Command, cmd_read,
  cmd_write, cmd_disc, cmd_flush, cmd_trim, Reply,
}
use wnbd.Nbd.Socket.{
  Winsock, ErrorCode, Outcome, ok, err, running, Proto, recv_exact, send_exact, then_call, ◌>>=◌,
  return_ok, return_err,
}

-- The type of a request on the wire, NBD_CMD_FLAG_FUA included.
abbrev pub type_of : Command → ℕ
type_of cmd_read = 0
type_of (cmd_write fua) = if fua then 2 ^ 16 + 1 else 1
type_of cmd_disc = 2
type_of cmd_flush = 3
type_of cmd_trim = 4

-- NbdEncodeRequest, as the bytes of NBD_REQUEST
unfoldable pub encode_request : ℕ → ℕ → ℕ → Command → List ℕ
encode_request offset len handle cmd =
    big4 request_magic ++ (big4 (type_of cmd) ++ (little8 handle ++ (big8 offset ++ big4 len)))

-- The bytes of NBD_REPLY, read.
unfoldable pub decode_reply : List ℕ → Reply
decode_reply b = record { magic = from_big4 b 0; error = from_big4 b 4; handle = from_little8 b 8 }

unfoldable pub check_reply : Reply → Outcome Reply
check_reply r = if r.magic == reply_magic then ok r else err ErrorCode.bad_format

module _ (w : Winsock) where
  -- NbdRequest
  unfoldable pub nbd_request : Bool → ℕ → ℕ → ℕ → Command → Proto w (Unit {0})
  unfolding send_exact encode_request
  nbd_request valid offset len handle cmd =
      if not valid
      then return_err ErrorCode.invalid_handle
      else send_exact w (encode_request offset len handle cmd)

  -- NbdSendWrite; `none` is a NULL buffer.
  unfoldable pub send_write : Bool → ℕ → ℕ → Option (List ℕ) → ℕ → Bool → Proto w (Unit {0})
  unfolding send_exact encode_request
  send_write valid offset len none handle fua = return_err ErrorCode.invalid_parameter
  send_write valid offset len (some b) handle fua =
      if not valid then return_err ErrorCode.invalid_handle else (do
        _ ← send_exact w (encode_request offset len handle (cmd_write fua))
        if len == 0 then return_ok tt else send_exact w (take len b))

  -- NbdReadReply
  unfoldable pub read_reply : Proto w Reply
  unfolding recv_exact check_reply decode_reply
  read_reply = do b ← recv_exact w 16; λ s. (check_reply (decode_reply b), s)
