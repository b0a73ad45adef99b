-- ===== src/Nbd/Handshake.antt =====
-- The handshake of libwnbd/nbd_protocol.cpp: what the client sends, how it parses the server's
-- replies, and NbdNegotiate. Allocations for a reply's data succeed.
pub mod Terminates
use Prim.Native.Nat.{bit_and, bit_or}
use wnbd.Prelude.{
  ℕ, zero, suc, ◌+◌, ◌*◌, ◌^◌, Bool, true, false, not, ◌&&◌, ◌||◌, Option, none, some, List, [],
  ◌∷◌, ◌++◌, ◌==◌, ltb, if◌then◌else◌, length, take, drop,
}
use wnbd.Word.{wrap32}
use wnbd.Nbd.Wire.{
  big2, big4, big8, from_big2, from_big4, from_big8, has_bit, client_magic, option_magic,
  handshake_reply_magic, init_passwd, HandshakeReply, BlockSizeInfo,
}
use wnbd.Nbd.Socket.{
  Winsock, ErrorCode, Outcome, ok, err, running, Proto, recv_exact, send_exact, then_call, ◌>>=◌,
  return_ok, return_err,
}

abbrev pub opt_export_name : ℕ
opt_export_name = 1

abbrev pub opt_go : ℕ
opt_go = 7

abbrev pub rep_ack : ℕ
rep_ack = 1

abbrev pub rep_info : ℕ
rep_info = 3

-- The error replies, with NBD_REP_FLAG_ERROR, bit 31.
abbrev pub rep_err_unsup : ℕ
rep_err_unsup = 2 ^ 31 + 1

abbrev pub rep_err_block_size_reqd : ℕ
rep_err_block_size_reqd = 2 ^ 31 + 8

abbrev pub info_export : ℕ
info_export = 0

abbrev pub info_block_size : ℕ
info_block_size = 3

-- What the handshake finds out.
pub record Export : Type 0 where
  pub size : ℕ
  pub flags : ℕ
  pub seen : Bool
  pub info : BlockSizeInfo

-- NbdParseSizes
abbrev pub parse_sizes : List ℕ → Export → Export
parse_sizes b x = record x { size = from_big8 b 0; flags = from_big2 b 8 }

unfoldable pub same_bytes : List ℕ → List ℕ → Bool
same_bytes [] [] = true
same_bytes (x ∷ xs) (y ∷ ys) = (x == y) && same_bytes xs ys
same_bytes _ _ = false

-- NbdValidateInitialMagic
unfoldable pub validate_initial_magic : List ℕ → Outcome (Unit {0})
unfolding same_bytes
validate_initial_magic b = if same_bytes b init_passwd then ok tt else err ErrorCode.bad_format

-- NbdValidateOptionMagic
unfoldable pub validate_option_magic : ℕ → Outcome (Unit {0})
validate_option_magic magic =
    if magic == option_magic
    then ok tt
    else if magic == client_magic
    then err ErrorCode.not_supported
    else err ErrorCode.bad_format

-- The export information of an NBD_REP_INFO reply.
unfoldable pub parse_export : List ℕ → Export → Outcome Export
parse_export b x =
    if ltb (length b) 2
    then err ErrorCode.bad_format
    else if not (from_big2 b 0 == info_export)
    then ok x
    else if not (length b == 12)
    then err ErrorCode.bad_format
    else ok (record (parse_sizes (drop 2 b) x) { seen = true })

-- NbdParseOptGoReply
unfoldable pub parse_opt_go_reply : ℕ → List ℕ → Export → Outcome Export
unfolding parse_export
parse_opt_go_reply type b x =
    if type == rep_ack
    then (if (length b == 0) && x.seen then ok x else err ErrorCode.bad_format)
    else if not (type == rep_info)
    then ok x
    else parse_export b x

-- NbdParseInfoBlockSize
unfoldable pub parse_info_block_size : ℕ → List ℕ → Export → Outcome Export
parse_info_block_size type b x =
    if not (type == rep_info)
    then ok x
    else if ltb (length b) 2
    then err ErrorCode.bad_format
    else if not (from_big2 b 0 == info_block_size)
    then ok x
    else if not (length b == 14)
    then err ErrorCode.bad_format
    else ok (record x {
      info = record {
        minimum = from_big4 b 2;
        preferred = from_big4 b 6;
        maximum = from_big4 b 10;
        received = true;
      };
    })

-- The client's flags: NBD_FLAG_NO_ZEROES if the server has it, and none that the server lacks.
unfoldable pub client_flags_of : ℕ → ℕ → ℕ
client_flags_of client server =
    bit_and (if has_bit 1 server then bit_or client 2 else client) server

-- NbdRequireFixedNewstyle
unfoldable pub require_fixed_newstyle : ℕ → Outcome (Unit {0})
require_fixed_newstyle flags = if has_bit 0 flags then ok tt else err ErrorCode.not_supported

-- The head of an option request, NBD_HANDSHAKE_REQ.
abbrev pub handshake_request : ℕ → ℕ → List ℕ
handshake_request option size = big8 option_magic ++ (big4 option ++ big4 (wrap32 size))

-- What NbdReadHandshakeReply makes of the fixed part of a reply, with the size of its data.
abbrev pub reply_head : List ℕ → HandshakeReply × ℕ
reply_head b = (
  record {
    magic = from_big8 b 0;
    option = from_big4 b 8;
    reply_type = from_big4 b 12;
    data_bytes = [];
  },
  from_big4 b 16,
)

-- The error code of a reply with the error flag, but for NBD_REP_ERR_UNSUP.
abbrev refusal : ℕ → ErrorCode
refusal type =
    if type == rep_err_block_size_reqd then ErrorCode.not_supported else ErrorCode.access_denied

-- A parser's result on a socket.
abbrev pub parsed : {S A : Type 0} → Outcome A → S → Outcome A × S
parsed r s = (r, s)

-- A reply is NULL for any error, and NbdNegotiate then returns ERROR_GEN_FAILURE.
abbrev pub or_null : {S A : Type 0} → Outcome A × S → Outcome A × S
or_null (err e, s) = (err ErrorCode.gen_failure, s)
or_null (ok a, s) = (ok a, s)
or_null (running, s) = (running, s)

abbrev pub flatten : List (List ℕ) → List ℕ
flatten [] = []
flatten (b ∷ bs) = b ++ flatten bs

module _ (w : Winsock) where
  -- NbdSendHandshakeRequest
  unfoldable pub send_handshake_request : ℕ → ℕ → Option (List ℕ) → Proto w (Unit {0})
  unfolding send_exact
  send_handshake_request option size none = send_exact w (handshake_request option size)
  send_handshake_request option size (some b) = do
    _ ← send_exact w (handshake_request option size)
    send_exact w b

  -- NbdSendInfoRequest, the requests in network order.
  unfoldable pub send_info_request : ℕ → List (List ℕ) → List ℕ → Proto w (Unit {0})
  unfolding send_handshake_request
  send_info_request option requests name = do
    _ ← send_handshake_request option (4 + length name + 2 + 2 * length requests) none
    _ ← send_exact w (big4 (wrap32 (length name)))
    _ ← send_exact w name
    _ ← send_exact w (big2 (length requests))
    send_exact w (flatten requests)

  unfoldable pub read_reply_data : HandshakeReply × ℕ → Proto w HandshakeReply
  read_reply_data (r, size) =
      if not (r.magic == handshake_reply_magic)
      then return_err ErrorCode.gen_failure
      else (do b ← recv_exact w size; return_ok (record r { data_bytes = b }))

  -- NbdReadHandshakeReply
  unfoldable pub read_handshake_reply : Proto w HandshakeReply
  unfolding read_reply_data
  read_handshake_reply s = or_null ((recv_exact w 20 >>= (λ b. read_reply_data (reply_head b))) s)

  -- NbdSendOptExportName, for a server with the global flags `gflags`.
  unfoldable pub send_opt_export_name : List ℕ → ℕ → Export → Proto w Export
  unfolding send_handshake_request
  send_opt_export_name name gflags x = do
    _ ← send_handshake_request opt_export_name (length name) (some name)
    b ← recv_exact w 10
    _ ← if has_bit 1 gflags then return_ok [] else recv_exact w 124
    return_ok (parse_sizes b x)

  -- A reply without the error flag: both parsers.
  unfoldable pub parse_reply : Bool → HandshakeReply → Export → Outcome Export
  unfolding parse_opt_go_reply parse_info_block_size
  parse_reply wants_info r x = elim (parse_opt_go_reply r.reply_type r.data_bytes x) [
    | ok x' ↦ if wants_info then parse_info_block_size r.reply_type r.data_bytes x' else ok x'
    | err e ↦ err e
    | running ↦ running
  ]

  -- The loop on the replies to NBD_OPT_GO, on fuel.
  unfoldable pub reply_loop : ℕ → Bool → List ℕ → ℕ → Export → Proto w Export
  unfolding read_handshake_reply send_opt_export_name parse_reply
  reply_loop zero wants_info name gflags x = λ s. (running, s)
  reply_loop (suc fuel) wants_info name gflags x = do
    r ← read_handshake_reply
    if has_bit 31 r.reply_type
        then (if r.reply_type == rep_err_unsup
            then send_opt_export_name name gflags x
            else return_err (refusal r.reply_type))
        else (do
          x' ← parsed (parse_reply wants_info r x)
          if r.reply_type == rep_ack
              then return_ok x'
              else reply_loop fuel wants_info name gflags x')

  -- NbdNegotiate
  unfoldable pub negotiate : ℕ → Bool → List ℕ → ℕ → Export → Proto w Export
  unfolding reply_loop send_info_request
  negotiate fuel wants_info name client_flags x = do
    passwd ← recv_exact w 8
    _ ← parsed (validate_initial_magic passwd)
    magic ← recv_exact w 8
    _ ← parsed (validate_option_magic (from_big8 magic 0))
    gflags ← recv_exact w 2
    let flags = client_flags_of client_flags (from_big2 gflags 0)
    _ ← parsed (require_fixed_newstyle flags)
    _ ← send_exact w (big4 flags)
    _ ← send_info_request opt_go (big2 info_export ∷ big2 info_block_size ∷ []) name
    reply_loop fuel wants_info name (from_big2 gflags 0) x
