-- ===== src/Nbd/Request/Wire.antt =====
-- What an NBD server reads from the requests of libwnbd/nbd_protocol.cpp, and what the client reads
-- from its replies.
use wnbd.Prelude.{
  ℕ, ◌^◌, ◌<◌, ◌≡◌, Option, none, some, List, ◌++◌, ◌==◌, if◌then◌else◌, take, drop, arith,
}
use wnbd.Nbd.Wire.{
  big4, from_big2, from_big4, from_big8, request_magic, reply_magic, Command, cmd_read, cmd_write,
  cmd_disc, cmd_flush, cmd_trim,
}
use wnbd.Nbd.Request.{encode_request, decode_reply}

-- The command that a server makes of flags (two bytes) and a type (two bytes).
abbrev command_of : ℕ → ℕ → Option Command
command_of flags type =
    if type == 0
    then some cmd_read
    else if type == 1
    then some (cmd_write (flags == 1))
    else if type == 2
    then some cmd_disc
    else if type == 3
    then some cmd_flush
    else if type == 4
    then some cmd_trim
    else none

-- A request as the NBD protocol lays it out: magic, flags, type, cookie, offset, length. The cookie
-- is returned as it came.
pub record ServerRequest : Type 0 where
  pub magic : ℕ
  pub command : Option Command
  pub cookie : List ℕ
  pub offset : ℕ
  pub len : ℕ

abbrev pub server_reads : List ℕ → ServerRequest
server_reads b = record {
  magic = from_big4 b 0;
  command = command_of (from_big2 b 4) (from_big2 b 6);
  cookie = take 8 (drop 8 b);
  offset = from_big8 b 16;
  len = from_big4 b 24;
}

-- The reply of a server to a cookie.
abbrev pub server_replies : ℕ → List ℕ → List ℕ
server_replies error cookie = big4 reply_magic ++ (big4 error ++ cookie)

-- The server reads from a request the command, the FUA flag, the offset and the length that were
-- encoded, and its reply to the request's cookie decodes to the handle and to the server's error.
pub encode_request-server_reads :
    (offset len handle error : ℕ) (cmd : Command)
    → offset < 2 ^ 64
    → len < 2 ^ 32
    → handle < 2 ^ 64
    → error < 2 ^ 32
    → let r = server_reads (encode_request offset len handle cmd) in
      let reply = decode_reply (server_replies error r.cookie) in
      (r.magic ≡ request_magic)
      × (r.command ≡ some cmd)
      × (r.offset ≡ offset)
      × (r.len ≡ len)
      × (reply.magic ≡ reply_magic)
      × (reply.error ≡ error)
      × (reply.handle ≡ handle)
unfolding encode_request decode_reply
encode_request-server_reads offset len handle error cmd ho hl hh he = ground arith
