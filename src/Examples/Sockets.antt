-- ===== src/Examples/Sockets.antt =====
-- Runs of the NBD client on a socket that moves one byte at a time.
use wnbd.Prelude.{
  ℕ, suc, ◌≤◌, ◌≡◌, refl, Bool, true, false, none, some, List, [], ◌∷◌, ◌++◌, length,
  length-replicate, take, drop, arith, replicate,
}
use wnbd.Types.{req_read}
use wnbd.Nbd.Start.{no_export}
use wnbd.Nbd.Socket.Stream.{Reads, recv_exact-Reads}
use wnbd.Nbd.Request.{encode_request, nbd_request}
use wnbd.Nbd.Request.Wire.{server_reads, server_replies}
use wnbd.Nbd.Handshake.{negotiate, info_export, opt_go, rep_info, rep_ack}
use wnbd.Nbd.Handshake.Terminates.{is_running, negotiate-ends}
use wnbd.Nbd.Daemon.{PendingRequest, find, erase, Daemon, Host, handle_read, removed, submitted}
use wnbd.Nbd.Daemon.Replies.{process_nbd_reply, conclude}
use wnbd.Nbd.Daemon.Replies.Frames.{status_of, process_nbd_reply-Frames}
use wnbd.Nbd.Daemon.Requests.{read_request, handle_read-process_nbd_reply}
use wnbd.Nbd.Wire.{
  little8, option_magic, handshake_reply_magic, init_passwd, big2, big4, big8, cmd_read,
}
use wnbd.Nbd.Socket.{
  Winsock, WinsockError, other_error, Received, got, closed, Sent, sent, not_sent, ok, IsStream,
  IsPrompt, gives, recv_exact,
}

-- What the peer has sent, and what it was sent.
abbrev pub Bytes : Type 0
Bytes = List ℕ × List ℕ

abbrev pub recv_byte : ℕ → Bytes → Received × Bytes
recv_byte n ([], out) = (closed, ([], out))
recv_byte n (b ∷ bs, out) = (got (b ∷ []), (bs, out))

abbrev pub send_byte : List ℕ → Bytes → Sent × Bytes
send_byte [] s = (not_sent false other_error, s)
send_byte (b ∷ bs) (i, out) = (sent 1, (i, out ++ b ∷ []))

abbrev pub slow : Winsock
slow = record { State = Bytes; recv = recv_byte; send = send_byte }

slow-IsPrompt : IsPrompt slow
slow-IsPrompt n ([], out) = refl
slow-IsPrompt n (b ∷ bs, out) = refl

slow-recv_some :
    (n : ℕ) (s : Bytes) (b : ℕ) (bs : List ℕ)
    → s.0 ≡ b ∷ bs
    → (k : ℕ) × (k ≤ n)
      × ((recv_byte (suc n) s).0 ≡ got (b ∷ take k bs))
      × ((recv_byte (suc n) s).1.0 ≡ drop k bs)
slow-recv_some n ([], out) b bs e = cc
slow-recv_some n (x ∷ xs, out) b bs e = (0, omega arith, ground (arith, e), ground (arith, e))

slow-recv_none : (n : ℕ) (s : Bytes) → s.0 ≡ [] → gives (recv_byte (suc n) s).0 ≡ false
slow-recv_none n ([], out) e = refl
slow-recv_none n (x ∷ xs, out) e = cc

slow-recv_keeps : (n : ℕ) (s : Bytes) → (recv_byte n s).1.1 ≡ s.1
slow-recv_keeps n ([], out) = refl
slow-recv_keeps n (x ∷ xs, out) = refl

slow-send_some :
    (b : ℕ) (bs : List ℕ) (s : Bytes) (n : ℕ)
    → (send_byte (b ∷ bs) s).0 ≡ sent n
    → (1 ≤ n) × (n ≤ suc (length bs)) × ((send_byte (b ∷ bs) s).1.1 ≡ s.1 ++ take n (b ∷ bs))
slow-send_some b bs (i, out) n e = ground (arith, e)

slow-send_fails :
    (b : ℕ) (bs : List ℕ) (s : Bytes) (z : Bool) (x : WinsockError)
    → (send_byte (b ∷ bs) s).0 ≡ not_sent z x
    → z ≡ false
slow-send_fails b bs s z x e = cc

slow-send_keeps : (bs : List ℕ) (s : Bytes) → (send_byte bs s).1.0 ≡ s.0
slow-send_keeps [] s = refl
slow-send_keeps (b ∷ bs) (i, out) = refl

abbrev slow-IsStream : IsStream slow
slow-IsStream = record {
  incoming = λ s. s.0;
  outgoing = λ s. s.1;
  recv_some = slow-recv_some;
  recv_none = slow-recv_none;
  recv_keeps = slow-recv_keeps;
  send_some = slow-send_some;
  send_fails = slow-send_fails;
  send_keeps = slow-send_keeps;
}

abbrev peer : Bytes
peer = (1 ∷ 2 ∷ 3 ∷ [], [])

recv_exact-Reads_example : Reads slow slow-IsStream 2 peer (recv_exact slow 2 peer)
recv_exact-Reads_example = recv_exact-Reads slow slow-IsStream 2 peer (omega arith)

-- A server's side of a negotiation: an export of 1 MiB, then NBD_REP_ACK.
abbrev pub export_info : List ℕ
export_info = big2 info_export ++ (big8 1048576 ++ big2 1)

abbrev pub reply_bytes : ℕ → List ℕ → List ℕ
reply_bytes type b =
    big8 handshake_reply_magic ++ (big4 opt_go ++ (big4 type ++ (big4 (length b) ++ b)))

abbrev pub transcript : List ℕ
transcript =
    init_passwd
    ++ (big8 option_magic
        ++ (big2 3 ++ (reply_bytes rep_info export_info ++ reply_bytes rep_ack [])))

negotiate-ends_example :
    is_running (negotiate slow 100 true (100 ∷ []) 1 no_export (transcript, [])).0 ≡ false
negotiate-ends_example =
    negotiate-ends slow slow-IsPrompt slow-IsStream 100 true (100 ∷ []) 1 no_export (transcript, [])
      (omega arith)

abbrev quiet : Host slow
quiet = record {
  remove = λ hard s. (removed, s);
  shutdown_socket = λ s. (true, s);
  close_socket = λ s. (true, s);
  reset_event = λ s. (true, s);
  send_response = λ r s. (submitted, s);
  wait_response = λ s. (none, s);
}

abbrev daemon : List PendingRequest → Daemon
daemon ps = record {
  block_size = 512;
  socket_open = true;
  transmission_started = true;
  terminated = false;
  terminate_in_progress = false;
  has_disk = true;
  buffer_size = 2097152;
  pending = ps;
}

abbrev small_read : PendingRequest
small_read = read_request 77 4

abbrev served : Bytes
served = (server_replies 0 (little8 77) ++ (1 ∷ 2 ∷ 3 ∷ 4 ∷ [] ++ 9 ∷ []), [])

found : find 77 (small_read ∷ []) ≡ some small_read
unfolding find
found = refl

process_nbd_reply-Frames_example :
    (s' : Bytes) × (process_nbd_reply slow quiet (daemon (small_read ∷ [])) served
      ≡ conclude slow quiet (daemon (erase 77 (small_read ∷ []))) (
          quiet.send_response
            (record {
              request_handle = 77;
              request_type = req_read;
              status = status_of 0;
              data_bytes = 1 ∷ 2 ∷ 3 ∷ 4 ∷ [];
            })
            s'))
    × (s'.0 ≡ 9 ∷ [])
    × (s'.1 ≡ [])
process_nbd_reply-Frames_example =
    process_nbd_reply-Frames slow slow-IsStream quiet (daemon (small_read ∷ [])) served 0 77
      small_read (1 ∷ 2 ∷ 3 ∷ 4 ∷ []) (9 ∷ []) (omega arith) (omega arith) refl found refl
      (omega arith)

abbrev block : List ℕ
block = replicate 512 5

sent-read : (nbd_request slow true 1024 512 77 cmd_read ([], [])).0 ≡ ok tt
unfolding nbd_request
sent-read = refl

nothing-pending : find 77 [] ≡ none
unfolding find
nothing-pending = refl

handle_read-process_nbd_reply_example :
    let (d', s') = handle_read slow quiet 77 2 1 (daemon []) ([], []) in
    let request = encode_request 1024 512 77 cmd_read in
    let t : Bytes = (server_replies 0 (server_reads request).cookie ++ (block ++ []), []) in
    (s'.1 ≡ [] ++ request)
    × ((server_reads request).command ≡ some cmd_read)
    × ((server_reads request).offset ≡ 1024)
    × ((server_reads request).len ≡ 512)
    × ((t' : Bytes) × (process_nbd_reply slow quiet d' t
          ≡ conclude slow quiet (daemon []) (
              quiet.send_response
                (record {
                  request_handle = 77;
                  request_type = req_read;
                  status = status_of 0;
                  data_bytes = block;
                })
                t'))
        × (t'.0 ≡ []))
handle_read-process_nbd_reply_example =
    handle_read-process_nbd_reply slow slow-IsStream quiet (daemon []) ([], [])
      (
        server_replies 0 (server_reads (encode_request 1024 512 77 cmd_read)).cookie
            ++ (block ++ []),
        [],
      )
      77 2 1 block [] (omega arith) refl nothing-pending (omega arith)
      (length-replicate {A = ℕ} 512 5) sent-read refl
