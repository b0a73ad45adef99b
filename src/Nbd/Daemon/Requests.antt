-- ===== src/Nbd/Daemon/Requests.antt =====
-- A read from the handler of libwnbd/nbd_daemon.cpp to the response, by way of the server.
use wnbd.Prelude.{ℕ, ◌^◌, ◌≤◌, ◌<◌, ◌≡◌, refl, true, none, some, List, ◌++◌, length, arith, ap, ◌∙◌}
use wnbd.Types.{req_read}
use wnbd.Nbd.Wire.{Command, cmd_read}
use wnbd.Nbd.Socket.{Winsock, Outcome, ok, err, running, IsStream}
use wnbd.Nbd.Socket.Stream.{send_exact-outgoing}
use wnbd.Nbd.Request.{nbd_request, encode_request}
use wnbd.Nbd.Request.Wire.{server_reads, server_replies, encode_request-server_reads}
use wnbd.Nbd.Daemon.{
  PendingRequest, find, emplace, erase, Daemon, Host, byte_offset, byte_length, track, handle_read,
  submitted_or_shutdown,
}
use wnbd.Nbd.Daemon.Replies.{conclude, process_nbd_reply}
use wnbd.Nbd.Daemon.Replies.Frames.{status_of, process_nbd_reply-Frames}

-- A new request is found by its handle, and taking it off again leaves the map as it was.
find-emplace :
    (p : PendingRequest) (ps : List PendingRequest)
    → find p.request_handle ps ≡ none
    → (find p.request_handle (emplace p ps) ≡ some p) × (erase p.request_handle (emplace p ps) ≡ ps)
unfolding find emplace erase
find-emplace p ps h = ground (arith, h)

abbrev pub read_request : ℕ → ℕ → PendingRequest
read_request handle len = record { request_handle = handle; request_type = req_read; len = len }

module _ (w : Winsock) (law : IsStream w) (host : Host w) where
  nbd_request-outgoing :
      (offset len handle : ℕ) (cmd : Command) (s : w.State)
      → (nbd_request w true offset len handle cmd s).0 ≡ ok tt
      → law.outgoing (nbd_request w true offset len handle cmd s).1
        ≡ law.outgoing s ++ encode_request offset len handle cmd
  unfolding nbd_request
  nbd_request-outgoing offset len handle cmd s e =
      send_exact-outgoing w law (encode_request offset len handle cmd) s e

  submitted-kept :
      (d : Daemon) (r : Outcome (Unit {0}) × w.State)
      → r.0 ≡ ok tt
      → submitted_or_shutdown w host d r ≡ (d, r.1)
  unfolding submitted_or_shutdown
  submitted-kept d (ok a, s) e = refl
  submitted-kept d (err x, s) e = cc
  submitted-kept d (running, s) e = cc

  handle_read-kept :
      (d : Daemon) (s : w.State) (handle address count : ℕ)
      → let r =
          nbd_request w true (byte_offset d address) (byte_length d count) handle cmd_read s in
        d.socket_open ≡ true
        → r.0 ≡ ok tt
        → handle_read w host handle address count d s ≡ (track handle req_read count d, r.1)
  unfolding handle_read
  handle_read-kept d s handle address count o e =
      let n = byte_length d count in
      ap
        (λ b.
          submitted_or_shutdown w host (track handle req_read count d)
            (nbd_request w b (byte_offset d address) n handle cmd_read s))
        o
      ∙ submitted-kept (track handle req_read count d)
          (nbd_request w true (byte_offset d address) n handle cmd_read s) e

  -- A read request that is sent to the server under a handle which is not pending comes back: the
  -- server reads from what it was sent the command, the offset and the length in bytes; and when its
  -- reply to that request's cookie, with as many bytes of data, is next in the stream, ProcessNbdReply
  -- sends one response, with that handle, the type of a read, the status success and those bytes, leaves the stream at the rest, and the pending requests
  -- are as before the request. The length is at most that of the preallocated buffer, and the socket
  -- behaves as documented.
  pub handle_read-process_nbd_reply :
      (d : Daemon) (s t : w.State) (handle address count : ℕ) (payload rest : List ℕ)
      → handle < 2 ^ 64
      → d.socket_open ≡ true
      → find handle d.pending ≡ none
      → byte_length d count ≤ d.buffer_size
      → length payload ≡ byte_length d count
      → (nbd_request w true (byte_offset d address) (byte_length d count) handle cmd_read s).0
        ≡ ok tt
      → let (d', s') = handle_read w host handle address count d s in
        let request =
          encode_request (byte_offset d address) (byte_length d count) handle cmd_read in
        law.incoming t ≡ server_replies 0 (server_reads request).cookie ++ (payload ++ rest)
        → (law.outgoing s' ≡ law.outgoing s ++ request)
          × ((server_reads request).command ≡ some cmd_read)
          × ((server_reads request).offset ≡ byte_offset d address)
          × ((server_reads request).len ≡ byte_length d count)
          × ((t' : w.State) × (process_nbd_reply w host d' t
                ≡ conclude w host d (
                    host.send_response
                      (record {
                        request_handle = handle;
                        request_type = req_read;
                        status = status_of 0;
                        data_bytes = payload;
                      })
                      t'))
              × (law.incoming t' ≡ rest))
  unfolding encode_request
  handle_read-process_nbd_reply d s t handle address count payload rest hh o new fits same sent e =
      let n = byte_length d count in
      let p = read_request handle n in
      let k = handle_read-kept d s handle address count o sent in
      let (f, g) = find-emplace p d.pending new in
      let (t', a, i, out) =
        process_nbd_reply-Frames w law host (track handle req_read count d) t 0 handle p payload
          rest (omega arith) hh e f same fits in
      let (m, c, off, ln, rm, re, rh) =
        encode_request-server_reads (byte_offset d address) n handle 0 cmd_read (omega arith)
          (omega arith) hh (omega arith) in
      let cleared =
        ap
          (λ ps.
            conclude w host (record d { pending = ps })
              (host.send_response
                (record {
                  request_handle = handle;
                  request_type = req_read;
                  status = status_of 0;
                  data_bytes = payload;
                })
                t'))
          g in
      (
        ap (λ x. law.outgoing x.1) k
            ∙ nbd_request-outgoing (byte_offset d address) n handle cmd_read s sent,
        c,
        off,
        ln,
        (t', ap (λ x. process_nbd_reply w host x.0 t) k ∙ (a ∙ cleared), i),
      )
