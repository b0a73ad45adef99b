-- ===== src/Nbd/Daemon/Replies/Frames.antt =====
-- ProcessNbdReply of libwnbd/nbd_daemon.cpp stays at the boundaries of the server's replies.
use wnbd.Prelude.{
  ℕ, ◌^◌, ◌≤◌, ◌<◌, ◌≡◌, refl, some, List, [], ◌∷◌, ◌++◌, ◌==◌, false, if◌then◌else◌, length, take,
  drop, arith, ◌∙◌, ap, Bool-cases, inl, inr, length-append,
}
use wnbd.Types.{WnbdStatus}
use wnbd.Nbd.Wire.{little8, reply_magic, Reply}
use wnbd.Nbd.Socket.{then_call, Winsock, Outcome, ok, IsStream, recv_exact}
use wnbd.Nbd.Socket.Stream.{recv_exact-Reads}
use wnbd.Nbd.Request.{read_reply, decode_reply, check_reply}
use wnbd.Nbd.Request.Wire.{server_replies}
use wnbd.Nbd.Daemon.{PendingRequest, find, erase, Daemon, Host}
use wnbd.Nbd.Daemon.Replies.{
  has_payload, respond, response_buffer_size, after_payload, read_payload, answer, look_up,
  conclude, after_reply, process_nbd_reply,
}

-- The status of a response: success, or for an error of the server CHECK CONDITION, MEDIUM ERROR and
-- UNRECOVERED ERROR.
abbrev pub status_of : ℕ → WnbdStatus
status_of error =
    if error == 0
    then record {
      scsi_status = 0;
      sense_key = 0;
      asc = 0;
      ascq = 0;
      information = 0;
      information_valid = false;
    }
    else record {
      scsi_status = 2;
      sense_key = 3;
      asc = 17;
      ascq = 0;
      information = 0;
      information_valid = false;
    }

abbrev pub reply_of : ℕ → ℕ → Reply
reply_of error handle = record { magic = reply_magic; error = error; handle = handle }

decode_reply-server_replies :
    (error handle : ℕ)
    → error < 2 ^ 32
    → handle < 2 ^ 64
    → decode_reply (server_replies error (little8 handle)) ≡ reply_of error handle
unfolding decode_reply
decode_reply-server_replies error handle he hh = ground arith

take-append : (xs ys : List ℕ) → take (length xs) (xs ++ ys) ≡ xs
take-append [] ys = refl
take-append (x ∷ xs) ys = ap (λ l. x ∷ l) (take-append xs ys)

drop-append : (xs ys : List ℕ) → drop (length xs) (xs ++ ys) ≡ ys
drop-append [] ys = refl
drop-append (x ∷ xs) ys = drop-append xs ys

nil-of : (xs : List ℕ) → length xs ≡ 0 → xs ≡ []
nil-of [] h = refl
nil-of (x ∷ xs) h = ground (arith, h)

module _ (w : Winsock) (law : IsStream w) where
  -- The next bytes of the stream, read.
  recv_exact-next :
      (xs ys : List ℕ) (s : w.State)
      → law.incoming s ≡ xs ++ ys
      → (s' : w.State) × (recv_exact w (length xs) s ≡ (ok xs, s'))
        × (law.incoming s' ≡ ys)
        × (law.outgoing s' ≡ law.outgoing s)
  recv_exact-next xs ys s e =
      let r = recv_exact w (length xs) s in
      let (h, i, o) =
        recv_exact-Reads w law (length xs) s (ground (arith, e, length-append xs ys)) in
      (
        r.1,
        ap (λ x. (x, r.1)) (h ∙ ap ok (ap (take (length xs)) e ∙ take-append xs ys)),
        i ∙ (ap (drop (length xs)) e ∙ drop-append xs ys),
        o,
      )

  read_reply-next :
      (error handle : ℕ) (ys : List ℕ) (s : w.State)
      → error < 2 ^ 32
      → handle < 2 ^ 64
      → law.incoming s ≡ server_replies error (little8 handle) ++ ys
      → (s' : w.State) × (read_reply w s ≡ (ok (reply_of error handle), s'))
        × (law.incoming s' ≡ ys)
        × (law.outgoing s' ≡ law.outgoing s)
  unfolding read_reply check_reply
  read_reply-next error handle ys s he hh e =
      let (s', r, i, o) = recv_exact-next (server_replies error (little8 handle)) ys s e in
      let f : List ℕ → w.State → Outcome Reply × w.State =
        λ b s. (check_reply (decode_reply b), s) in
      let g : Reply → Outcome Reply × w.State = λ x. (check_reply x, s') in
      (s', ap (λ x. then_call x f) r ∙ ap g (decode_reply-server_replies error handle he hh), i, o)

  module _ (host : Host w) (d : Daemon) (reply : Reply) (request : PendingRequest) where
    answer-next :
        (payload rest : List ℕ) (s : w.State)
        → law.incoming s ≡ payload ++ rest
        → length payload ≡ (if has_payload reply request then request.len else 0)
        → request.len ≤ d.buffer_size
        → (s' : w.State) × (answer w host d reply request s
            ≡ respond w host d reply request payload s')
          × (law.incoming s' ≡ rest)
          × (law.outgoing s' ≡ law.outgoing s)
    unfolding answer read_payload after_payload response_buffer_size
    answer-next payload rest s e h fits = elim (Bool-cases (has_payload reply request)) [
      | inl has ↦
          let n : length payload ≡ request.len = ground (arith, h, has) in
          let (s', r, i, o) = recv_exact-next payload rest s e in
          (s', ground (arith, has, fits, n, r), i, o)
      | inr lacks ↦
          let n : length payload ≡ 0 = ground (arith, h, lacks) in
          let empty : payload ≡ [] = nil-of payload n in
          (s, ground (arith, lacks, empty), ground (arith, e, empty), refl)
    ]

  -- If the stream goes on with the server's reply to a pending request, then the payload of that
  -- request, empty unless a read succeeded, and then the rest, ProcessNbdReply takes the request off
  -- the pending ones and sends one response: with the handle of the reply, the type of the request,
  -- exactly that payload, and success, or for an error of the server CHECK CONDITION with a medium
  -- error. The stream is then at the rest. The
  -- request's length is at most that of the preallocated buffer, and the socket behaves as
  -- documented.
  pub process_nbd_reply-Frames :
      (host : Host w) (d : Daemon) (s : w.State) (error handle : ℕ) (request : PendingRequest)
      (payload rest : List ℕ)
      → error < 2 ^ 32
      → handle < 2 ^ 64
      → law.incoming s ≡ server_replies error (little8 handle) ++ (payload ++ rest)
      → find handle d.pending ≡ some request
      → length payload ≡ (if has_payload (reply_of error handle) request then request.len else 0)
      → request.len ≤ d.buffer_size
      → (s' : w.State) × (process_nbd_reply w host d s
          ≡ conclude w host
              (record d { pending = erase handle d.pending })
              (host.send_response
                (record {
                  request_handle = handle;
                  request_type = request.request_type;
                  status = status_of error;
                  data_bytes = payload;
                })
                s'))
        × (law.incoming s' ≡ rest)
        × (law.outgoing s' ≡ law.outgoing s)
  unfolding process_nbd_reply after_reply look_up respond
  process_nbd_reply-Frames host d s error handle request payload rest he hh e found h fits =
      let (s1, r, i, o) = read_reply-next error handle (payload ++ rest) s he hh e in
      let d' = record d { pending = erase handle d.pending } in
      let (s2, a, i', o') =
        answer-next host d' (reply_of error handle) request payload rest s1 i h fits in
      (
        s2,
        ap (after_reply w host d) r
            ∙ (ap (λ x. look_up w host d (reply_of error handle) x s1) found ∙ a),
        i',
        o' ∙ o,
      )
