-- ===== src/Nbd/Handshake/Terminates.antt =====
-- NbdNegotiate of libwnbd/nbd_protocol.cpp ends on every server that sends finitely many bytes and then
-- closes the connection.
use mathlib.Core.Option.{none}
use wnbd.Prelude.{
  ◌==◌, if◌then◌else◌, ℕ, zero, suc, ◌*◌, ◌+◌, ◌-◌, ◌≤◌, ◌<◌, ◌≡◌, refl, Bool, true, false, List,
  [], ◌∷◌, length, drop, arith, length-drop, inl, inr, ◌⊎◌,
}
use wnbd.Nbd.Wire.{HandshakeReply}
use wnbd.Nbd.Socket.{
  closed, stalled, is_stalled, IsPrompt, WinsockError, recv_failed, got, gives, not_sent_outcome,
  Received, Winsock, ErrorCode, Outcome, ok, err, running, IsStream, recv_loop, recv_exact,
  send_loop, send_exact,
}
use wnbd.Nbd.Socket.Stream.{Sent-cases, recv_exact-Reads, send_exact-incoming, recv_exact-short}
use wnbd.Nbd.Handshake.{
  info_block_size, info_export, flatten, opt_go, big2, from_big2, client_flags_of, wrap32, big4,
  from_big8, require_fixed_newstyle, validate_option_magic, validate_initial_magic, rep_ack,
  rep_err_unsup, handshake_reply_magic, return_ok, opt_export_name, not, has_bit,
  parse_info_block_size, parse_export, parse_opt_go_reply, some, handshake_request, Option,
  reply_head, then_call, or_null, Export, read_reply_data, read_handshake_reply,
  send_handshake_request, send_info_request, send_opt_export_name, parse_reply, reply_loop,
  negotiate,
}

abbrev pub is_running : {A : Type 0} → Outcome A → Bool
is_running running = true
is_running _ = false

le-cases : (n m : ℕ) → (n ≤ m) ⊎ (m < n)
le-cases n m = ground arith

Received-cases :
    (x : Received)
    → is_stalled x ≡ false
    → (gives x ≡ false) ⊎ ((b : ℕ) × (bs : List ℕ) × (x ≡ got (b ∷ bs)))
Received-cases (got []) h = inl refl
Received-cases (got (b ∷ bs)) h = inr (b, bs, refl)
Received-cases closed h = inl refl
Received-cases stalled h = inl refl
Received-cases (recv_failed e) h = inl refl

-- A call of recv that gives nothing and returns ends the loop.
none-ends :
    (x : Received)
    → is_stalled x ≡ false
    → gives x ≡ false
    → (x ≡ got []) ⊎ (x ≡ closed) ⊎ ((e : WinsockError) × (x ≡ recv_failed e))
none-ends (got []) h k = inl refl
none-ends (got (b ∷ bs)) h k = ground (arith, k)
none-ends closed h k = inr (inl refl)
none-ends stalled h k = ground (arith, h)
none-ends (recv_failed e) h k = inr (inr (e, refl))

if-holds :
    {S A : Type 0} (P : A → Type 0) (b : Bool) (x y : S → A) (s : S)
    → P (x s)
    → P (y s)
    → P ((if b then x else y) s)
if-holds P true x y s h k = h
if-holds P false x y s h k = k

module _ (w : Winsock) (prompt : IsPrompt w) where
  recv_loop-ends : (fuel l : ℕ) (s : w.State) → is_running (recv_loop w fuel l s).0 ≡ false
  unfolding recv_loop
  recv_loop-ends fuel zero s = refl
  recv_loop-ends zero (suc l) s = refl
  recv_loop-ends (suc fuel) (suc l) s =
      let s' = (w.recv (suc l) s).1 in
      let waits = prompt (suc l) s in
      elim (Received-cases (w.recv (suc l) s).0 waits) [
        | inl h ↦ elim (none-ends (w.recv (suc l) s).0 waits h) [
          | inl e ↦ ground (arith, e)
          | inr (inl e) ↦ ground (arith, e)
          | inr (inr (x, e)) ↦ ground (arith, e)
        ]
        | inr (b, bs, e) ↦ ground (arith, e, recv_loop-ends fuel (l - length bs) s')
      ]

  send_loop-ends :
      (fuel : ℕ) (bs : List ℕ) (s : w.State) → is_running (send_loop w fuel bs s).0 ≡ false
  unfolding send_loop not_sent_outcome
  send_loop-ends fuel [] s = refl
  send_loop-ends zero (b ∷ bs) s = refl
  send_loop-ends (suc fuel) (b ∷ bs) s = elim (Sent-cases (w.send (b ∷ bs) s).0) [
    | inl (n, e) ↦ ground (arith, e, send_loop-ends fuel (drop n (b ∷ bs)) (w.send (b ∷ bs) s).1)
    | inr (z, e, h) ↦ ground (arith, h)
  ]

  recv_exact-ends : (n : ℕ) (s : w.State) → is_running (recv_exact w n s).0 ≡ false
  unfolding recv_exact
  recv_exact-ends n s = recv_loop-ends n n s

  send_exact-ends : (bs : List ℕ) (s : w.State) → is_running (send_exact w bs s).0 ≡ false
  unfolding send_exact
  send_exact-ends bs s = send_loop-ends (length bs) bs s

  -- A chain of calls ends if each of its calls does.
  then-ends :
      {A B : Type 0} (r : Outcome A × w.State) (f : A → w.State → Outcome B × w.State)
      → is_running r.0 ≡ false
      → ((a : A) → r.0 ≡ ok a → is_running (f a r.1).0 ≡ false)
      → is_running (then_call r f).0 ≡ false
  then-ends (ok a, s) f h k = k a refl
  then-ends (err e, s) f h k = refl
  then-ends (running, s) f h k = h

  or_null-ends :
      {A : Type 0} (r : Outcome A × w.State)
      → is_running r.0 ≡ false
      → is_running (or_null r).0 ≡ false
  or_null-ends (ok a, s) h = refl
  or_null-ends (err e, s) h = refl
  or_null-ends (running, s) h = h

  read_reply_data-ends :
      (p : HandshakeReply × ℕ) (s : w.State) → is_running (read_reply_data w p s).0 ≡ false
  unfolding read_reply_data
  read_reply_data-ends (r, size) s = ground (arith, recv_exact-ends size s)

  read_handshake_reply-ends : (s : w.State) → is_running (read_handshake_reply w s).0 ≡ false
  unfolding read_handshake_reply
  read_handshake_reply-ends s = or_null-ends _ (
      then-ends (recv_exact w 20 s) _ (recv_exact-ends 20 s)
        (λ b e. read_reply_data-ends (reply_head b) (recv_exact w 20 s).1))

  send_handshake_request-ends :
      (option size : ℕ) (data_bytes : Option (List ℕ)) (s : w.State)
      → is_running (send_handshake_request w option size data_bytes s).0 ≡ false
  unfolding send_handshake_request
  send_handshake_request-ends option size none s = send_exact-ends (handshake_request option size) s
  send_handshake_request-ends option size (some b) s =
      then-ends (send_exact w (handshake_request option size) s) _
        (send_exact-ends (handshake_request option size) s)
        (λ a e. send_exact-ends b (send_exact w (handshake_request option size) s).1)

  module _ (law : IsStream w) where
    -- A call that succeeds has read `n` bytes at least.
    data Shrinks {A : Type 0} (n : ℕ) (s : w.State) (r : Outcome A × w.State) : Type 0 where
      shrinks :
          ((a : A) → r.0 ≡ ok a → length (law.incoming r.1) + n ≤ length (law.incoming s))
          → Shrinks n s r

    recv_exact-Shrinks : (n : ℕ) (s : w.State) → Shrinks n s (recv_exact w n s)
    recv_exact-Shrinks n s = shrinks (λ b e. elim (le-cases n (length (law.incoming s))) [
      | inl h ↦ ground (arith, (recv_exact-Reads w law n s h).1, length-drop n (law.incoming s))
      | inr h ↦ ground (arith, recv_exact-short w law n s h)
    ])

    then-Shrinks :
        {A B : Type 0} (n : ℕ) (s : w.State) (r : Outcome A × w.State)
        (f : A → w.State → Outcome B × w.State)
        → Shrinks n s r
        → ((a : A) → Shrinks 0 r.1 (f a r.1))
        → Shrinks n s (then_call r f)
    then-Shrinks n s (ok a, s') f (shrinks h) k = elim (k a) [
      | shrinks g ↦ shrinks (λ b e. omega (arith, h a refl, g b e))
    ]
    then-Shrinks n s (err x, s') f h k = shrinks (λ b e. cc)
    then-Shrinks n s (running, s') f h k = shrinks (λ b e. cc)

    weaken :
        {A : Type 0} (n : ℕ) (s : w.State) (r : Outcome A × w.State) → Shrinks n s r → Shrinks 0 s r
    weaken n s r (shrinks h) = shrinks (λ a e. omega (arith, h a e))

    same-Shrinks : {A : Type 0} (s : w.State) (x : Outcome A) → Shrinks 0 s (x, s)
    same-Shrinks s x = shrinks (λ a e. omega arith)

    read_reply_data-Shrinks :
        (p : HandshakeReply × ℕ) (s : w.State) → Shrinks 0 s (read_reply_data w p s)
    unfolding read_reply_data
    read_reply_data-Shrinks (r, size) s =
        if-holds (Shrinks 0 s) (not (r.magic == handshake_reply_magic)) _ _ s
          (same-Shrinks s (err ErrorCode.gen_failure))
          (then-Shrinks 0 s (recv_exact w size s) _
            (weaken size s (recv_exact w size s) (recv_exact-Shrinks size s))
            (λ b. same-Shrinks (recv_exact w size s).1 (ok (record r { data_bytes = b }))))

    or_null-Shrinks :
        {A : Type 0} (n : ℕ) (s : w.State) (r : Outcome A × w.State)
        → Shrinks n s r
        → Shrinks n s (or_null r)
    or_null-Shrinks n s (ok a, s') h = h
    or_null-Shrinks n s (err e, s') h = shrinks (λ a e. cc)
    or_null-Shrinks n s (running, s') h = shrinks (λ a e. cc)

    read_handshake_reply-Shrinks : (s : w.State) → Shrinks 20 s (read_handshake_reply w s)
    unfolding read_handshake_reply
    read_handshake_reply-Shrinks s =
        or_null-Shrinks 20 s (then_call (recv_exact w 20 s) (λ b. read_reply_data w (reply_head b)))
          (then-Shrinks 20 s (recv_exact w 20 s) (λ b. read_reply_data w (reply_head b))
            (recv_exact-Shrinks 20 s)
            (λ b. read_reply_data-Shrinks (reply_head b) (recv_exact w 20 s).1))

    parse_reply-ends :
        (wants_info : Bool) (r : HandshakeReply) (x : Export)
        → is_running (parse_reply w wants_info r x) ≡ false
    unfolding parse_reply parse_opt_go_reply parse_export parse_info_block_size
    parse_reply-ends wants_info r x = ground arith

    send_opt_export_name-ends :
        (name : List ℕ) (gflags : ℕ) (x : Export) (s : w.State)
        → is_running (send_opt_export_name w name gflags x s).0 ≡ false
    unfolding send_opt_export_name
    send_opt_export_name-ends name gflags x s =
        then-ends _ _ (send_handshake_request-ends opt_export_name (length name) (some name) s)
          (λ a e. then-ends _ _ (recv_exact-ends 10 _) (λ b e'.
            then-ends _ _
              (if-holds (λ (r : Outcome (List ℕ) × w.State). is_running r.0 ≡ false)
                (has_bit 1 gflags) (return_ok []) (recv_exact w 124) _ refl (recv_exact-ends 124 _))
              (λ c e''. refl)))

    reply_loop-ends :
        (fuel : ℕ) (wants_info : Bool) (name : List ℕ) (gflags : ℕ) (x : Export) (s : w.State)
        → length (law.incoming s) < fuel
        → is_running (reply_loop w fuel wants_info name gflags x s).0 ≡ false
    unfolding reply_loop
    reply_loop-ends zero wants_info name gflags x s h = ground arith
    reply_loop-ends (suc fuel) wants_info name gflags x s h =
        let s' = (read_handshake_reply w s).1 in
        then-ends (read_handshake_reply w s) _ (read_handshake_reply-ends s) (λ r e.
          if-holds (λ (y : Outcome Export × w.State). is_running y.0 ≡ false)
            (has_bit 31 r.reply_type) _ _ s'
            (if-holds (λ (y : Outcome Export × w.State). is_running y.0 ≡ false)
              (r.reply_type == rep_err_unsup) _ _ s' (send_opt_export_name-ends name gflags x s')
              refl)
            (then-ends (parse_reply w wants_info r x, s') _ (parse_reply-ends wants_info r x)
              (λ x' e'.
                if-holds (λ (y : Outcome Export × w.State). is_running y.0 ≡ false)
                  (r.reply_type == rep_ack) _ _ s' refl
                  (reply_loop-ends fuel wants_info name gflags x' s'
                    (elim (read_handshake_reply-Shrinks s) [
                      | shrinks k ↦ omega (arith, k r e, h)
                    ])))))

    -- A call that ends, and after which the server has no more left to say than before.
    data Calm {A : Type 0} (s : w.State) (r : Outcome A × w.State) : Type 0 where
      calm : is_running r.0 ≡ false → Shrinks 0 s r → Calm s r

    bind-Calm :
        {A B : Type 0} (s : w.State) (r : Outcome A × w.State)
        (f : A → w.State → Outcome B × w.State)
        → Calm s r
        → ((a : A) (s' : w.State) → Calm s' (f a s'))
        → Calm s (then_call r f)
    bind-Calm s (ok a, s') f (calm h (shrinks k)) g = elim (g a s') [
      | calm h' (shrinks k') ↦ calm h' (shrinks (λ b e. omega (arith, k a refl, k' b e)))
    ]
    bind-Calm s (err x, s') f h g = calm refl (shrinks (λ b e. cc))
    bind-Calm s (running, s') f (calm h k) g = calm h (shrinks (λ b e. cc))

    send_exact-Calm : (bs : List ℕ) (s : w.State) → Calm s (send_exact w bs s)
    send_exact-Calm bs s =
        calm (send_exact-ends bs s)
          (shrinks (λ a e. ground (arith, send_exact-incoming w law bs s)))

    recv_exact-Calm : (n : ℕ) (s : w.State) → Calm s (recv_exact w n s)
    recv_exact-Calm n s =
        calm (recv_exact-ends n s) (weaken n s (recv_exact w n s) (recv_exact-Shrinks n s))

    send-Calm :
        {A : Type 0} (bs : List ℕ) (s : w.State) (f : w.State → Outcome A × w.State)
        → ((s' : w.State) → Calm s' (f s'))
        → Calm s (then_call (send_exact w bs s) (λ a. f))
    send-Calm bs s f g = bind-Calm s (send_exact w bs s) (λ a. f) (send_exact-Calm bs s) (λ a. g)

    send_info_request-Calm :
        (option : ℕ) (requests : List (List ℕ)) (name : List ℕ) (s : w.State)
        → Calm s (send_info_request w option requests name s)
    unfolding send_info_request send_handshake_request
    send_info_request-Calm option requests name s =
        let head = handshake_request option (4 + length name + 2 + 2 * length requests) in
        send-Calm {A = Unit {0}} head s _ (λ s.
          send-Calm {A = Unit {0}} (big4 (wrap32 (length name))) s _ (λ s.
            send-Calm {A = Unit {0}} name s _ (λ s.
              send-Calm {A = Unit {0}} (big2 (length requests)) s _
                (λ s. send_exact-Calm (flatten requests) s))))

    -- After a calm call, what the rest of the chain needs of its fuel still holds.
    Calm-ends :
        {A B : Type 0} (fuel : ℕ) (s : w.State) (r : Outcome A × w.State)
        (f : A → w.State → Outcome B × w.State)
        → length (law.incoming s) < fuel
        → Calm s r
        → ((a : A) (s' : w.State) → length (law.incoming s') < fuel → is_running (f a s').0 ≡ false)
        → is_running (then_call r f).0 ≡ false
    Calm-ends fuel s (ok a, s') f h (calm k (shrinks l)) g = g a s' (omega (arith, h, l a refl))
    Calm-ends fuel s (err x, s') f h k g = refl
    Calm-ends fuel s (running, s') f h (calm k l) g = k

    -- A check that passes leaves the socket alone.
    check-ends :
        {A : Type 0} (fuel : ℕ) (s : w.State) (r : Outcome (Unit {0}))
        (f : Unit {0} → w.State → Outcome A × w.State)
        → is_running r ≡ false
        → length (law.incoming s) < fuel
        → (length (law.incoming s) < fuel → is_running (f tt s).0 ≡ false)
        → is_running (then_call (r, s) f).0 ≡ false
    check-ends fuel s (ok a) f e h g = g h
    check-ends fuel s (err x) f e h g = refl
    check-ends fuel s running f e h g = e

    -- On a socket that behaves as documented, whose peer does not fall silent but sends, closes the
    -- connection or loses it, so that no call of recv waits for ever: NbdNegotiate returns, with a
    -- result or an error, whatever the server sends, if the rounds of its loop are more than the bytes
    -- that the server will send.
    pub negotiate-ends :
        (fuel : ℕ) (wants_info : Bool) (name : List ℕ) (client_flags : ℕ) (x : Export) (s : w.State)
        → length (law.incoming s) < fuel
        → is_running (negotiate w fuel wants_info name client_flags x s).0 ≡ false
    unfolding negotiate validate_initial_magic validate_option_magic require_fixed_newstyle
    negotiate-ends fuel wants_info name client_flags x s h =
        Calm-ends {B = Export} fuel s _ _ h (recv_exact-Calm 8 s) (λ passwd s h.
          check-ends {A = Export} fuel s (validate_initial_magic passwd) _ (ground arith) h (λ h.
            Calm-ends {B = Export} fuel s _ _ h (recv_exact-Calm 8 s) (λ magic s h.
              check-ends {A = Export} fuel s (validate_option_magic (from_big8 magic 0)) _
                (ground arith) h
                (λ h. Calm-ends {B = Export} fuel s _ _ h (recv_exact-Calm 2 s) (λ gflags s h.
                  let flags = client_flags_of client_flags (from_big2 gflags 0) in
                  check-ends {A = Export} fuel s (require_fixed_newstyle flags) _ (ground arith) h
                    (λ h.
                      Calm-ends {A = Unit {0}} {B = Export} fuel s _ _ h
                        (send_exact-Calm (big4 flags) s)
                        (λ a s h.
                          Calm-ends {A = Unit {0}} {B = Export} fuel s _ _ h
                            (send_info_request-Calm opt_go
                              (big2 info_export ∷ big2 info_block_size ∷ []) name s)
                            (λ a s h.
                              reply_loop-ends fuel wants_info name (from_big2 gflags 0) x s
                                h))))))))
