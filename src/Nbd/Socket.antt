-- ===== src/Nbd/Socket.antt =====
-- RecvExact and SendExact of libwnbd/nbd_protocol.cpp over a socket whose recv and send are given.
pub mod Stream
use wnbd.Prelude.{
  ℕ, zero, suc, ◌+◌, ◌-◌, ◌≤◌, ◌<◌, ◌≡◌, ◌≢◌, Bool, true, false, Option, none, some, List, [], ◌∷◌,
  ◌++◌, ◌==◌, ltb, if◌then◌else◌, length, take, drop,
}

-- WSAGetLastError, as the code tells its values apart.
pub data WinsockError : Type 0 where
  interrupted disconnected other_error : WinsockError

-- What the functions return; 0 is the absence of an error. `socket_error` is SOCKET_ERROR.
pub data ErrorCode : Type 0 where
  cancelled graceful_disconnect socket_error gen_failure bad_format not_supported : ErrorCode
  access_denied invalid_parameter invalid_handle file_too_large not_enough_memory : ErrorCode
  os_error : ℕ → ErrorCode

-- recv: bytes, the end of the stream, or an error; or `stalled`, a call on a blocking socket that never
-- returns, because the peer neither sends nor closes. send: how many bytes were sent, one or more, or
-- else whether 0 was returned, with the last error.
pub data Received : Type 0 where
  got : List ℕ → Received
  closed stalled : Received
  recv_failed : WinsockError → Received

pub data Sent : Type 0 where
  sent : ℕ → Sent
  not_sent : Bool → WinsockError → Sent

-- The Winsock functions on the state of a connected socket.
pub record Winsock : Type 1 where
  pub State : Type 0
  pub recv : ℕ → State → Received × State
  pub send : List ℕ → State → Sent × State

-- A value or an error code; `running` is no outcome of the code: a call waits, or a loop was followed no
-- further.
pub data Outcome {ℓ} (A : Type ℓ) : Type ℓ where
  ok : A → Outcome A
  err : ErrorCode → Outcome A
  running : Outcome A

pub error_of : WinsockError → ErrorCode
error_of interrupted = ErrorCode.cancelled
error_of disconnected = ErrorCode.graceful_disconnect
error_of other_error = ErrorCode.socket_error

-- The return of SendExact after a `send` that sent nothing: its result, 0 or SOCKET_ERROR, where the
-- last error is none of those that it names.
unfoldable pub not_sent_outcome : Bool → WinsockError → Outcome (Unit {0})
not_sent_outcome true other_error = ok tt
not_sent_outcome false other_error = err ErrorCode.socket_error
not_sent_outcome zero_returned interrupted = err ErrorCode.cancelled
not_sent_outcome zero_returned disconnected = err ErrorCode.graceful_disconnect

-- One call after another; an error ends the chain.
abbrev pub then_call : {S A B : Type 0} → Outcome A × S → (A → S → Outcome B × S) → Outcome B × S
then_call (ok a, s) f = f a s
then_call (err e, s) f = (err e, s)
then_call (running, s) f = (running, s)

infixl 5 ◌>>=◌
abbrev pub ◌>>=◌ :
    {S A B : Type 0} → (S → Outcome A × S) → (A → S → Outcome B × S) → S → Outcome B × S
(m >>= f) s = then_call (m s) f

abbrev pub return_ok : {S A : Type 0} → A → S → Outcome A × S
return_ok a s = (ok a, s)

abbrev pub return_err : {S A : Type 0} → ErrorCode → S → Outcome A × S
return_err e s = (err e, s)

module _ (w : Winsock) where
  open w use {State, recv, send}

  -- A computation that may fail, on the socket.
  abbrev pub Proto : Type 0 → Type 0
  Proto A = State → Outcome A × State

  -- The loop of RecvExact for `left` bytes, on fuel.
  unfoldable pub recv_loop : ℕ → ℕ → Proto (List ℕ)
  unfolding error_of
  recv_loop fuel zero s = (ok [], s)
  recv_loop zero (suc left) s = (err ErrorCode.gen_failure, s)
  recv_loop (suc fuel) (suc left) s =
      let (r, s') = recv (suc left) s in
      elim r [
        | got [] ↦ (err ErrorCode.graceful_disconnect, s')
        | got (b ∷ bs) ↦
            let (rest, s'') = recv_loop fuel (left - length bs) s' in
            (elim rest [ ok xs ↦ ok ((b ∷ bs) ++ xs) | err e ↦ err e | running ↦ running ], s'')
        | closed ↦ (err ErrorCode.graceful_disconnect, s')
        | stalled ↦ (running, s')
        | recv_failed e ↦ (err (error_of e), s')
      ]

  -- RecvExact on a handle that is not INVALID_SOCKET: every round reads a byte at least.
  unfoldable pub recv_exact : ℕ → Proto (List ℕ)
  unfolding recv_loop
  recv_exact n s = recv_loop n n s

  -- The loop of SendExact on the bytes that are left.
  unfoldable pub send_loop : ℕ → List ℕ → Proto (Unit {0})
  unfolding not_sent_outcome
  send_loop fuel [] s = (ok tt, s)
  send_loop zero (b ∷ bs) s = (err ErrorCode.gen_failure, s)
  send_loop (suc fuel) (b ∷ bs) s =
      let (r, s') = send (b ∷ bs) s in
      elim r [
        | sent n ↦ send_loop fuel (drop n (b ∷ bs)) s'
        | not_sent zero_returned e ↦ (not_sent_outcome zero_returned e, s')
      ]

  -- SendExact on a handle that is not INVALID_SOCKET: every round sends a byte at least.
  unfoldable pub send_exact : List ℕ → Proto (Unit {0})
  unfolding send_loop
  send_exact bs s = send_loop (length bs) bs s

abbrev pub gives : Received → Bool
gives (got (b ∷ bs)) = true
gives _ = false

-- A peer that never leaves recv waiting: it sends, closes the connection, or the connection fails.
abbrev pub is_stalled : Received → Bool
is_stalled stalled = true
is_stalled _ = false

abbrev pub IsPrompt : Winsock → Type 0
IsPrompt w = (n : ℕ) (s : w.State) → is_stalled (w.recv n s).0 ≡ false

-- Winsock as documented, for a peer whose bytes arrive in order: `incoming` is what it has sent and
-- was not read, `outgoing` what it was sent. While bytes are there, recv gives one at
-- least and as many as asked for at most; else it gives none, or waits. send takes one byte at least, or
-- returns SOCKET_ERROR.
pub record IsStream (w : Winsock) : Type 1 where
  pub incoming : w.State → List ℕ
  pub outgoing : w.State → List ℕ
  pub recv_some :
      (n : ℕ) (s : w.State) (b : ℕ) (bs : List ℕ)
      → incoming s ≡ b ∷ bs
      → (k : ℕ) × (k ≤ n)
        × ((w.recv (suc n) s).0 ≡ got (b ∷ take k bs))
        × (incoming (w.recv (suc n) s).1 ≡ drop k bs)
  pub recv_none : (n : ℕ) (s : w.State) → incoming s ≡ [] → gives (w.recv (suc n) s).0 ≡ false
  pub recv_keeps : (n : ℕ) (s : w.State) → outgoing (w.recv n s).1 ≡ outgoing s
  pub send_some :
      (b : ℕ) (bs : List ℕ) (s : w.State) (n : ℕ)
      → (w.send (b ∷ bs) s).0 ≡ sent n
      → (1 ≤ n)
        × (n ≤ suc (length bs))
        × (outgoing (w.send (b ∷ bs) s).1 ≡ outgoing s ++ take n (b ∷ bs))
  pub send_fails :
      (b : ℕ) (bs : List ℕ) (s : w.State) (zero_returned : Bool) (e : WinsockError)
      → (w.send (b ∷ bs) s).0 ≡ not_sent zero_returned e
      → zero_returned ≡ false
  pub send_keeps : (bs : List ℕ) (s : w.State) → incoming (w.send bs s).1 ≡ incoming s
