-- ===== src/Nbd/Socket/Stream.antt =====
-- RecvExact and SendExact of libwnbd/nbd_protocol.cpp on a socket that behaves as documented.
use wnbd.Prelude.{
  ℕ, zero, suc, ◌-◌, ◌≤◌, ◌<◌, ◌≡◌, refl, List, [], ◌∷◌, ◌++◌, length, take, drop, arith, ap, sym,
  length-take, length-drop, Bool, true, false, ◌⊎◌, inl, inr,
}
use mathlib.Core.List.{append-nil, append_assoc}
use wnbd.Nbd.Socket.{
  Winsock, Outcome, ok, IsStream, recv_loop, recv_exact, send_loop, send_exact, Sent, sent,
  not_sent, not_sent_outcome, WinsockError,
}

take-nil : {A : Type 0} (n : ℕ) → take {A = A} n [] ≡ []
take-nil zero = refl
take-nil (suc n) = refl

drop-nil : {A : Type 0} (n : ℕ) → drop {A = A} n [] ≡ []
drop-nil zero = refl
drop-nil (suc n) = refl

take-take-drop :
    {A : Type 0} (k n : ℕ) (xs : List A) → k ≤ n → take k xs ++ take (n - k) (drop k xs) ≡ take n xs
take-take-drop zero n xs h = let e : n - 0 ≡ n = omega arith in ap (λ k. take k xs) e
take-take-drop (suc k) zero xs h = ground arith
take-take-drop (suc k) (suc n) [] h = take-nil (suc n - suc k)
take-take-drop (suc k) (suc n) (x ∷ xs) h = ground (arith, take-take-drop k n xs (omega (arith, h)))

drop-drop_sub : {A : Type 0} (k n : ℕ) (xs : List A) → k ≤ n → drop (n - k) (drop k xs) ≡ drop n xs
drop-drop_sub zero n xs h = let e : n - 0 ≡ n = omega arith in ap (λ k. drop k xs) e
drop-drop_sub (suc k) zero xs h = ground arith
drop-drop_sub (suc k) (suc n) [] h = drop-nil (suc n - suc k)
drop-drop_sub (suc k) (suc n) (x ∷ xs) h = ground (arith, drop-drop_sub k n xs (omega (arith, h)))

-- What reading `n` bytes does: those are the bytes, the rest stays, and nothing was sent.
abbrev pub Reads : (w : Winsock) → IsStream w → ℕ → w.State → Outcome (List ℕ) × w.State → Type 0
Reads w law n s r =
    (r.0 ≡ ok (take n (law.incoming s)))
    × (law.incoming r.1 ≡ drop n (law.incoming s))
    × (law.outgoing r.1 ≡ law.outgoing s)

take-drop : (n : ℕ) (xs : List ℕ) → take n xs ++ drop n xs ≡ xs
take-drop zero xs = refl
take-drop (suc n) [] = refl
take-drop (suc n) (x ∷ xs) = ap (λ l. x ∷ l) (take-drop n xs)

pub Sent-cases :
    (x : Sent) → ((n : ℕ) × (x ≡ sent n)) ⊎ ((z : Bool) × (e : WinsockError) × (x ≡ not_sent z e))
Sent-cases (sent n) = inl (n, refl)
Sent-cases (not_sent z e) = inr (z, e, refl)

abbrev is_ok : {A : Type 0} → Outcome A → Bool
is_ok (ok a) = true
is_ok _ = false

module _ (w : Winsock) (law : IsStream w) where
  recv_loop-Reads :
      (fuel l : ℕ) (s : w.State) (xs : List ℕ)
      → l ≤ fuel
      → law.incoming s ≡ xs
      → l ≤ length xs
      → Reads w law l s (recv_loop w fuel l s)
  unfolding recv_loop
  recv_loop-Reads fuel zero s xs hf hx hl = (ground arith, ground arith, ground arith)
  recv_loop-Reads zero (suc l) s xs hf hx hl = ground arith
  recv_loop-Reads (suc fuel) (suc l) s [] hf hx hl = ground arith
  recv_loop-Reads (suc fuel) (suc l) s (b ∷ bs) hf hx hl =
      let (k, hk, hr, hi) = law.recv_some l s b bs hx in
      let s' = (w.recv (suc l) s).1 in
      let n : length (take k bs) ≡ k = ground (arith, length-take k bs) in
      let ih =
        recv_loop-Reads fuel (l - k) s' (drop k bs) (omega (arith, hf)) hi
          (ground (arith, length-drop k bs)) in
      ground (
        arith,
        hr,
        hi,
        n,
        ih,
        hx,
        law.recv_keeps (suc l) s,
        take-take-drop k l bs hk,
        drop-drop_sub k l bs hk,
      )

  recv_loop-short :
      (fuel l : ℕ) (s : w.State) (xs : List ℕ)
      → law.incoming s ≡ xs
      → length xs < l
      → is_ok (recv_loop w fuel l s).0 ≡ false
  unfolding recv_loop
  recv_loop-short fuel zero s xs hx hl = ground arith
  recv_loop-short zero (suc l) s xs hx hl = refl
  recv_loop-short (suc fuel) (suc l) s [] hx hl = ground (arith, law.recv_none l s hx)
  recv_loop-short (suc fuel) (suc l) s (b ∷ bs) hx hl =
      let (k, hk, hr, hi) = law.recv_some l s b bs hx in
      let s' = (w.recv (suc l) s).1 in
      ground (
        arith,
        hr,
        hi,
        hx,
        hk,
        length-take k bs,
        length-drop k bs,
        recv_loop-short fuel (l - length (take k bs)) s' (drop k bs) hi,
      )

  -- However recv cuts the stream into pieces, RecvExact for `n` bytes returns the next `n` bytes of the
  -- stream, if the peer has sent as many, consumes exactly those and sends nothing.
  pub recv_exact-Reads :
      (n : ℕ) (s : w.State) → n ≤ length (law.incoming s) → Reads w law n s (recv_exact w n s)
  unfolding recv_exact
  recv_exact-Reads n s h = recv_loop-Reads n n s (law.incoming s) (omega arith) refl h

  -- RecvExact for more bytes than the peer has sent returns an error, or waits.
  pub recv_exact-short :
      (n : ℕ) (s : w.State) → length (law.incoming s) < n → is_ok (recv_exact w n s).0 ≡ false
  unfolding recv_exact
  recv_exact-short n s h = recv_loop-short n n s (law.incoming s) refl h

  abbrev Sends : List ℕ → w.State → Outcome (Unit {0}) × w.State → Type 0
  Sends bs s r =
      (r.0 ≡ ok tt → law.outgoing r.1 ≡ law.outgoing s ++ bs) × (law.incoming r.1 ≡ law.incoming s)

  send_loop-Sends : (fuel : ℕ) (bs : List ℕ) (s : w.State) → Sends bs s (send_loop w fuel bs s)
  unfolding send_loop not_sent_outcome
  send_loop-Sends fuel [] s = (λ e. sym (append-nil (law.outgoing s)), refl)
  send_loop-Sends zero (b ∷ bs) s = ground arith
  send_loop-Sends (suc fuel) (b ∷ bs) s = elim (Sent-cases (w.send (b ∷ bs) s).0) [
    | inl (n, e) ↦ ground (
      arith,
      e,
      law.send_some b bs s n e,
      law.send_keeps (b ∷ bs) s,
      send_loop-Sends fuel (drop n (b ∷ bs)) (w.send (b ∷ bs) s).1,
      append_assoc (law.outgoing s) (take n (b ∷ bs)) (drop n (b ∷ bs)),
      take-drop n (b ∷ bs),
    )
    | inr (z, e, h) ↦ ground (arith, h, law.send_fails b bs s z e h, law.send_keeps (b ∷ bs) s)
  ]

  -- If SendExact reports success, the peer was sent exactly the bytes given, after what it was sent
  -- before.
  pub send_exact-outgoing :
      (bs : List ℕ) (s : w.State)
      → (send_exact w bs s).0 ≡ ok tt
      → law.outgoing (send_exact w bs s).1 ≡ law.outgoing s ++ bs
  unfolding send_exact
  send_exact-outgoing bs s = (send_loop-Sends (length bs) bs s).0

  -- SendExact reads nothing, whether it succeeds or not.
  pub send_exact-incoming :
      (bs : List ℕ) (s : w.State) → law.incoming (send_exact w bs s).1 ≡ law.incoming s
  unfolding send_exact
  send_exact-incoming bs s = (send_loop-Sends (length bs) bs s).1
