-- ===== src/Books/Arrival.antt =====
-- A request that arrives at WnbdExecuteScsiFunction, driver/scsi_function.c, keeps the books.
use wnbd.Prelude.{
  ℕ, ◌+◌, ◌≤◌, ◌≡◌, ◌≢◌, false, some, List, [], ◌∷◌, ◌++◌, arith, All-append, inl, inr,
}
use wnbd.Wdk.{NtStatus}
use wnbd.Types.{Device, Element, Srb}
use wnbd.Request.Pend.{PendEnv, Pended}
use wnbd.Request.Pend.Outcome.{Refused, Enqueued, TakenFrom}
use wnbd.Request.Execute.{is_pending, outstanding_up, settle}
use wnbd.Books.{total, is_number, is_addr, is_id, unit_weight, IsLive, Books, total-append}

-- The allocator gives an address that no element has.
abbrev pub IsUnused : PendEnv → Device → List Element → Type 0
IsUnused env d lost =
    (a : ℕ)
    → env.fresh ≡ some a
    → total (is_number a) d.pool
        + total (is_addr a) d.pending
        + total (is_addr a) d.submitted
        + total (is_addr a) lost
      ≡ 0

pub not_pending : (status : NtStatus) → status ≢ NtStatus.pending → is_pending status ≡ false
not_pending status h = ground arith

module _ (arrived : List ℕ) (lost : List Element) (d : Device) where
  pub Refused-Books :
      (r : Pended)
      → Refused (outstanding_up d) r
      → Books arrived lost d.pending d.submitted d
      → Books arrived lost d.pending d.submitted (settle r).device
  unfolding settle
  Refused-Books r h b = record {
    unique = λ a. ground (arith, b.unique a, h.pool, not_pending r.0 h.status);
    live_pending = b.live_pending;
    live_submitted = b.live_submitted;
    unsubmitted = ground (arith, h.unsubmitted, h.aborted_unsubmitted, not_pending r.0 h.status);
    pending_submitted =
        ground (arith, h.pending_submitted, h.aborted_submitted, not_pending r.0 h.status);
    outstanding = ground (arith, h.outstanding, not_pending r.0 h.status);
    conserved = λ i. ground (arith, b.conserved i, h.notified, not_pending r.0 h.status);
  }

  -- What is in the pool, and the element's address, before and after.
  taken-total :
      (env : PendEnv) (e : Element) (d' : Device) (a : ℕ)
      → TakenFrom env d e d'
      → IsUnused env d lost
      → total (is_number a) d.pool
          + total (is_addr a) d.pending
          + total (is_addr a) d.submitted
          + total (is_addr a) lost
        ≤ 1
      → total (is_number a) d'.pool
          + (total (is_addr a) d.pending + is_addr a e)
          + total (is_addr a) d.submitted
          + total (is_addr a) lost
        ≤ 1
  taken-total env e d' a (inl (p, q)) f h = ground (arith, p)
  taken-total env e d' a (inr (p, q, g, k)) f h = ground (arith, p, q, f e.addr g)

  pub Enqueued-Books :
      {P : Element → Type 0} (env : PendEnv) (srb : Srb) (r : Pended)
      (h : Enqueued P env (outstanding_up d) srb r)
      → IsUnused env d lost
      → Books arrived lost d.pending d.submitted d
      → Books (srb.id ∷ arrived) lost (d.pending ++ h.element ∷ []) d.submitted (settle r).device
  unfolding settle
  Enqueued-Books env srb r h f b = record {
    unique = λ a. ground (
      arith,
      h.status,
      taken-total env h.element r.2 a h.taken f (b.unique a),
      total-append (is_addr a) d.pending (h.element ∷ []),
    );
    live_pending = All-append IsLive d.pending (h.element ∷ []) b.live_pending (h.live, tt);
    live_submitted = b.live_submitted;
    unsubmitted = ground (
      arith,
      h.status,
      h.unsubmitted,
      h.aborted_unsubmitted,
      total-append unit_weight d.pending (h.element ∷ []),
    );
    pending_submitted = ground (arith, h.status, h.pending_submitted, h.aborted_submitted);
    outstanding =
        ground
          (arith, h.status, h.outstanding, total-append unit_weight d.pending (h.element ∷ []));
    conserved = λ i. ground (
      arith,
      h.status,
      b.conserved i,
      h.notified,
      h.srb_kept,
      total-append (is_id i) d.pending (h.element ∷ []),
    );
  }
