-- ===== src/Accounts/Arrive.antt =====
-- A request that arrives at WnbdExecuteScsiFunction, driver/scsi_function.c, keeps the accounts.
use wnbd.Prelude.{
  ℕ, ◌≡◌, true, false, List, ◌∷◌, arith, subst, sym, either-if, if◌then◌else◌, inl, inr,
}
use wnbd.Wdk.{SrbStatus}
use wnbd.Types.{Device, Element, Srb}
use wnbd.Request.Pend.{PendEnv, Pended}
use wnbd.Request.Pend.Outcome.{Refused, Enqueued, Outcome}
use wnbd.Request.Pend.Bounds.{IsBuffer, IsMappable}
use wnbd.Request.Execute.{Executed, is_pending, outstanding_up, settle, execute_scsi}
use wnbd.Books.Arrival.{not_pending, IsUnused, Refused-Books, Enqueued-Books}
use wnbd.Emulated.Operation.{handle_srb_operation}
use wnbd.Emulated.Operation.Outcome.{handle_srb_operation-IsPermitted}
use wnbd.Accounts.{Accounts, Books-at, IsSynced-same}

-- The SRBs that were queued, after one that was executed.
abbrev pub with_arrival : Executed → Srb → List ℕ → List ℕ
with_arrival x srb arrived = if x.complete then arrived else srb.id ∷ arrived

module _ (arrived : List ℕ) (lost : List Element) (d : Device) where
  Refused-Accounts :
      (srb : Srb) (r : Pended)
      → Refused (outstanding_up d) r
      → Accounts arrived lost d
      → Accounts (with_arrival (settle r) srb arrived) lost (settle r).device
  unfolding settle
  Refused-Accounts srb r h a =
      let b = Refused-Books arrived lost d r h a.books in
      let closed : is_pending r.0 ≡ false = not_pending r.0 h.status in
      let complete : (settle r).complete ≡ true = ground (arith, closed) in
      let same : with_arrival (settle r) srb arrived ≡ arrived = ground (arith, complete) in
      subst (λ l. Accounts l lost (settle r).device) (sym same)
        (record {
          books = Books-at (ground (arith, h.pending)) (ground (arith, h.submitted)) b;
          synced =
              IsSynced-same d (settle r).device (ground (arith, h.submitted))
                (ground (arith, h.buckets)) a.synced;
          kept = λ k. ground (arith, a.kept, h.hard_remove);
        })

  Enqueued-Accounts :
      {P : Element → Type 0} (env : PendEnv) (srb : Srb) (r : Pended)
      → Enqueued P env (outstanding_up d) srb r
      → IsUnused env d lost
      → Accounts arrived lost d
      → Accounts (with_arrival (settle r) srb arrived) lost (settle r).device
  unfolding settle
  Enqueued-Accounts env srb r h f a =
      let b = Enqueued-Books arrived lost d env srb r h f a.books in
      let same : with_arrival (settle r) srb arrived ≡ srb.id ∷ arrived =
        ground (arith, h.status) in
      subst (λ l. Accounts l lost (settle r).device) (sym same)
        (record {
          books = Books-at (ground (arith, h.pending)) (ground (arith, h.submitted)) b;
          synced =
              IsSynced-same d (settle r).device (ground (arith, h.submitted))
                (ground (arith, h.buckets)) a.synced;
          kept = λ k. ground (arith, a.kept, h.hard_remove);
        })

  Outcome-Accounts :
      {P : Element → Type 0} (env : PendEnv) (srb : Srb) (r : Pended)
      → Outcome P env (outstanding_up d) srb r
      → IsUnused env d lost
      → Accounts arrived lost d
      → Accounts (with_arrival (settle r) srb arrived) lost (settle r).device
  Outcome-Accounts env srb r (inl h) f a = Refused-Accounts srb r h a
  Outcome-Accounts env srb r (inr h) f a = Enqueued-Accounts env srb r h f a

pub execute_scsi-Accounts :
    (arrived : List ℕ) (lost : List Element) (env : PendEnv) (d : Device) (srb : Srb)
    → IsBuffer srb.cdb
    → IsBuffer srb.data_buffer
    → IsMappable d
    → IsUnused env d lost
    → Accounts arrived lost d
    → Accounts
        (with_arrival (execute_scsi env d srb) srb arrived)
        lost
        (execute_scsi env d srb).device
unfolding execute_scsi
execute_scsi-Accounts arrived lost env d srb hc hb m f a =
    either-if (λ x. Accounts (with_arrival x srb arrived) lost x.device) d.hard_remove
      (record { complete = true; srb_status = SrbStatus.no_device; srb = srb; device = d })
      (settle (handle_srb_operation env (outstanding_up d) srb)) a
      (Outcome-Accounts arrived lost d env (record srb { srb_status = SrbStatus.aborted }) _
        (handle_srb_operation-IsPermitted env (outstanding_up d) srb hc hb m) f a)
