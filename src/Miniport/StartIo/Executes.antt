-- ===== src/Miniport/StartIo/Executes.antt =====
-- What WnbdExecuteScsiFunction of driver/scsi_function.c does to the queues of the disk.
use wnbd.Prelude.{◌≡◌, refl, true, false, [], ◌∷◌, ◌++◌, arith, inl, inr, split-if}
use wnbd.Wdk.{NtStatus, SrbStatus}
use wnbd.Types.{Device, Srb, Element}
use wnbd.Request.Pend.{PendEnv, Pended}
use wnbd.Request.Pend.Outcome.{Outcome}
use wnbd.Request.Pend.Bounds.{IsBuffer, IsMappable, IsPermitted, op_of}
use wnbd.Request.Execute.{Executed, is_pending, outstanding_up, settle, execute_scsi}
use wnbd.Emulated.Operation.{handle_srb_operation}
use wnbd.Emulated.Operation.Outcome.{handle_srb_operation-IsPermitted}

-- The SRB is complete and no queue has changed, or it is the last of the pending ones.
pub data Executes (d : Device) (srb : Srb) (x : Executed) : Type 0 where
  at_once :
      x.complete ≡ true
      → x.device.pending ≡ d.pending
      → x.device.submitted ≡ d.submitted
      → x.device.notified ≡ d.notified
      → Executes d srb x
  later :
      (e : Element)
      → x.complete ≡ false
      → x.device.pending ≡ d.pending ++ e ∷ []
      → x.device.submitted ≡ d.submitted
      → x.device.notified ≡ d.notified
      → e.srb ≡ record srb { srb_status = SrbStatus.aborted }
      → IsPermitted d (op_of srb.cdb) e
      → Executes d srb x

pending_status : (status : NtStatus) → is_pending status ≡ true → status ≡ NtStatus.pending
pending_status NtStatus.pending h = refl
pending_status status h = ground (arith, h)

not_pending : (status : NtStatus) → status ≡ NtStatus.pending → is_pending status ≡ false → ⊥
not_pending status e h = ground (arith, e, h)

settle-Executes :
    (env : PendEnv) (d : Device) (srb : Srb) (r : Pended)
    → Outcome
        (IsPermitted d (op_of srb.cdb))
        env
        (outstanding_up d)
        (record srb { srb_status = SrbStatus.aborted })
        r
    → Executes d srb (settle r)
unfolding settle
settle-Executes env d srb (status, srb', d') (inl h) =
    split-if (Executes d srb) (is_pending status) _ _
      (λ e. elim (h.status (pending_status status e)) [ ])
      (λ e. at_once refl h.pending h.submitted h.notified)
settle-Executes env d srb (status, srb', d') (inr h) =
    split-if (Executes d srb) (is_pending status) _ _
      (λ e. later h.element refl h.pending h.submitted h.notified h.srb_kept h.holds)
      (λ e. elim (not_pending status h.status e) [ ])

pub execute_scsi-Executes :
    (env : PendEnv) (d : Device) (srb : Srb)
    → IsBuffer srb.cdb
    → IsBuffer srb.data_buffer
    → IsMappable d
    → Executes d srb (execute_scsi env d srb)
unfolding execute_scsi
execute_scsi-Executes env d srb hc hb m =
    split-if (Executes d srb) d.hard_remove _ _ (λ e. at_once refl refl refl refl)
      (λ e.
        settle-Executes env d srb (handle_srb_operation env (outstanding_up d) srb)
          (handle_srb_operation-IsPermitted env (outstanding_up d) srb hc hb m))
