-- ===== src/Emulated/Operation/Outcome.antt =====
-- What WnbdHandleSrbOperation of driver/scsi_operation.c does to a disk's queues.
use wnbd.Prelude.{◌%◌, either-if, ℕ, ◌≢◌, refl, Option, none, some, List, inl, ◌==◌}
use wnbd.Wdk.{NtStatus, SrbStatus, ScsiOp}
use wnbd.Types.{Device, Srb}
use wnbd.Cdb.{as_byte, opcode}
use wnbd.Request.Pend.{PendEnv, Pended, pend_operation}
use wnbd.Request.Pend.Outcome.{Outcome, Refused}
use wnbd.Request.Pend.Bounds.{IsBuffer, IsMappable, IsPermitted, op_of, pend_operation-IsPermitted}
use wnbd.Emulated.Operation.{handle_command, handle_cdb, handle_srb_operation}

Refused-same :
    (d : Device) (status : NtStatus) (srb : Srb)
    → status ≢ NtStatus.pending
    → Refused d (status, srb, d)
Refused-same d status srb h = record {
  status = h;
  properties = refl;
  pending = refl;
  submitted = refl;
  buckets = refl;
  pool = refl;
  freed = refl;
  notified = refl;
  hard_remove = refl;
  unsubmitted = refl;
  pending_submitted = refl;
  aborted_unsubmitted = refl;
  aborted_submitted = refl;
  outstanding = refl;
}

module _ (env : PendEnv) (d : Device) (srb : Srb) where
  abbrev queued_srb : Srb
  queued_srb = record srb { srb_status = SrbStatus.aborted }

  abbrev IsHandled : ScsiOp → Pended → Type 0
  IsHandled op r = Outcome (IsPermitted d op) env d queued_srb r

  answered-IsHandled : (op : ScsiOp) (srb' : Srb) → IsHandled op (NtStatus.success, srb', d)
  answered-IsHandled op srb' = inl (Refused-same d NtStatus.success srb' (λ e. cc))

  command-IsHandled :
      (cdb : List ℕ) (op : ScsiOp)
      → IsHandled op (pend_operation env d queued_srb)
      → IsHandled op (handle_command env d srb cdb op)
  unfolding handle_command
  command-IsHandled cdb ScsiOp.inquiry h = answered-IsHandled ScsiOp.inquiry _
  command-IsHandled cdb ScsiOp.mode_sense h = answered-IsHandled ScsiOp.mode_sense _
  command-IsHandled cdb ScsiOp.mode_sense10 h = answered-IsHandled ScsiOp.mode_sense10 _
  command-IsHandled cdb ScsiOp.read_capacity h = answered-IsHandled ScsiOp.read_capacity _
  command-IsHandled cdb ScsiOp.read_capacity16 h =
      either-if (IsHandled ScsiOp.read_capacity16) (as_byte cdb 1 % 32 == 16) _ _
        (answered-IsHandled ScsiOp.read_capacity16 _) (answered-IsHandled ScsiOp.read_capacity16 _)
  command-IsHandled cdb ScsiOp.verify h = answered-IsHandled ScsiOp.verify _
  command-IsHandled cdb ScsiOp.test_unit_ready h = answered-IsHandled ScsiOp.test_unit_ready _
  command-IsHandled cdb ScsiOp.report_luns h = answered-IsHandled ScsiOp.report_luns _
  command-IsHandled cdb ScsiOp.unknown h = answered-IsHandled ScsiOp.unknown _
  command-IsHandled cdb ScsiOp.read6 h = h
  command-IsHandled cdb ScsiOp.read10 h = h
  command-IsHandled cdb ScsiOp.read12 h = h
  command-IsHandled cdb ScsiOp.read16 h = h
  command-IsHandled cdb ScsiOp.write6 h = h
  command-IsHandled cdb ScsiOp.write10 h = h
  command-IsHandled cdb ScsiOp.write12 h = h
  command-IsHandled cdb ScsiOp.write16 h = h
  command-IsHandled cdb ScsiOp.synchronize_cache h = h
  command-IsHandled cdb ScsiOp.synchronize_cache16 h = h
  command-IsHandled cdb ScsiOp.persistent_reserve_in h = h
  command-IsHandled cdb ScsiOp.persistent_reserve_out h = h
  command-IsHandled cdb ScsiOp.unmap h = h

  cdb-IsHandled :
      (cdb : Option (List ℕ))
      → IsHandled (op_of cdb) (pend_operation env d queued_srb)
      → IsHandled (op_of cdb) (handle_cdb env d srb cdb)
  unfolding handle_cdb
  cdb-IsHandled none h = inl (Refused-same d NtStatus.invalid_parameter _ (λ e. cc))
  cdb-IsHandled (some cdb) h =
      either-if (IsHandled (opcode cdb)) d.hard_remove _ _
        (inl (Refused-same d NtStatus.invalid_parameter _ (λ e. cc)))
        (command-IsHandled cdb (opcode cdb) h)

-- On a device whose size in bytes fits 64 bits, any SCSI command with any bytes for its CDB and its
-- buffer is either answered or refused, and then no queue, no pool and no gauge has changed, or is
-- queued last by one new element, with the SRB status "aborted". Its byte range lies in the disk, but
-- for a persistent reservation, which has offset 0 and a length of at most 2 MiB.
pub handle_srb_operation-IsPermitted :
    (env : PendEnv) (d : Device) (srb : Srb)
    → IsBuffer srb.cdb
    → IsBuffer srb.data_buffer
    → IsMappable d
    → Outcome
        (IsPermitted d (op_of srb.cdb))
        env
        d
        (record srb { srb_status = SrbStatus.aborted })
        (handle_srb_operation env d srb)
unfolding handle_srb_operation
handle_srb_operation-IsPermitted env d srb hc hb m =
    cdb-IsHandled env d srb srb.cdb
      (pend_operation-IsPermitted env d (record srb { srb_status = SrbStatus.aborted }) hc hb m)
