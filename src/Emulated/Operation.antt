-- ===== src/Emulated/Operation.antt =====
-- WnbdHandleSrbOperation of driver/scsi_operation.c, with the commands that it answers at once.
pub mod Outcome
use wnbd.Prelude.{ℕ, ◌%◌, Bool, true, false, not, Option, none, some, List, ◌==◌, if◌then◌else◌}
use wnbd.Wdk.{NtStatus, SrbStatus, ScsiOp}
use wnbd.Types.{Device, Srb}
use wnbd.Cdb.{as_byte, opcode}
use wnbd.Emulated.{Answer, read_capacity}
use wnbd.Emulated.Modes.{inquiry, mode_sense, report_luns}
use wnbd.Request.Pend.{PendEnv, Pended, pend_operation}

-- SrbSetSrbStatus with the status of an answer; the function returns STATUS_SUCCESS.
abbrev pub settled : Device → Answer → Pended
settled d (status, srb) = (NtStatus.success, record srb { srb_status = status }, d)

abbrev rejected : NtStatus → Device → Srb → Pended
rejected status d srb = (status, record srb { srb_status = SrbStatus.invalid_request }, d)

abbrev pend : PendEnv → Device → Srb → Pended
pend env d srb = pend_operation env d (record srb { srb_status = SrbStatus.aborted })

-- The switch of WnbdHandleSrbOperation.
unfoldable pub handle_command : PendEnv → Device → Srb → List ℕ → ScsiOp → Pended
unfolding inquiry mode_sense read_capacity report_luns pend_operation
handle_command env d srb cdb ScsiOp.read6 = pend env d srb
handle_command env d srb cdb ScsiOp.read10 = pend env d srb
handle_command env d srb cdb ScsiOp.read12 = pend env d srb
handle_command env d srb cdb ScsiOp.read16 = pend env d srb
handle_command env d srb cdb ScsiOp.write6 = pend env d srb
handle_command env d srb cdb ScsiOp.write10 = pend env d srb
handle_command env d srb cdb ScsiOp.write12 = pend env d srb
handle_command env d srb cdb ScsiOp.write16 = pend env d srb
handle_command env d srb cdb ScsiOp.synchronize_cache = pend env d srb
handle_command env d srb cdb ScsiOp.synchronize_cache16 = pend env d srb
handle_command env d srb cdb ScsiOp.persistent_reserve_in = pend env d srb
handle_command env d srb cdb ScsiOp.persistent_reserve_out = pend env d srb
handle_command env d srb cdb ScsiOp.unmap = pend env d srb
handle_command env d srb cdb ScsiOp.inquiry = settled d (inquiry env.revision d srb cdb)
handle_command env d srb cdb ScsiOp.mode_sense = settled d (mode_sense d srb cdb)
handle_command env d srb cdb ScsiOp.mode_sense10 = settled d (mode_sense d srb cdb)
handle_command env d srb cdb ScsiOp.read_capacity = settled d (read_capacity d srb cdb)
handle_command env d srb cdb ScsiOp.read_capacity16 =
    if as_byte cdb 1 % 32 == 16
    then settled d (read_capacity d srb cdb)
    else rejected NtStatus.success d srb
handle_command env d srb cdb ScsiOp.verify = settled d (SrbStatus.success, srb)
handle_command env d srb cdb ScsiOp.test_unit_ready = settled d (SrbStatus.success, srb)
handle_command env d srb cdb ScsiOp.report_luns = settled d (report_luns srb)
handle_command env d srb cdb ScsiOp.unknown = rejected NtStatus.success d srb

unfoldable pub handle_cdb : PendEnv → Device → Srb → Option (List ℕ) → Pended
unfolding handle_command
handle_cdb env d srb none = rejected NtStatus.invalid_parameter d srb
handle_cdb env d srb (some cdb) =
    if d.hard_remove
    then rejected NtStatus.invalid_parameter d srb
    else handle_command env d srb cdb (opcode cdb)

-- WnbdHandleSrbOperation
unfoldable pub handle_srb_operation : PendEnv → Device → Srb → Pended
unfolding handle_cdb
handle_srb_operation env d srb = handle_cdb env d srb srb.cdb
