-- ===== src/Request/Execute.antt =====
-- WnbdExecuteScsiFunction, driver/scsi_function.c, once the device is found.
use wnbd.Prelude.{Bool, true, false, if◌then◌else◌}
use wnbd.Word.{inc64, dec64}
use wnbd.Wdk.{NtStatus, SrbStatus}
use wnbd.Types.{Device, Srb}
use wnbd.Request.Pend.{PendEnv, Pended}
use wnbd.Emulated.Operation.{handle_srb_operation}

-- What the function returns: Complete, the SRB status, the SRB and the device.
pub record Executed : Type 0 where
  pub complete : Bool
  pub srb_status : SrbStatus
  pub srb : Srb
  pub device : Device

abbrev pub is_pending : NtStatus → Bool
is_pending NtStatus.pending = true
is_pending _ = false

abbrev pub outstanding_down : Device → Device
outstanding_down d = record d {
  stats = record d.stats { outstanding_io_count = dec64 d.stats.outstanding_io_count };
}

abbrev pub outstanding_up : Device → Device
outstanding_up d = record d {
  stats = record d.stats { outstanding_io_count = inc64 d.stats.outstanding_io_count };
}

-- What follows the call of WnbdHandleSrbOperation.
unfoldable pub settle : Pended → Executed
settle (status, srb, d) =
    if is_pending status
    then record { complete = false; srb_status = SrbStatus.pending; srb = srb; device = d }
    else record {
      complete = true;
      srb_status = srb.srb_status;
      srb = srb;
      device = outstanding_down d;
    }

-- WnbdExecuteScsiFunction for a device that was found.
unfoldable pub execute_scsi : PendEnv → Device → Srb → Executed
unfolding handle_srb_operation settle
execute_scsi env d srb =
    if d.hard_remove
    then record { complete = true; srb_status = SrbStatus.no_device; srb = srb; device = d }
    else settle (handle_srb_operation env (outstanding_up d) srb)
