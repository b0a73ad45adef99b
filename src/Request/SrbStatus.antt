-- ===== src/Request/SrbStatus.antt =====
-- SetSrbStatus of driver/util.c: a WNBD status written into an SRB and its sense buffer.
use wnbd.Prelude.{◌/◌, ◌%◌, ◌^◌, Bool, true, false, ◌&&◌, not, none, some, ◌==◌, leb, if◌then◌else◌}
use wnbd.Wdk.{
  error, check_condition, errorcode_fixed_current, sense_data_size, sense_additional_length,
}
use wnbd.Types.{WnbdStatus, Sense, Srb}

-- The sense buffer after the write. `Information` is four bytes, and the eight that the code stores
-- there also cover AdditionalSenseLength and the first bytes of CommandSpecificInformation.
unfoldable pub sense_of : WnbdStatus → Sense
sense_of s = record {
  error_code = errorcode_fixed_current;
  valid = s.information_valid;
  sense_key = s.sense_key;
  asc = s.asc;
  ascq = s.ascq;
  information = if s.information_valid then s.information % 2 ^ 32 else 0;
  additional_length =
      if s.information_valid then s.information / 2 ^ 32 % 256 else sense_additional_length;
  command_specific = if s.information_valid then s.information / 2 ^ 40 % 2 ^ 24 else 0;
}

-- The guard of the sense write, but for the buffer's presence.
abbrev pub autosense_allowed : Srb → Bool
autosense_allowed srb = leb sense_data_size srb.sense_info_length && not srb.disable_autosense

write_sense : Srb → WnbdStatus → Srb
unfolding sense_of
write_sense srb s = record srb {
  sense_info = some (sense_of s);
  scsi_status = if s.scsi_status == 0 then check_condition else s.scsi_status;
  srb_status = error true;
}

no_sense : Srb → WnbdStatus → Srb
no_sense srb s = record srb { scsi_status = s.scsi_status; srb_status = error false }

-- SetSrbStatus
unfoldable pub set_status : Srb → WnbdStatus → Srb
unfolding write_sense no_sense
set_status srb s = elim srb.sense_info [
  | none ↦ no_sense srb s
  | some sense ↦ if autosense_allowed srb then write_sense srb s else no_sense srb s
]
