-- ===== src/Examples/Commands.antt =====
-- The emulated SCSI commands on concrete disks and buffers.
use wnbd.Prelude.{ℕ, ◌≡◌, refl, some, List, [], ◌∷◌, ◌++◌, arith, replicate, All, take, drop}
use wnbd.Wdk.{SrbStatus}
use wnbd.Types.{Srb}
use wnbd.Cdb.{as_byte}
use wnbd.Emulated.Capacity.{bytes_of}
use wnbd.Emulated.Pages.{page_list, process_extended_inquiry}
use wnbd.Emulated.Pages.Bounds.{IsInBounds}
use wnbd.Emulated.Pages.Served.{IsPage, page_list-IsPage}
use wnbd.Emulated.Modes.{inquiry, mode_sense}
use wnbd.Emulated.Modes.Bounds.{inquiry-IsInBounds}
use wnbd.Emulated.Modes.Agree.{mode_sense-Agrees}
use wnbd.Emulated.Operation.{handle_srb_operation}
use wnbd.Emulated.Operation.Outcome.{handle_srb_operation-IsPermitted}
use wnbd.Request.Pend.Outcome.{Outcome}
use wnbd.Request.Pend.Bounds.{IsPermitted, op_of}
use wnbd.Examples.{fresh_device, fresh_device-IsMappable, read_srb, pend_env}

-- INQUIRY for the serial number, and the two MODE SENSE commands for the caching page.
abbrev inquiry_cdb : List ℕ
inquiry_cdb = 0x12 ∷ 1 ∷ 0x80 ∷ 0 ∷ 255 ∷ 0 ∷ []

abbrev mode6_cdb : List ℕ
mode6_cdb = 0x1a ∷ 0 ∷ 8 ∷ 0 ∷ 255 ∷ 0 ∷ []

abbrev mode10_cdb : List ℕ
mode10_cdb = 0x5a ∷ 0 ∷ 8 ∷ 0 ∷ 0 ∷ 0 ∷ 0 ∷ 0 ∷ 255 ∷ 0 ∷ []

abbrev zeros : List ℕ
zeros = replicate 20 0 ++ replicate 244 0

abbrev host_srb : List ℕ → Srb
host_srb cdb = record read_srb {
  cdb = some cdb;
  data_buffer = some zeros;
  data_transfer_length = 264;
}

page_list-IsPage_example :
    All
      (λ code.
        IsPage code (process_extended_inquiry fresh_device (host_srb inquiry_cdb) code zeros))
      (page_list fresh_device.properties.flags.naa_id_specified)
page_list-IsPage_example = page_list-IsPage fresh_device (host_srb inquiry_cdb) zeros (omega arith)

inquiry-IsInBounds_example :
    IsInBounds
      (host_srb inquiry_cdb)
      (inquiry pend_env.revision fresh_device (host_srb inquiry_cdb) inquiry_cdb)
inquiry-IsInBounds_example =
    inquiry-IsInBounds pend_env.revision fresh_device (host_srb inquiry_cdb) inquiry_cdb refl
      (omega arith)

done : (mode_sense fresh_device (host_srb mode6_cdb) mode6_cdb).0 ≡ SrbStatus.success
unfolding mode_sense
done = refl

mode_sense-Agrees_example :
    let b6 = bytes_of (mode_sense fresh_device (host_srb mode6_cdb) mode6_cdb).1 in
    let b10 = bytes_of (mode_sense fresh_device (host_srb mode6_cdb) mode10_cdb).1 in
    ((mode_sense fresh_device (host_srb mode6_cdb) mode10_cdb).0 ≡ SrbStatus.success)
    × (take 12 (drop 4 b6) ≡ take 12 (drop 8 b10))
    × (as_byte b6 2 ≡ as_byte b10 3)
mode_sense-Agrees_example =
    mode_sense-Agrees fresh_device (host_srb mode6_cdb) mode6_cdb mode10_cdb (replicate 244 0) refl
      refl refl refl (omega arith) done

handle_srb_operation-IsPermitted_example :
    Outcome
      (IsPermitted fresh_device (op_of read_srb.cdb))
      pend_env
      fresh_device
      (record read_srb { srb_status = SrbStatus.aborted })
      (handle_srb_operation pend_env fresh_device read_srb)
handle_srb_operation-IsPermitted_example =
    handle_srb_operation-IsPermitted pend_env fresh_device read_srb (ground arith) (ground arith)
      fresh_device-IsMappable
