-- ===== src/Emulated/Pages/Served.antt =====
-- The vital product data pages that driver/scsi_operation.c advertises.
use wnbd.Prelude.{inr, inl, Bool-cases, ℕ, ◌≤◌, ◌≡◌, List, arith, All}
use wnbd.Wdk.{SrbStatus}
use wnbd.Types.{Device, Srb}
use wnbd.Cdb.{as_byte}
use wnbd.Emulated.{Answer}
use wnbd.Emulated.Capacity.{bytes_of}
use wnbd.Emulated.Pages.{
  set_device_identifier, set_characteristics, set_provisioning, unmap_limits, set_block_limits,
  set_serial_number, set_supported_pages, page_list, process_extended_inquiry,
}

-- The answer is the page with that code.
abbrev pub IsPage : ℕ → Answer → Type 0
IsPage code (status, srb) = (status ≡ SrbStatus.success) × (as_byte (bytes_of srb) 1 ≡ code)

-- Every page that the page of supported pages lists is answered with success and with that page's
-- code, if the host asks for 264 bytes at least.
pub page_list-IsPage :
    (d : Device) (srb : Srb) (buffer : List ℕ)
    → 264 ≤ srb.data_transfer_length
    → All
        (λ code. IsPage code (process_extended_inquiry d srb code buffer))
        (page_list d.properties.flags.naa_id_specified)
unfolding process_extended_inquiry set_supported_pages set_serial_number set_block_limits
    unmap_limits set_provisioning set_characteristics set_device_identifier
page_list-IsPage d srb buffer h =
    let flags = d.properties.flags in
    elim (Bool-cases flags.naa_id_specified) [
      | inl e ↦ ground (arith, h, e)
      | inr e ↦ ground (arith, h, e)
    ]
