-- ===== src/Emulated/Modes/Bounds.antt =====
-- The vital product data pages and MODE SENSE of driver/scsi_operation.c stay in the host's buffer.
use wnbd.Prelude.{
  drop, inr, inl, Option-cases, length-drop, length-replicate, ◌==◌, either-if, ◌%◌, length-append,
  length, ℕ, ◌≤◌, ◌≡◌, refl, Option, none, some, List, arith,
}
use wnbd.Emulated.Pages.Bounds.{
  set_characteristics-IsInBounds, set_device_identifier-IsInBounds, set_provisioning-IsInBounds,
  set_block_limits-IsInBounds, set_serial_number-IsInBounds, set_supported_pages-IsInBounds,
  if_short, keeps-IsInBounds, size_of, IsInBounds,
}
use wnbd.Emulated.{drop, replicate, Answer, zeroed}
use wnbd.Emulated.Pages.{
  page_identifiers, characteristics_size, page_characteristics, provisioning_size,
  page_provisioning, block_limits_size, page_limits, page_serial, page_supported,
  process_extended_inquiry,
}
use wnbd.Emulated.Modes.{
  inquiry, inquiry_buffer, inquiry_command, mode_command, mode_sense, mode_buffer,
}
use wnbd.Types.{Device, Srb}
use wnbd.Wdk.{SrbStatus, ScsiOp}
use wnbd.Cdb.{opcode, as_byte}

process_extended_inquiry-IsInBounds :
    (d : Device) (srb : Srb) (page : ℕ) (buffer : List ℕ)
    → srb.data_transfer_length ≤ length buffer
    → size_of srb.data_buffer ≡ length buffer
    → IsInBounds srb (process_extended_inquiry d srb page buffer)
unfolding process_extended_inquiry
process_extended_inquiry-IsInBounds d srb page buffer h e =
    let same = e in
    let n = length buffer in
    let short : Answer = (SrbStatus.data_overrun, record srb { data_buffer = some buffer }) in
    let k : IsInBounds srb short = keeps-IsInBounds srb n same SrbStatus.data_overrun buffer refl in
    let P : Answer → Type 0 = IsInBounds srb in
    either-if P (page == page_supported) _ _
      (if_short srb n same _ short _ k (set_supported_pages-IsInBounds srb n same d h buffer refl))
      (either-if P (page == page_serial) _ _
        (set_serial_number-IsInBounds srb n same d h buffer refl)
        (either-if P (page == page_limits) _ _
          (if_short srb n same block_limits_size short _ k
            (set_block_limits-IsInBounds srb n same d h buffer refl))
          (either-if P (page == page_provisioning) _ _
            (if_short srb n same provisioning_size short _ k
              (set_provisioning-IsInBounds srb n same d h buffer refl))
            (either-if P (page == page_characteristics) _ _
              (if_short srb n same characteristics_size short _ k
                (set_characteristics-IsInBounds srb n same d h buffer refl))
              (either-if P (page == page_identifiers) _ _
                (set_device_identifier-IsInBounds srb n same d h buffer refl)
                (keeps-IsInBounds srb n same SrbStatus.success buffer refl))))))

length-zeroed : (n : ℕ) (b : List ℕ) → n ≤ length b → length (zeroed n b) ≡ length b
length-zeroed n b h = omega (
  arith,
  h,
  length-append (replicate n 0) (drop n b),
  length-replicate {A = ℕ} n 0,
  length-drop n b,
)

inquiry_buffer-IsInBounds :
    (revision : List ℕ) (d : Device) (srb : Srb) (cdb : List ℕ) (buffer : Option (List ℕ))
    → srb.data_buffer ≡ buffer
    → as_byte cdb 1 % 2 ≡ 1
    → srb.data_transfer_length ≤ size_of buffer
    → IsInBounds srb (inquiry_buffer revision d srb cdb buffer)
unfolding inquiry_buffer inquiry_command
inquiry_buffer-IsInBounds revision d srb cdb none e odd h = ground (arith, e)
inquiry_buffer-IsInBounds revision d srb cdb (some b) e odd h =
    let z = zeroed srb.data_transfer_length b in
    let l : length z ≡ length b = length-zeroed srb.data_transfer_length b h in
    ground (
      arith,
      odd,
      process_extended_inquiry-IsInBounds d srb (as_byte cdb 2) z (omega (arith, h, l))
          (ground (arith, e, l)),
    )

-- An INQUIRY for a vital product data page, whatever page it asks for, writes only inside the host's
-- buffer, which is as long as its transfer length or longer, and reports no more bytes than that
-- length.
pub inquiry-IsInBounds :
    (revision : List ℕ) (d : Device) (srb : Srb) (cdb : List ℕ)
    → as_byte cdb 1 % 2 ≡ 1
    → srb.data_transfer_length ≤ size_of srb.data_buffer
    → IsInBounds srb (inquiry revision d srb cdb)
unfolding inquiry
inquiry-IsInBounds revision d srb cdb odd h =
    inquiry_buffer-IsInBounds revision d srb cdb srb.data_buffer refl odd h

mode_command-IsInBounds :
    (d : Device) (srb : Srb) (cdb buffer : List ℕ) (op : ScsiOp)
    → srb.data_buffer ≡ some buffer
    → srb.data_transfer_length ≤ length buffer
    → IsInBounds srb (mode_command d srb cdb buffer op)
unfolding mode_command
mode_command-IsInBounds d srb cdb buffer op e long = ground (arith)

-- MODE SENSE (6 and 10) writes only inside the host's buffer, which is as long as its transfer length
-- or longer, and reports no more bytes than that length.
pub mode_sense-IsInBounds :
    (d : Device) (srb : Srb) (cdb : List ℕ)
    → srb.data_transfer_length ≤ size_of srb.data_buffer
    → IsInBounds srb (mode_sense d srb cdb)
unfolding mode_sense mode_buffer
mode_sense-IsInBounds d srb cdb h = elim (Option-cases srb.data_buffer) [
  | inl e ↦ ground (arith, e)
  | inr (b, e) ↦
      let k = mode_command-IsInBounds d srb cdb b (opcode cdb) e (ground (arith, h, e)) in
      ground (arith, e, k)
]
