-- ===== src/Emulated/Modes/Agree.antt =====
-- The two MODE SENSE commands of driver/scsi_operation.c.
use wnbd.Prelude.{
  ◌&&◌, ◌%◌, ◌||◌, inr, ◌==◌, inl, ◌/◌, ap, Bool-cases, ℕ, ◌≤◌, ◌≡◌, some, List, ◌++◌, arith,
  replicate, take, drop,
}
use wnbd.Wdk.{SrbStatus, ScsiOp}
use wnbd.Types.{Device, Srb}
use wnbd.Cdb.{as_byte, opcode}
use wnbd.Emulated.Capacity.{bytes_of}
use wnbd.Emulated.Modes.{
  return_all, not, changeable_values, Answer, mode_sense, mode_buffer, mode_command, mode_page,
  header6, header10, check_mode_sense, page_caching,
}

abbrev Agree : Answer → Answer → Type 0
Agree r6 r10 =
    (r6.0 ≡ r10.0)
    × (r6.0 ≡ SrbStatus.success
        → (take 12 (drop 4 (bytes_of r6.1)) ≡ take 12 (drop 8 (bytes_of r10.1)))
          × (as_byte (bytes_of r6.1) 2 ≡ as_byte (bytes_of r10.1) 3))

mode_page-Agree :
    (d : Device) (srb : Srb) (cdb6 cdb10 rest : List ℕ)
    → check_mode_sense cdb6 page_caching ≡ check_mode_sense cdb10 page_caching
    → 20 ≤ srb.data_transfer_length
    → Agree
        (mode_page d srb cdb6 (replicate 20 0 ++ rest) (header6 d))
        (mode_page d srb cdb10 (replicate 20 0 ++ rest) (header10 d))
unfolding mode_page
mode_page-Agree d srb cdb6 cdb10 rest same long =
    elim (Bool-cases (check_mode_sense cdb6 page_caching)) [
      | inl e ↦ (ground (arith, same, e), λ f. ground (arith, same, e, f))
      | inr e ↦ (
        ground (arith, same, e, long),
        λ f. (ground (arith, same, e, long), ground (arith, same, e, long)),
      )
    ]

-- Into a zeroed buffer of 20 bytes or more, if MODE SENSE(6) succeeds, MODE SENSE(10) for the same
-- page succeeds too, with the same caching page and the same device-specific parameter.
pub mode_sense-Agrees :
    (d : Device) (srb : Srb) (cdb6 cdb10 rest : List ℕ)
    → opcode cdb6 ≡ ScsiOp.mode_sense
    → opcode cdb10 ≡ ScsiOp.mode_sense10
    → as_byte cdb6 2 ≡ as_byte cdb10 2
    → srb.data_buffer ≡ some (replicate 20 0 ++ rest)
    → 20 ≤ srb.data_transfer_length
    → (mode_sense d srb cdb6).0 ≡ SrbStatus.success
    → let b6 = bytes_of (mode_sense d srb cdb6).1 in
      let b10 = bytes_of (mode_sense d srb cdb10).1 in
      ((mode_sense d srb cdb10).0 ≡ SrbStatus.success)
      × (take 12 (drop 4 b6) ≡ take 12 (drop 8 b10))
      × (as_byte b6 2 ≡ as_byte b10 3)
unfolding mode_sense mode_buffer mode_command
mode_sense-Agrees d srb cdb6 cdb10 rest o6 o10 same zero long done =
    let check : check_mode_sense cdb6 page_caching ≡ check_mode_sense cdb10 page_caching =
      ap
        (λ b.
          ((b / 64 == changeable_values)
            || (not (b % 64 == page_caching) && not (b % 64 == return_all))))
        same in
    let (status, h) = mode_page-Agree d srb cdb6 cdb10 rest check long in
    let ok6 : (mode_page d srb cdb6 (replicate 20 0 ++ rest) (header6 d)).0 ≡ SrbStatus.success =
      ground (arith, o6, zero, done) in
    ground (arith, o6, o10, zero, status, ok6, h ok6)
