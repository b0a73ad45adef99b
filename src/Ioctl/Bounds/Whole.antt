-- ===== src/Ioctl/Bounds/Whole.antt =====
-- WnbdParseUserIOCTL of driver/userspace.c as a whole: its output fits.
use wnbd.Prelude.{ℕ, ◌^◌, ◌≤◌, ◌<◌, ◌≡◌, none, some}
use wnbd.Options.{Kernel}
use wnbd.Ioctl.{Ioctl, fetch_req, show, Buffer, Irp, IoctlEnv, Outcome, Adapter}
use wnbd.Ioctl.Check.{ioctl_of, fetch_command_size, name_end}
use wnbd.Ioctl.Bounds.{Fits}

-- The lengths that a caller may pass: below 2 ^ 32; and for FETCH_REQ and SHOW, whose handlers compare
-- the length with the size of a pointer, an output for a whole command, and an input with a whole name.
pub record IsCaller (irp : Irp) : Type 0 where
  pub is_ulong : irp.output_length < 2 ^ 32
  pub fetches :
      (b : Buffer)
      → irp.system_buffer ≡ some b
      → ioctl_of b.io_control_code ≡ fetch_req
      → fetch_command_size ≤ irp.output_length
  pub shows :
      (b : Buffer)
      → irp.system_buffer ≡ some b
      → ioctl_of b.io_control_code ≡ show
      → name_end ≤ irp.input_length

-- Up to which byte of the command a call wrote.
abbrev pub overwritten_of : {S : Type 0} → Outcome S → ℕ
overwritten_of none = 0
overwritten_of (some (ans, a)) = ans.overwritten

module _ (k : Kernel) (env : IoctlEnv) (irp : Irp) (a : Adapter k.State) where
  -- The two parts of the theorem.
  abbrev pub IsContained : Outcome k.State → Type 0
  IsContained r = Fits irp r × (overwritten_of r ≤ irp.input_length)
