-- ===== src/Ioctl/Bounds.antt =====
-- What the handlers of driver/userspace.c write fits the caller's output buffer.
pub mod Handlers
pub mod Settings
pub mod Whole
use wnbd.Prelude.{
  ℕ, zero, suc, ◌+◌, ◌-◌, ◌*◌, ◌/◌, ◌%◌, ◌^◌, ◌≤◌, ◌<◌, ◌≡◌, refl, Bool, true, false, not, ◌||◌,
  Option, none, some, List, [], ◌∷◌, ◌++◌, ltb, ◌==◌, arith, split-if, if◌then◌else◌, length,
  length-append,
}
use wnbd.Wdk.{NtStatus, is_failure}
use wnbd.Connections.{Disk, Extension, max_disks, find_by_conn_id}
use wnbd.Options.{Kernel, DriverOption, OptValue, get_persistent_opt}
use wnbd.Options.Table.{
  no_value, persistent_entry, list_persistent, list_size, list_drv_opt, set_drv_opt,
}
use wnbd.Types.{Properties}
use wnbd.Request.Send.{Fetch}
use wnbd.Ioctl.{
  Ioctl, RawProperties, ConnectionInfo, Output, no_output, list_output, Irp, Answer, IoctlEnv,
  Outcome, Adapter,
}
use wnbd.Ioctl.Check.{
  output_size, connection_info_size, list_head_size, fetch_command_size, bad_input, bad_output,
  with_status,
}
use wnbd.Ioctl.Mapping.{created_output}
use wnbd.Ioctl.Query.{room, fill_list, list_end, required_size, list_ioctl, enumerate_connections}

-- A call still waits, or wrote nothing, or reports at least what it wrote and at most the length of the
-- output buffer.
pub data Fits {S : Type 0} (irp : Irp) (r : Outcome S) : Type 0 where
  waiting : r ≡ none → Fits irp r
  silent :
      (ans : Answer) (a' : Adapter S) → r ≡ some (ans, a') → ans.output ≡ no_output → Fits irp r
  within :
      (ans : Answer) (a' : Adapter S)
      → r ≡ some (ans, a')
      → output_size ans.output ≤ ans.information
      → ans.information ≤ irp.output_length
      → Fits irp r

created_output-size : (o : Option Disk) → output_size (created_output o) ≤ connection_info_size
unfolding output_size
created_output-size none = omega arith
created_output-size (some d) = omega arith

module _ {S : Type 0} (irp : Irp) (a : Adapter S) where
  -- A status alone.
  pub quiet : (status : NtStatus) → Fits irp (with_status irp status a)
  quiet status = silent _ _ refl refl

  fill_list-room : (ds : List Disk) (n : ℕ) → length (fill_list a ds n).0 ≤ n
  unfolding fill_list
  fill_list-room [] n = omega arith
  fill_list-room (d ∷ ds) zero = omega arith
  fill_list-room (d ∷ ds) (suc n) = omega (arith, fill_list-room ds n)

  list_end-Fits :
      (r : List ConnectionInfo × List Disk)
      → connection_info_size * length r.0 + list_head_size ≤ irp.output_length
      → Fits irp (list_end a r)
  unfolding list_end output_size
  list_end-Fits (entries, left) h = within _ _ refl (omega arith) h

  pub list_ioctl-Fits :
      irp.output_length < 2 ^ 32 → a.ext.device_count ≤ max_disks → Fits irp (list_ioctl irp a)
  unfolding list_ioctl enumerate_connections
  list_ioctl-Fits len count =
      split-if (Fits irp) (bad_output irp (required_size a.ext)) _ _ (λ h. silent _ _ refl refl)
        (λ h.
          let fill : length (fill_list a a.ext.disks (room irp)).0 ≤ room irp =
            fill_list-room a.ext.disks (room irp) in
          let big : list_head_size ≤ irp.output_length = ground (arith, h, count) in
          list_end-Fits (fill_list a a.ext.disks (room irp)) (omega (arith, fill, big, len)))
