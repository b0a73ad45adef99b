-- ===== src/Miniport/StartIo.antt =====
-- WnbdHwStartIo of driver/scsi_driver_extensions.c with the functions of driver/scsi_function.c that it
-- calls.
pub mod Executes
pub mod Ends
use wnbd.Prelude.{
  ℕ, ◌+◌, ◌-◌, ◌≤◌, ◌≡◌, refl, sym, ap, subst, ◌∙◌, Bool, true, false, not, ◌&&◌, Option, none,
  some, List, [], ◌∷◌, leb, ◌==◌, arith, if◌then◌else◌, split-if,
}
use wnbd.Wdk.{SrbStatus}
use wnbd.Types.{Device, Srb}
use wnbd.Connections.{Disk, Extension}
use wnbd.Request.Complete.{DrainOptions, drain_both}
use wnbd.Request.Pend.{PendEnv}
use wnbd.Request.Execute.{Executed, execute_scsi}
use wnbd.Ioctl.{Adapter}
use wnbd.Ioctl.Mapping.{update}
use wnbd.Miniport.{Address, find_device_by_addr, leave_device}
use wnbd.Miniport.Firmware.{Layout, IoControl, process_srb_ioctl}

-- SRB_FUNCTION_*
pub data SrbFunction : Type 0 where
  execute_function reset_logical_unit reset_device abort_command pnp_function : SrbFunction
  io_control flush_function shutdown_function wmi reset_bus other_function : SrbFunction

-- The PnP part of an SRB: whether PnPAction is StorQueryCapabilities, whether SrbPnPFlags has
-- SRB_PNP_FLAGS_ADAPTER_REQUEST.
pub record PnpPart : Type 0 where
  pub is_query_capabilities : Bool
  pub is_adapter_request : Bool

pub record Request : Type 0 where
  pub function : SrbFunction
  pub address : Address
  pub srb : Srb
  pub pnp : PnpPart
  pub control : IoControl

-- `capabilities_size` is sizeof(STOR_DEVICE_CAPABILITIES_EX).
pub record StartEnv : Type 0 where
  pub pend : PendEnv
  pub drain : DrainOptions
  pub now : ℕ
  pub layout : Layout
  pub capabilities_size : ℕ

-- What WnbdPNPFunction sets in the zeroed STOR_DEVICE_CAPABILITIES_EX of the data buffer.
pub record Capabilities : Type 0 where
  pub default_write_cache_enabled : Bool
  pub silent_install : Bool
  pub surprise_removal_ok : Bool
  pub removable : Bool
  pub eject_supported : Bool

-- What a call leaves: the SRB if StorPort is told that it is complete, with its status; the addresses
-- whose requests StorPortCompleteRequest was asked to complete; the capabilities that were filled in; and
-- the adapter.
pub record Started (S : Type 0) : Type 0 where
  pub completed : Option Srb
  pub resets : List Address
  pub capabilities : Option Capabilities
  pub adapter : Adapter S

-- What a function returns: the SRB status, Complete, the SRB, the addresses, the capabilities and the
-- adapter.
pub record Ended (S : Type 0) : Type 0 where
  pub srb_status : SrbStatus
  pub complete : Bool
  pub srb : Srb
  pub resets : List Address
  pub capabilities : Option Capabilities
  pub adapter : Adapter S

abbrev pub ended : {S : Type 0} → Request → SrbStatus → Adapter S → Ended S
ended r status a = record {
  srb_status = status;
  complete = true;
  srb = r.srb;
  resets = [];
  capabilities = none;
  adapter = a;
}

-- WnbdPNPFunction: the query that it answers, its status and what it fills in.
abbrev pub is_answered : ℕ → Request → Bool
is_answered size r =
    r.pnp.is_query_capabilities
    && not r.pnp.is_adapter_request
    && leb size r.srb.data_transfer_length

unfoldable pub pnp_status : ℕ → Request → SrbStatus
pnp_status size r = if is_answered size r then SrbStatus.success else SrbStatus.invalid_request

unfoldable pub pnp_capabilities : ℕ → Request → Option Capabilities
pnp_capabilities size r =
    if is_answered size r
    then some (record {
      default_write_cache_enabled = true;
      silent_install = true;
      surprise_removal_ok = false;
      removable = true;
      eject_supported = true;
    })
    else none

module _ {S : Type 0} (env : StartEnv) where
  -- DrainDeviceQueues
  unfoldable pub drain_found : Request → Adapter S → Option Disk × Extension → Ended S
  unfolding drain_both leave_device
  drain_found r a (none, ext) = ended r SrbStatus.no_device (record a { ext = ext })
  drain_found r a (some d, ext) = ended r SrbStatus.success (
      leave_device (record a { ext = ext }) d
        (drain_both true env.drain env.now (a.devices d.connection_id)))

  -- WnbdAbortFunction and WnbdResetLogicalUnitFunction
  unfoldable pub drain_device_queues : Request → Adapter S → Ended S
  unfolding find_device_by_addr drain_found
  drain_device_queues r a = drain_found r a (find_device_by_addr a.ext r.address)

  -- WnbdExecuteScsiFunction
  unfoldable pub executed : Request → Adapter S → Disk → Executed → Ended S
  unfolding leave_device
  executed r a d x = record {
    srb_status = x.srb_status;
    complete = x.complete;
    srb = x.srb;
    resets = [];
    capabilities = none;
    adapter = leave_device a d x.device;
  }

  unfoldable pub execute_found : Request → Adapter S → Option Disk × Extension → Ended S
  unfolding execute_scsi executed
  execute_found r a (none, ext) = ended r SrbStatus.no_device (record a { ext = ext })
  execute_found r a (some d, ext) =
      executed r (record a { ext = ext }) d
        (execute_scsi env.pend (a.devices d.connection_id) r.srb)

  unfoldable pub run_function : SrbFunction → Request → Adapter S → Ended S
  unfolding find_device_by_addr execute_found drain_device_queues pnp_status pnp_capabilities
      process_srb_ioctl
  run_function execute_function r a = execute_found r a (find_device_by_addr a.ext r.address)
  run_function reset_logical_unit r a = drain_device_queues r a
  -- WnbdResetDeviceFunction: StorPort completes what is outstanding at the address.
  run_function reset_device r a = record (ended r SrbStatus.success a) { resets = r.address ∷ [] }
  run_function abort_command r a = drain_device_queues r a
  run_function pnp_function r a = record (ended r (pnp_status env.capabilities_size r) a) {
    capabilities = pnp_capabilities env.capabilities_size r;
  }
  run_function io_control r a = ended r (process_srb_ioctl env.layout r.control).srb_status a
  run_function flush_function r a = ended r SrbStatus.success a
  run_function shutdown_function r a = ended r SrbStatus.success a
  run_function _ r a = ended r SrbStatus.invalid_request a

  -- What follows the switch.
  unfoldable pub notify_end : Ended S → Started S
  notify_end e = record {
    completed = if e.complete then some (record e.srb { srb_status = e.srb_status }) else none;
    resets = e.resets;
    capabilities = e.capabilities;
    adapter = e.adapter;
  }

  -- WnbdHwStartIo
  unfoldable pub hw_start_io : Request → Adapter S → Started S
  unfolding run_function notify_end
  hw_start_io r a = notify_end (run_function r.function r a)
