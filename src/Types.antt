-- ===== src/Types.antt =====
-- The driver's structures: include/wnbd_ioctl.h and driver/scsi_driver_extensions.h.
-- A pointer to an SRB is the SRB: while a request is queued, its queue element alone refers to it.
use wnbd.Prelude.{ℕ, Bool, Option, List}
use wnbd.Wdk.{SrbStatus}

-- WnbdRequestType
pub data RequestType : Type 0 where
  req_unknown req_read req_write req_flush req_unmap : RequestType
  req_disconnect req_persist_res_in req_persist_res_out : RequestType

-- WNBD_STATUS
pub record WnbdStatus : Type 0 where
  pub scsi_status : ℕ
  pub sense_key : ℕ
  pub asc : ℕ
  pub ascq : ℕ
  pub information : ℕ
  pub information_valid : Bool

-- WNBD_FLAGS
pub record Flags : Type 0 where
  pub read_only : Bool
  pub flush_supported : Bool
  pub fua_supported : Bool
  pub unmap_supported : Bool
  pub use_kernel_nbd : Bool
  pub persist_res_supported : Bool
  pub naa_id_specified : Bool

-- WNBD_PROPERTIES: a name is the bytes before its terminating NUL.
pub record Properties : Type 0 where
  pub instance_name : List ℕ
  pub serial_number : List ℕ
  pub flags : Flags
  pub block_count : ℕ
  pub block_size : ℕ
  pub pid : ℕ
  pub naa_identifier : List ℕ

-- WNBD_DRV_STATS
pub record Stats : Type 0 where
  pub total_received_requests : ℕ
  pub total_submitted_requests : ℕ
  pub total_received_replies : ℕ
  pub unsubmitted_requests : ℕ
  pub pending_submitted_requests : ℕ
  pub aborted_submitted_requests : ℕ
  pub aborted_unsubmitted_requests : ℕ
  pub completed_aborted_requests : ℕ
  pub outstanding_io_count : ℕ
  pub last_received_req_timestamp : ℕ
  pub last_submitted_req_timestamp : ℕ
  pub last_reply_timestamp : ℕ

-- The fields of SENSE_DATA that the driver writes.
pub record Sense : Type 0 where
  pub error_code : ℕ
  pub valid : Bool
  pub sense_key : ℕ
  pub asc : ℕ
  pub ascq : ℕ
  pub information : ℕ
  pub additional_length : ℕ
  pub command_specific : ℕ

-- A SCSI request block: what the driver reads and writes of it. `id` stands for its address.
pub record Srb : Type 0 where
  pub id : ℕ
  pub cdb : Option (List ℕ)
  pub data_buffer : Option (List ℕ)
  pub data_transfer_length : ℕ
  pub srb_status : SrbStatus
  pub scsi_status : ℕ
  pub sense_info : Option Sense
  pub sense_info_length : ℕ
  pub disable_autosense : Bool

-- SRB_QUEUE_ELEMENT; `addr` is its own address.
pub record Element : Type 0 where
  pub addr : ℕ
  pub srb : Srb
  pub starting_lbn : ℕ
  pub data_length : ℕ
  pub fua : Bool
  pub tag : ℕ
  pub aborted : Bool
  pub completed : Bool
  pub pooled : Bool
  pub req_timestamp : ℕ

-- WNBD_DISK_DEVICE. A list head is the list of what it links, first to last; `pool` lists the
-- addresses of the free elements. `notified` is what was handed to
-- StorPortNotification(RequestComplete), latest first, and `freed` what ExFreePool was given.
pub record Device : Type 0 where
  pub properties : Properties
  pub connection_id : ℕ
  pub pending : List Element
  pub submitted : List Element
  pub buckets : ℕ → List Element
  pub pool : List ℕ
  pub device_event : ℕ
  pub hard_remove : Bool
  pub removal_event : Bool
  pub stats : Stats
  pub notified : List Srb
  pub freed : List ℕ

-- The request-specific part of WNBD_IO_REQUEST; `no_command` is the zeroed union.
pub data Command : Type 0 where
  no_command : Command
  -- BlockAddress, BlockCount and ForceUnitAccess of Read and of Write
  transfer : ℕ → ℕ → Bool → Command
  flush : ℕ → ℕ → Command
  unmap : ℕ → Command
  -- ServiceAction, AllocationLength
  persist_res_in : ℕ → ℕ → Command
  -- ServiceAction, Scope, Type, ParameterListLength
  persist_res_out : ℕ → ℕ → ℕ → ℕ → Command

-- WNBD_IO_REQUEST
pub record IoRequest : Type 0 where
  pub request_handle : ℕ
  pub request_type : RequestType
  pub cmd : Command

-- What a fetch writes into the caller's data buffer.
pub data Payload : Type 0 where
  no_payload : Payload
  -- WNBD_UNMAP_DESCRIPTOR: BlockAddress, BlockCount
  unmap_descriptor : ℕ → ℕ → Payload
  bytes : List ℕ → Payload
