-- ===== src/Request/Send.antt =====
-- The body of the loop in WnbdDispatchRequest, driver/wnbd_dispatch.c, for a request that was
-- removed from the pending list: it is checked, described to the caller, and submitted. What other
-- threads, the clock and the memory manager do in a round of the loop is that round's argument.
use wnbd.Prelude.{
  ℕ, ◌/◌, ◌%◌, Bool, true, ◌&&◌, Option, none, some, List, [], ◌==◌, ltb, if◌then◌else◌, take,
}
use wnbd.Word.{wrap32, inc64, dec64}
use wnbd.Wdk.{NtStatus, SrbStatus, is_failure}
use wnbd.Types
use wnbd.Types.{
  RequestType, req_unknown, req_read, req_write, req_flush, req_unmap, req_disconnect,
  req_persist_res_in, req_persist_res_out, Device, Element, Srb, IoRequest, Command, no_command,
  transfer, Payload, no_payload, unmap_descriptor, bytes,
}
use wnbd.Cdb.{as_byte, be16, opcode, request_type}
use wnbd.Submitted.{insert}
use wnbd.Request.Complete.{complete_request}
use wnbd.Request.Validate.{validate_scsi_request}
use wnbd.Request.Memory.{LockEnv, Memory, Mapping, Locked, unmapped, lock_fetch_buffer, release}

-- The result of KeWaitForMultipleObjects: the request semaphore, the removal event, an alert.
pub data Wait : Type 0 where
  work removal alerted : Wait

-- One round. The flags say whether another thread set HardRemoveDevice before the loop's test, and
-- before the second test; `system_address` whether StorPortGetSystemAddress succeeds.
pub record Round : Type 0 where
  pub removed_before : Bool
  pub wait : Wait
  pub removed_during : Bool
  pub lock : LockEnv
  pub system_address : Bool
  pub now : ℕ

-- The locals of the call, and what it changes: the device, the static RequestHandle, the caller's
-- request and buffer, and the memory manager's books.
pub record Fetch : Type 0 where
  pub device : Device
  pub request_handle : ℕ
  pub status : NtStatus
  pub request : IoRequest
  pub payload : Payload
  pub mapping : Mapping
  pub memory : Memory

-- `continue`, or leaving the loop.
pub data RoundEnd : Type 0 where
  again finish : Fetch → RoundEnd

-- CompleteRequest with an SRB status, and one unsubmitted request less.
unfoldable pub fail_element : Device → Element → SrbStatus → Device
unfolding complete_request
fail_element d e srb_status =
    let d' =
      complete_request d (record e { srb = record e.srb { srb_status = srb_status } }) true in
    record d' {
      stats = record d'.stats { unsubmitted_requests = dec64 d'.stats.unsubmitted_requests };
    }

-- The element becomes a submitted request.
unfoldable pub submit : Device → Element → ℕ → Device
unfolding insert
submit d e now =
    let d' = insert d e in
    record d' {
      stats = record d'.stats {
        last_submitted_req_timestamp = now;
        total_submitted_requests = inc64 d'.stats.total_submitted_requests;
        pending_submitted_requests = inc64 d'.stats.pending_submitted_requests;
        unsubmitted_requests = dec64 d'.stats.unsubmitted_requests;
      };
    }

block_address : Device → Element → ℕ
block_address d e = e.starting_lbn / d.properties.block_size

block_count_of : Device → Element → ℕ
block_count_of d e = wrap32 (e.data_length / d.properties.block_size)

transfer_of : Device → Element → Command
unfolding block_address block_count_of
transfer_of d e =
    transfer (block_address d e) (block_count_of d e) (e.fua && d.properties.flags.fua_supported)

-- The first switch: the request's command. `cdb` is that of the element's SRB.
unfoldable pub command_of : Device → Element → List ℕ → RequestType → Command
unfolding transfer_of
command_of d e cdb req_read = transfer_of d e
command_of d e cdb req_write = transfer_of d e
command_of d e cdb req_flush = Types.flush (block_address d e) (block_count_of d e)
command_of d e cdb req_unmap = Types.unmap 1
command_of d e cdb req_persist_res_in =
    Types.persist_res_in (as_byte cdb 1 % 32) (be16 (as_byte cdb 7) (as_byte cdb 8))
command_of d e cdb req_persist_res_out =
    Types.persist_res_out (as_byte cdb 1 % 32) (as_byte cdb 2 / 16 % 16) (as_byte cdb 2 % 16)
      (be16 (as_byte cdb 7) (as_byte cdb 8))
command_of d e cdb _ = no_command

-- sizeof(WNBD_UNMAP_DESCRIPTOR)
abbrev pub unmap_descriptor_size : ℕ
unmap_descriptor_size = 16

-- The data that StorPortGetSystemAddress gives access to.
abbrev pub srb_bytes : Srb → List ℕ
srb_bytes srb = elim srb.data_buffer [ none ↦ [] | some b ↦ b ]

unfoldable pub submitted_end : Fetch → Element → ℕ → RoundEnd
submitted_end f e now = finish (record f { device = submit f.device e now })

-- An element that fails while the loop goes on, and one that ends it.
abbrev pub fail_again : Fetch → Element → SrbStatus → RoundEnd
fail_again f e srb_status = again (record f { device = fail_element f.device e srb_status })

abbrev pub fail_finish : Fetch → Element → NtStatus → RoundEnd
fail_finish f e status =
    finish (record f { device = fail_element f.device e SrbStatus.internal_error; status = status })

-- The locals after LockFetchBuffer.
abbrev locked : Fetch → Locked → Fetch
locked f (status, mapping, memory) = record f {
  status = status;
  mapping = mapping;
  memory = memory;
}

-- An UNMAP's descriptor goes into the caller's buffer.
unfoldable pub send_unmap : Round → ℕ → Fetch → Element → RoundEnd
unfolding submitted_end block_address block_count_of
send_unmap round size f e =
    if ltb size unmap_descriptor_size
    then fail_finish f e NtStatus.buffer_too_small
    else (let f' = locked f (lock_fetch_buffer round.lock f.memory) in
        if is_failure f'.status
        then fail_again f' e SrbStatus.internal_error
        else submitted_end
            (record f' {
              payload = unmap_descriptor (block_address f.device e) (block_count_of f.device e);
            })
            e round.now)

-- The data of a WRITE or of a reservation goes into the caller's buffer, once it is locked.
unfoldable pub copy_payload : Round → Fetch → Element → RoundEnd
unfolding submitted_end
copy_payload round f e =
    if round.system_address
    then submitted_end (record f { payload = bytes (take e.data_length (srb_bytes e.srb)) }) e
        round.now
    else fail_again (record f { mapping = unmapped; memory = release f.mapping f.memory }) e
        SrbStatus.internal_error

unfoldable pub send_payload : Round → ℕ → Fetch → Element → RoundEnd
unfolding submitted_end copy_payload
send_payload round size f e =
    if ltb size e.data_length
    then fail_finish f e NtStatus.buffer_too_small
    else if e.data_length == 0
    then submitted_end f e round.now
    else (let f' = locked f (lock_fetch_buffer round.lock f.memory) in
        if is_failure f'.status
        then fail_again f' e SrbStatus.internal_error
        else copy_payload round f' e)

-- The second switch: what is sent beside the command.
unfoldable pub send_type : Round → ℕ → Fetch → Element → RequestType → RoundEnd
unfolding send_unmap send_payload submitted_end
send_type round size f e req_unmap = send_unmap round size f e
send_type round size f e req_write = send_payload round size f e
send_type round size f e req_persist_res_out = send_payload round size f e
send_type round size f e _ = submitted_end f e round.now

-- The locals of the call with the request filled in.
abbrev pub filled : Fetch → Element → List ℕ → RequestType → Fetch
filled f e cdb type = record f {
  request = record {
    request_handle = e.tag;
    request_type = type;
    cmd = command_of f.device e cdb type;
  };
}

-- A valid request.
unfoldable pub send_cdb : Round → ℕ → Fetch → Element → Option (List ℕ) → RoundEnd
unfolding send_type
send_cdb round size f e none = send_type round size (filled f e [] req_unknown) e req_unknown
send_cdb round size f e (some cdb) =
    let type = request_type (opcode cdb) in send_type round size (filled f e cdb type) e type

-- A removed element, tagged and checked.
unfoldable pub send_element : Round → ℕ → Fetch → Element → RoundEnd
unfolding send_cdb
send_element round size f e =
    if validate_scsi_request f.device e
    then send_cdb round size f e e.srb.cdb
    else fail_again f e SrbStatus.invalid_request
