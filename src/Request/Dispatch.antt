-- ===== src/Request/Dispatch.antt =====
-- WnbdDispatchRequest of driver/wnbd_dispatch.c: a caller waits for a request and takes it. The list
-- of rounds is how long the caller is followed.
pub mod Balance
pub mod Return
use wnbd.Prelude.{
  ℕ, ◌+◌, ◌-◌, ◌*◌, ◌/◌, ◌%◌, ◌^◌, Bool, true, false, ◌&&◌, ◌||◌, not, Option, none, some, List, [],
  ◌∷◌, ◌==◌, ltb, if◌then◌else◌, take,
}
use wnbd.Word.{wrap32, inc64, dec64}
use wnbd.Wdk.{NtStatus, SrbStatus, is_failure}
use wnbd.Types
use wnbd.Types.{
  RequestType, req_unknown, req_read, req_write, req_flush, req_unmap, req_disconnect,
  req_persist_res_in, req_persist_res_out, Device, Element, Srb, IoRequest, Command, no_command,
  transfer, Payload, no_payload, unmap_descriptor, bytes,
}
use wnbd.Cdb.{as_byte, be16, opcode, request_type}
use wnbd.Submitted.{insert}
use wnbd.Request.Complete.{complete_request, remove_pending}
use wnbd.Request.Validate.{validate_scsi_request}
use wnbd.Request.Memory.{LockEnv, Memory, Mapping, Locked, unmapped, lock_fetch_buffer, release}
use wnbd.Request.Send.{
  Wait, work, removal, alerted, Round, Fetch, RoundEnd, again, finish, fail_element, fail_again,
  send_element,
}

-- The zeroed request.
abbrev pub zero_request : IoRequest
zero_request = record { request_handle = 0; request_type = req_unknown; cmd = no_command }

-- The element takes the next handle as its tag, and its SRB's transfer length is cleared.
abbrev pub tagged : ℕ → Element → Element
tagged tag e = record e { tag = tag; srb = record e.srb { data_transfer_length = 0 } }

-- What follows the removal of the pending list's head.
unfoldable pub take_element : Round → ℕ → Fetch → Option Element → RoundEnd
unfolding send_element
take_element round size f none = if f.device.hard_remove then finish f else again f
take_element round size f (some e) =
    let handle = inc64 f.request_handle in
    if f.device.hard_remove
    then finish f
    else send_element round size (record f { request_handle = handle; request = zero_request })
        (tagged handle e)

unfoldable pub set_hard : Bool → Fetch → Fetch
set_hard flag f = record f {
  device = record f.device { hard_remove = f.device.hard_remove || flag };
}

-- The wait took the semaphore: the head of the pending list is removed.
unfoldable pub take_work : Round → ℕ → Fetch → RoundEnd
unfolding take_element remove_pending set_hard
take_work round size f =
    let d = record f.device { device_event = f.device.device_event - 1 } in
    let (head, d') = remove_pending d in
    take_element round size (set_hard round.removed_during (record f { device = d' })) head

unfoldable pub wait_round : Round → ℕ → Fetch → Wait → RoundEnd
unfolding take_work
wait_round round size f work = take_work round size f
wait_round round size f removal = finish f
wait_round round size f alerted =
    finish (record f { device = record f.device { removal_event = true } })

-- One round of the loop.
unfoldable pub dispatch_round : Round → ℕ → Fetch → RoundEnd
unfolding wait_round set_hard
dispatch_round round size f =
    let f' = set_hard round.removed_before f in
    if f'.device.hard_remove then finish f' else wait_round round size f' round.wait

-- The loop; `none` is a caller that still waits after the last round.
unfoldable pub dispatch_loop : List Round → ℕ → Fetch → Option Fetch
dispatch_loop [] size f = none
dispatch_loop (round ∷ rounds) size f = elim (dispatch_round round size f) [
  | again f' ↦ dispatch_loop rounds size f'
  | finish f' ↦ some f'
]

-- The end of the call: the buffer is released, and a removed device reports a disconnect.
unfoldable pub dispatch_exit : Bool → Fetch → Fetch
unfolding set_hard
dispatch_exit removed_at_exit f =
    let f' =
      set_hard removed_at_exit
        (record f { mapping = unmapped; memory = release f.mapping f.memory }) in
    if f'.device.hard_remove
    then record f' {
      status = NtStatus.success;
      request = record f'.request { request_type = req_disconnect };
    }
    else f'

-- Who calls, whether the device is removed as the loop ends, the size of the caller's buffer.
pub record Caller : Type 0 where
  pub pid : ℕ
  pub removed_at_exit : Bool
  pub data_buffer_size : ℕ

-- The call's locals as it begins.
abbrev pub begin_fetch : Device → ℕ → IoRequest → Memory → Fetch
begin_fetch d handle request memory = record {
  device = d;
  request_handle = handle;
  status = NtStatus.success;
  request = request;
  payload = no_payload;
  mapping = unmapped;
  memory = memory;
}

-- WnbdDispatchRequest; `none` is a caller that still waits after the rounds given.
unfoldable pub dispatch_request :
    Caller → List Round → Device → ℕ → IoRequest → Memory → Option Fetch
unfolding dispatch_loop dispatch_exit
dispatch_request caller rounds d handle request memory =
    let f = begin_fetch d handle request memory in
    if not (wrap32 d.properties.pid == caller.pid) || d.properties.flags.use_kernel_nbd
    then some (record f { status = NtStatus.access_denied })
    else (elim (dispatch_loop rounds caller.data_buffer_size f) [
      | none ↦ none
      | some f' ↦ some (dispatch_exit caller.removed_at_exit f')
    ])
