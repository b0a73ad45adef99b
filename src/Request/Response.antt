-- ===== src/Request/Response.antt =====
-- WnbdHandleResponse of driver/wnbd_dispatch.c: a reply completes a submitted request. What the
-- memory manager and StorPort answer is an argument.
pub mod Data
pub mod Balance
use wnbd.Prelude.{
  ℕ, ◌+◌, ◌-◌, ◌%◌, ◌^◌, ◌≡◌, Bool, true, false, ◌&&◌, ◌||◌, not, Option, none, some, List, [], ◌∷◌,
  ◌++◌, ◌==◌, ltb, if◌then◌else◌, take, drop, replicate, min,
}
use wnbd.Word.{wrap32, inc64, dec64}
use wnbd.Wdk.{NtStatus, SrbStatus, is_failure}
use wnbd.Types.{Device, Element, Srb, WnbdStatus}
use wnbd.Cdb.{is_read_srb, is_per_res_in_srb}
use wnbd.Submitted.{remove_by_tag}
use wnbd.Request.SrbStatus.{set_status}
use wnbd.Request.Pool.{free_element}
use wnbd.Request.Complete.{complete_request}
use wnbd.Request.Memory.{LockEnv, Memory, Mapping, unmapped, lock_usermode_buffer, release}

-- WNBD_IOCTL_SEND_RSP_COMMAND; `data_buffer` is what the caller's buffer holds, `none` for NULL.
pub record Reply : Type 0 where
  pub request_handle : ℕ
  pub status : WnbdStatus
  pub data_buffer : Option (List ℕ)
  pub data_buffer_size : ℕ

pub record ReplyEnv : Type 0 where
  pub pid : ℕ
  pub system_address : Bool
  pub lock : LockEnv
  pub now : ℕ

-- The locals of the call: its status, the element, and the locked user buffer.
pub record Replying : Type 0 where
  pub status : NtStatus
  pub element : Element
  pub mapping : Mapping
  pub memory : Memory

abbrev pub with_srb : Element → Srb → Element
with_srb e srb = record e { srb = srb }

-- A step that goes on, or `goto Exit`.
pub data Step : Type 0 where
  go leave : Replying → Step

-- `goto Exit` with a status.
abbrev leave_with : Replying → NtStatus → Step
leave_with r status = leave (record r { status = status })

-- The same, the SRB marked SRB_STATUS_INTERNAL_ERROR.
abbrev leave_internal : Replying → NtStatus → Step
leave_internal r status = leave (record r {
  status = status;
  element = with_srb r.element (record r.element.srb { srb_status = SrbStatus.internal_error });
})

-- Whether the reply of this request carries data.
abbrev pub takes_data : Srb → Bool
takes_data srb = is_read_srb srb || is_per_res_in_srb srb

-- A request that was not aborted: its CDB, and the address of its data.
unfoldable pub find_buffer : ReplyEnv → Replying → Option (List ℕ) → Step
find_buffer env r none = leave_with r NtStatus.internal_error
find_buffer env r (some cdb) =
    if takes_data r.element.srb && not env.system_address
    then leave_internal r NtStatus.internal_error
    else go r

-- RtlCopyMemory(dst, src, n), and RtlZeroMemory(dst + off, n).
abbrev pub copy_memory : List ℕ → List ℕ → ℕ → List ℕ
copy_memory dst src n = take n src ++ drop n dst

abbrev pub zero_memory : List ℕ → ℕ → ℕ → List ℕ
zero_memory dst off n = take off dst ++ (replicate n 0 ++ drop (off + n) dst)

-- The bytes of the caller, up to the request's length.
unfoldable pub copy_data : Option (List ℕ) → ℕ → ℕ → List ℕ → List ℕ
copy_data none size len dst = dst
copy_data (some src) size len dst = if ltb 0 size then copy_memory dst src (min len size) else dst

-- The SRB's data after the reply: the caller's bytes, and zeros for what they lack.
unfoldable pub fill_data : Option (List ℕ) → ℕ → ℕ → List ℕ → List ℕ
unfolding copy_data
fill_data src size len dst =
    let dst' = copy_data src size len dst in
    if ltb size len then zero_memory dst' size (len - size) else dst'

-- `SrbBuff` is set only for a request that was not aborted and takes data.
copy_reply : Reply → Element → Element
unfolding fill_data
copy_reply reply e =
    if e.aborted
    then e
    else with_srb e (record e.srb {
      data_buffer = elim e.srb.data_buffer [
        | none ↦ none
        | some dst ↦ some (fill_data reply.data_buffer reply.data_buffer_size e.data_length dst)
      ];
    })

-- The user buffer is checked and locked.
unfoldable pub take_data : ReplyEnv → Reply → Replying → Option (List ℕ) → Step
unfolding copy_reply
take_data env reply r none =
    if ltb 0 reply.data_buffer_size
    then leave_internal r NtStatus.invalid_parameter
    else go (record r { element = copy_reply reply r.element })
take_data env reply r (some src) =
    let (status, mapping, memory) = lock_usermode_buffer env.lock r.memory in
    let r' = record r { mapping = mapping; memory = memory } in
    if is_failure status
    then leave_internal r' status
    else go (record r' { element = copy_reply reply r.element })

-- The SRB's final status.
unfoldable pub conclude : Reply → Replying → Replying
unfolding set_status
conclude reply r =
    let e = r.element in
    if not (reply.status.scsi_status == 0)
    then record r {
      element = with_srb e (set_status (record e.srb { data_transfer_length = 0 }) reply.status);
    }
    else record r {
      element =
          with_srb e
            (record e.srb { data_transfer_length = e.data_length; srb_status = SrbStatus.success });
    }

-- What precedes the label `Exit`.
unfoldable pub check_reply : ReplyEnv → Replying → Step
unfolding find_buffer
check_reply env r = if r.element.aborted then go r else find_buffer env r r.element.srb.cdb

unfoldable pub data_step : ReplyEnv → Reply → Replying → Step
unfolding take_data
data_step env reply r =
    if reply.status.scsi_status == 0 && takes_data r.element.srb
    then take_data env reply r reply.data_buffer
    else go r

unfoldable pub then_step : Step → (Replying → Step) → Step
then_step (go r) k = k r
then_step (leave r) k = leave r

unfoldable pub then_end : Step → (Replying → Replying) → Replying
then_end (go r) k = k r
then_end (leave r) k = r

unfoldable pub process_reply : ReplyEnv → Reply → Replying → Replying
unfolding check_reply data_step then_step then_end conclude
process_reply env reply r =
    then_end (then_step (check_reply env r) (data_step env reply)) (conclude reply)

-- The label `Exit`: counters, the user buffer, completion, and the element back to the pool.
unfoldable pub reply_exit : ReplyEnv → Device → Replying → NtStatus × Device × Memory
unfolding complete_request
reply_exit env d r =
    let e = r.element in
    let stats = record d.stats {
      last_reply_timestamp = env.now;
      total_received_replies = inc64 d.stats.total_received_replies;
      pending_submitted_requests = dec64 d.stats.pending_submitted_requests;
      completed_aborted_requests =
          if e.aborted
          then inc64 d.stats.completed_aborted_requests
          else d.stats.completed_aborted_requests;
    } in
    let d' = record d { stats = stats } in
    let d'' = if e.aborted then d' else complete_request d' e false in
    (r.status, free_element d'' e, release r.mapping r.memory)

-- A reply to the element that its handle found.
unfoldable pub handle_found :
    ReplyEnv → Reply → Memory → Option Element × Device → NtStatus × Device × Memory
unfolding process_reply reply_exit
handle_found env reply m (none, d) = (NtStatus.not_found, d, m)
handle_found env reply m (some e, d) = reply_exit env d (
    process_reply env reply
      (record { status = NtStatus.success; element = e; mapping = unmapped; memory = m }))

-- WnbdHandleResponse
unfoldable pub handle_response : ReplyEnv → Reply → Device → Memory → NtStatus × Device × Memory
unfolding handle_found
handle_response env reply d m =
    if not (wrap32 d.properties.pid == env.pid) || d.properties.flags.use_kernel_nbd
    then (NtStatus.access_denied, d, m)
    else handle_found env reply m (remove_by_tag d reply.request_handle)
