-- ===== src/Request/Complete.antt =====
-- CompleteRequest and DrainDeviceQueue of driver/util.c.
use wnbd.Prelude.{
  ℕ, zero, suc, ◌-◌, ◌/◌, Bool, true, false, ◌&&◌, ◌||◌, not, Option, none, some, List, [], ◌∷◌,
  ◌==◌, ltb, if◌then◌else◌, length,
}
use wnbd.Word.{inc64, dec64}
use wnbd.Wdk.{SrbStatus}
use wnbd.Types.{Device, Element, Srb, Stats}
use wnbd.Submitted.{remove_head}
use wnbd.Request.Pool.{free_element}

-- StorPortNotification(RequestComplete) and the OutstandingIOCount gauge.
notify : Device → Srb → Device
notify d srb = record d {
  notified = srb ∷ d.notified;
  stats = record d.stats { outstanding_io_count = dec64 d.stats.outstanding_io_count };
}

-- CompleteRequest: the exchange of `Completed` lets one caller alone notify.
unfoldable pub complete_request : Device → Element → Bool → Device
unfolding notify free_element
complete_request d e free_it =
    let d' = if e.completed then d else notify d e.srb in
    if free_it then free_element d' (record e { completed = true }) else d'

-- The driver options that a drain reads.
pub record DrainOptions : Type 0 where
  pub remove_stale_connections : Bool
  pub stale_req_timeout_ms : ℕ
  pub stale_conn_timeout_ms : ℕ

-- WNBD_DEFAULT_STALE_REQ_TIMEOUT_MS, WNBD_DEFAULT_STALE_CONN_TIMEOUT_MS
abbrev pub default_stale_req_timeout_ms : ℕ
default_stale_req_timeout_ms = 15000

abbrev pub default_stale_conn_timeout_ms : ℕ
default_stale_conn_timeout_ms = 60000

-- An option of zero stands for its default.
abbrev pub or_default : ℕ → ℕ → ℕ
or_default value default = if value == 0 then default else value

-- A time stamp that is set, lies before `now` and is older than the limit. Stamps count 100 ns.
abbrev pub older_than : ℕ → ℕ → ℕ → Bool
older_than ms stamp now = not (stamp == 0) && ltb stamp now && ltb ms ((now - stamp) / 10000)

unfoldable pub is_stale : DrainOptions → ℕ → Element → Stats → Bool
is_stale opts now e stats =
    older_than (or_default opts.stale_req_timeout_ms default_stale_req_timeout_ms) e.req_timestamp
      now
    && older_than (or_default opts.stale_conn_timeout_ms default_stale_conn_timeout_ms)
        stats.last_reply_timestamp now

-- WnbdDisconnectAsync
unfoldable pub disconnect_async : Device → Device
disconnect_async d = record d { hard_remove = true; removal_event = true }

-- The request as a drain completes it.
abbrev pub aborted_srb : Srb → Srb
aborted_srb srb = record srb { data_transfer_length = 0; srb_status = SrbStatus.aborted }

count_abort : Bool → Element → Stats → Stats
count_abort from_submitted e stats =
    if e.aborted
    then stats
    else if from_submitted
    then record stats { aborted_submitted_requests = inc64 stats.aborted_submitted_requests }
    else record stats { aborted_unsubmitted_requests = inc64 stats.aborted_unsubmitted_requests }

-- One round of the loop, for the element that was removed.
unfoldable pub abort_element : Bool → Device → Element → Device
unfolding count_abort complete_request
abort_element from_submitted d e =
    complete_request (record d { stats = count_abort from_submitted e d.stats })
      (record e { srb = aborted_srb e.srb; aborted = true }) true

-- ExInterlockedRemoveHeadList(&Device->PendingReqListHead)
unfoldable pub pop_pending : Device → List Element → Option Element × Device
pop_pending d [] = (none, d)
pop_pending d (e ∷ es) = (some e, record d { pending = es })

unfoldable pub remove_pending : Device → Option Element × Device
unfolding pop_pending
remove_pending d = pop_pending d d.pending

-- The head of the list that is drained.
unfoldable pub remove_next : Bool → Device → Option Element × Device
unfolding remove_pending remove_head
remove_next true d = remove_head d
remove_next false d = remove_pending d

-- Whether the stale connection test passes at this element, or passed before.
abbrev pub now_stale : Bool → Bool → DrainOptions → ℕ → Element → Stats → Bool
now_stale check seen opts now e stats = seen || (check && is_stale opts now e stats)

-- The loop, on fuel: the device after it, and whether a stale connection was seen.
unfoldable pub drain_loop : ℕ → Bool → Bool → DrainOptions → ℕ → Bool → Device → Device × Bool
unfolding remove_next abort_element
drain_loop zero from_submitted check opts now seen d = (d, seen)
drain_loop (suc fuel) from_submitted check opts now seen d =
    let (next, d') = remove_next from_submitted d in
    elim next [
      | none ↦ (d', seen)
      | some e ↦
          drain_loop fuel from_submitted check opts now (now_stale check seen opts now e d'.stats)
            (abort_element from_submitted d' e)
    ]

-- What follows the loop.
unfoldable pub after_drain : DrainOptions → Device × Bool → Device
unfolding disconnect_async
after_drain opts (d, stale) =
    if stale && opts.remove_stale_connections then disconnect_async d else d

-- DrainDeviceQueue; a round for each element of the list and one that finds it empty.
unfoldable pub drain_device_queue : Bool → Bool → DrainOptions → ℕ → Device → Device
unfolding drain_loop after_drain
drain_device_queue from_submitted check opts now d =
    let fuel = suc (length (if from_submitted then d.submitted else d.pending)) in
    after_drain opts (drain_loop fuel from_submitted check opts now false d)

-- The drains of DrainDeviceQueues: the pending list, then the submitted one.
unfoldable pub drain_both : Bool → DrainOptions → ℕ → Device → Device
unfolding drain_device_queue
drain_both check opts now d =
    drain_device_queue true check opts now (drain_device_queue false check opts now d)

-- HasPendingAsyncRequests
unfoldable pub has_pending_async_requests : Device → Bool
has_pending_async_requests d = not (length d.submitted == 0) || not (length d.pending == 0)
