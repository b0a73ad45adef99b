-- ===== src/Request/Pend/Outcome.antt =====
-- What `WnbdPendOperation` of driver/scsi_operation.c queues, and what it leaves alone.
use wnbd.Prelude.{
  ℕ, ◌≡◌, ◌≢◌, refl, Bool, true, false, Option, none, some, List, [], ◌∷◌, ◌++◌, arith, ◌⊎◌, inl,
  inr, if◌then◌else◌,
}
use wnbd.Word.{wrap32, wrap64, inc64}
use wnbd.Wdk.{NtStatus}
use wnbd.Types.{Device, Element, Srb}
use wnbd.Request.Pool.{take_slot}
use wnbd.Request.Pend.{PendEnv, Pended, queue_slot, count_arrival, new_element, pend_element}

-- The request was not queued: all but the arrival counters is as it was.
pub record Refused (d : Device) (r : Pended) : Type 0 where
  pub status : r.0 ≢ NtStatus.pending
  pub properties : r.2.properties ≡ d.properties
  pub pending : r.2.pending ≡ d.pending
  pub submitted : r.2.submitted ≡ d.submitted
  pub buckets : r.2.buckets ≡ d.buckets
  pub pool : r.2.pool ≡ d.pool
  pub freed : r.2.freed ≡ d.freed
  pub notified : r.2.notified ≡ d.notified
  pub hard_remove : r.2.hard_remove ≡ d.hard_remove
  pub unsubmitted : wrap64 r.2.stats.unsubmitted_requests ≡ wrap64 d.stats.unsubmitted_requests
  pub pending_submitted : r.2.stats.pending_submitted_requests ≡ d.stats.pending_submitted_requests
  pub aborted_unsubmitted :
      r.2.stats.aborted_unsubmitted_requests ≡ d.stats.aborted_unsubmitted_requests
  pub aborted_submitted : r.2.stats.aborted_submitted_requests ≡ d.stats.aborted_submitted_requests
  pub outstanding : r.2.stats.outstanding_io_count ≡ d.stats.outstanding_io_count

-- The address that the queued element has: the pool's first, or a fresh one.
abbrev pub TakenFrom : PendEnv → Device → Element → Device → Type 0
TakenFrom env d e d' =
    ((d.pool ≡ e.addr ∷ d'.pool) × (e.pooled ≡ true))
    ⊎ ((d.pool ≡ []) × (d'.pool ≡ []) × (env.fresh ≡ some e.addr) × (e.pooled ≡ false))

-- The request was queued last, by one element of which `P` holds.
pub record Enqueued (P : Element → Type 0) (env : PendEnv) (d : Device) (srb : Srb) (r : Pended)
    : Type 0 where
  pub element : Element
  pub status : r.0 ≡ NtStatus.pending
  pub properties : r.2.properties ≡ d.properties
  pub pending : r.2.pending ≡ d.pending ++ element ∷ []
  pub submitted : r.2.submitted ≡ d.submitted
  pub buckets : r.2.buckets ≡ d.buckets
  pub taken : TakenFrom env d element r.2
  pub freed : r.2.freed ≡ d.freed
  pub notified : r.2.notified ≡ d.notified
  pub hard_remove : r.2.hard_remove ≡ d.hard_remove
  pub srb_kept : element.srb ≡ srb
  pub live : (element.aborted ≡ false) × (element.completed ≡ false)
  pub holds : P element
  pub unsubmitted : r.2.stats.unsubmitted_requests ≡ inc64 d.stats.unsubmitted_requests
  pub pending_submitted : r.2.stats.pending_submitted_requests ≡ d.stats.pending_submitted_requests
  pub aborted_unsubmitted :
      r.2.stats.aborted_unsubmitted_requests ≡ d.stats.aborted_unsubmitted_requests
  pub aborted_submitted : r.2.stats.aborted_submitted_requests ≡ d.stats.aborted_submitted_requests
  pub outstanding : r.2.stats.outstanding_io_count ≡ d.stats.outstanding_io_count

abbrev pub Outcome : (Element → Type 0) → PendEnv → Device → Srb → Pended → Type 0
Outcome P env d srb r = Refused d r ⊎ Enqueued P env d srb r

abbrev HasRange : ℕ → ℕ → Element → Type 0
HasRange lbn len e = (e.starting_lbn ≡ lbn) × (e.data_length ≡ wrap32 len)

-- An element that was taken from the pool, or allocated.
queue_slot-Outcome :
    (env : PendEnv) (d : Device) (srb : Srb) (lbn len : ℕ) (fua : Bool) (pool : List ℕ)
    (fresh : Option ℕ)
    → d.pool ≡ pool
    → env.fresh ≡ fresh
    → Outcome
        (HasRange lbn len)
        env
        d
        srb
        (queue_slot env srb lbn len fua (take_slot (count_arrival env d) pool fresh))
unfolding queue_slot take_slot count_arrival new_element
queue_slot-Outcome env d srb lbn len fua [] none p q = inl (ground arith)
queue_slot-Outcome env d srb lbn len fua [] (some addr) p q = inr (record {
  element = new_element env (record { addr = addr; pooled = false }) srb lbn len fua;
  status = refl;
  properties = refl;
  pending = refl;
  submitted = refl;
  buckets = refl;
  taken = inr (p, p, q, refl);
  freed = refl;
  notified = refl;
  hard_remove = refl;
  srb_kept = refl;
  live = (refl, refl);
  holds = (refl, refl);
  unsubmitted = refl;
  pending_submitted = refl;
  aborted_unsubmitted = refl;
  aborted_submitted = refl;
  outstanding = refl;
})
queue_slot-Outcome env d srb lbn len fua (addr ∷ rest) fresh p q = inr (record {
  element = new_element env (record { addr = addr; pooled = true }) srb lbn len fua;
  status = refl;
  properties = refl;
  pending = refl;
  submitted = refl;
  buckets = refl;
  taken = inl (p, refl);
  freed = refl;
  notified = refl;
  hard_remove = refl;
  srb_kept = refl;
  live = (refl, refl);
  holds = (refl, refl);
  unsubmitted = refl;
  pending_submitted = refl;
  aborted_unsubmitted = refl;
  aborted_submitted = refl;
  outstanding = refl;
})

pub pend_element-Outcome :
    (env : PendEnv) (d : Device) (srb : Srb) (lbn len : ℕ) (fua : Bool)
    → Outcome (HasRange lbn len) env d srb (pend_element env d srb lbn len fua)
unfolding pend_element
pend_element-Outcome env d srb lbn len fua =
    queue_slot-Outcome env d srb lbn len fua d.pool env.fresh refl refl

pub Enqueued-mono :
    {P Q : Element → Type 0} {env : PendEnv} {d : Device} {srb : Srb} {r : Pended}
    → ((e : Element) → P e → Q e)
    → Outcome P env d srb r
    → Outcome Q env d srb r
Enqueued-mono f (inl h) = inl h
Enqueued-mono f (inr h) = inr (record {
  element = h.element;
  status = h.status;
  properties = h.properties;
  pending = h.pending;
  submitted = h.submitted;
  buckets = h.buckets;
  taken = h.taken;
  freed = h.freed;
  notified = h.notified;
  hard_remove = h.hard_remove;
  srb_kept = h.srb_kept;
  live = h.live;
  holds = f h.element h.holds;
  unsubmitted = h.unsubmitted;
  pending_submitted = h.pending_submitted;
  aborted_unsubmitted = h.aborted_unsubmitted;
  aborted_submitted = h.aborted_submitted;
  outstanding = h.outstanding;
})

Refused-same :
    (d : Device) (srb : Srb) (status : NtStatus)
    → status ≢ NtStatus.pending
    → Refused d (status, srb, d)
Refused-same d srb status h = record {
  status = h;
  properties = refl;
  pending = refl;
  submitted = refl;
  buckets = refl;
  pool = refl;
  freed = refl;
  notified = refl;
  hard_remove = refl;
  unsubmitted = refl;
  pending_submitted = refl;
  aborted_unsubmitted = refl;
  aborted_submitted = refl;
  outstanding = refl;
}

pub Refused-buffer_too_small :
    (d : Device) (srb : Srb) → Refused d (NtStatus.buffer_too_small, srb, d)
Refused-buffer_too_small d srb = Refused-same d srb NtStatus.buffer_too_small (λ e. cc)

pub Refused-invalid_parameter :
    (d : Device) (srb : Srb) → Refused d (NtStatus.invalid_parameter, srb, d)
Refused-invalid_parameter d srb = Refused-same d srb NtStatus.invalid_parameter (λ e. cc)

pub Refused-success : (d : Device) (srb : Srb) → Refused d (NtStatus.success, srb, d)
Refused-success d srb = Refused-same d srb NtStatus.success (λ e. cc)

pub Outcome-if :
    {P : Element → Type 0} {env : PendEnv} {d : Device} {srb : Srb} (b : Bool) {x y : Pended}
    → (b ≡ true → Outcome P env d srb x)
    → (b ≡ false → Outcome P env d srb y)
    → Outcome P env d srb (if b then x else y)
Outcome-if true f g = f refl
Outcome-if false f g = g refl
