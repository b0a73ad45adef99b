-- ===== src/Lifecycle/Shutdown.antt =====
-- DrainDeviceQueue of driver/util.c, and the two drains of WnbdDeviceMonitorThread, driver/userspace.c.
use wnbd.Prelude.{
  ℕ, zero, suc, ◌<◌, ◌≡◌, refl, Bool, true, false, Option, none, some, List, [], ◌∷◌, arith, length,
  ◌∙◌, ap, not, if◌then◌else◌,
}
use wnbd.Types.{Device, Element}
use wnbd.Submitted.{pop_head, remove_head}
use wnbd.Request.Complete.{
  DrainOptions, abort_element, pop_pending, remove_pending, remove_next, now_stale, drain_loop,
  after_drain, drain_device_queue, drain_both, disconnect_async,
}
use wnbd.Books.{total, is_number, is_srb}
use wnbd.Lifecycle.{Reach, drain}
use wnbd.Lifecycle.Conservation.{reach-conserved}

-- The list that a drain empties.
abbrev pub list_of : Bool → Device → List Element
list_of true d = d.submitted
list_of false d = d.pending

abort-keeps :
    (which : Bool) (d : Device) (e : Element)
    → ((abort_element which d e).pending ≡ d.pending)
      × ((abort_element which d e).submitted ≡ d.submitted)
unfolding abort_element
abort-keeps which d e = ground arith

-- What the removal of an element leaves.
abbrev Removed : Bool → Device → Option Element × Device → Type 0
Removed which d (none, d') =
    (list_of which d' ≡ []) × (list_of (not which) d' ≡ list_of (not which) d)
Removed which d (some e, d') =
    (length (list_of which d) ≡ suc (length (list_of which d')))
    × (list_of (not which) d' ≡ list_of (not which) d)

pop_pending-Removed :
    (d : Device) (p : List Element) → d.pending ≡ p → Removed false d (pop_pending d p)
unfolding pop_pending
pop_pending-Removed d [] h = (h, refl)
pop_pending-Removed d (e ∷ es) h = (ground (arith, h), refl)

pop_head-Removed : (d : Device) (s : List Element) → d.submitted ≡ s → Removed true d (pop_head d s)
unfolding pop_head
pop_head-Removed d [] h = (h, refl)
pop_head-Removed d (e ∷ es) h = (ground (arith, h), refl)

remove_next-Removed : (which : Bool) (d : Device) → Removed which d (remove_next which d)
unfolding remove_next remove_pending remove_head
remove_next-Removed true d = unfold remove_head in pop_head-Removed d d.submitted refl
remove_next-Removed false d = pop_pending-Removed d d.pending refl

abort-list :
    (which drained : Bool) (d : Device) (e : Element)
    → list_of which (abort_element drained d e) ≡ list_of which d
abort-list true drained d e = (abort-keeps drained d e).1
abort-list false drained d e = (abort-keeps drained d e).0

module _ (which check : Bool) (opts : DrainOptions) (now : ℕ) where
  abbrev Emptied : Device → Device × Bool → Type 0
  Emptied d r = (list_of which r.0 ≡ []) × (list_of (not which) r.0 ≡ list_of (not which) d)

  abbrev go_on : ℕ → Bool → Option Element → Device → Device × Bool
  go_on fuel seen next d = elim next [
    | none ↦ (d, seen)
    | some e ↦
        drain_loop fuel which check opts now (now_stale check seen opts now e d.stats)
          (abort_element which d e)
  ]

  after_next :
      (fuel : ℕ) (seen : Bool) (d : Device) (r : Option Element × Device)
      → ((seen' : Bool) (d' : Device)
          → length (list_of which d') < fuel
          → Emptied d' (drain_loop fuel which check opts now seen' d'))
      → length (list_of which d) < suc fuel
      → Removed which d r
      → Emptied d (go_on fuel seen r.0 r.1)
  after_next fuel seen d (none, d') k h m = m
  after_next fuel seen d (some e, d') k h m =
      let a = abort_element which d' e in
      let w = abort-list which which d' e in
      let o = abort-list (not which) which d' e in
      let next = k (now_stale check seen opts now e d'.stats) a (omega (arith, m.0, ap length w)) in
      (next.0, next.1 ∙ o ∙ m.1)

  pub drain_loop-Emptied :
      (fuel : ℕ) (seen : Bool) (d : Device)
      → length (list_of which d) < fuel
      → Emptied d (drain_loop fuel which check opts now seen d)
  unfolding drain_loop
  drain_loop-Emptied zero seen d h = ground arith
  drain_loop-Emptied (suc fuel) seen d h =
      after_next fuel seen d (remove_next which d)
        (λ seen' d' h'. drain_loop-Emptied fuel seen' d' h') h (remove_next-Removed which d)

after-lists :
    (which : Bool) (opts : DrainOptions) (r : Device × Bool)
    → list_of which (after_drain opts r) ≡ list_of which r.0
unfolding after_drain disconnect_async
after-lists which opts (d, stale) = ground arith

list_of-if :
    (which : Bool) (d : Device) → (if which then d.submitted else d.pending) ≡ list_of which d
list_of-if true d = refl
list_of-if false d = refl

-- A drain of either list, with or without the stale connection test, leaves that list empty, and does
-- not touch the other one.
pub drain_device_queue-empties :
    (which check : Bool) (opts : DrainOptions) (now : ℕ) (d : Device)
    → (list_of which (drain_device_queue which check opts now d) ≡ [])
      × (list_of (not which) (drain_device_queue which check opts now d) ≡ list_of (not which) d)
unfolding drain_device_queue
drain_device_queue-empties which check opts now d =
    let fuel = suc (length (if which then d.submitted else d.pending)) in
    let r = drain_loop fuel which check opts now false d in
    let e =
      drain_loop-Emptied which check opts now fuel false d (ground (arith, list_of-if which d)) in
    (after-lists which opts r ∙ e.0, after-lists (not which) opts r ∙ e.1)

-- If no fetch has left a request behind, the two drains leave both lists empty, and every SRB that was
-- queued has then been handed back to StorPort as often as it was queued.
pub drain_both-completes :
    (arrived : List ℕ) (check : Bool) (opts : DrainOptions) (now : ℕ) (d : Device) (i : ℕ)
    → Reach arrived [] d
    → ((drain_both check opts now d).pending ≡ [])
      × ((drain_both check opts now d).submitted ≡ [])
      × (total (is_srb i) (drain_both check opts now d).notified ≡ total (is_number i) arrived)
unfolding drain_both
drain_both-completes arrived check opts now d i r =
    let first = drain_device_queue-empties false check opts now d in
    let d' = drain_device_queue false check opts now d in
    let second = drain_device_queue-empties true check opts now d' in
    let reached =
      reach-conserved arrived [] (drain_device_queue true check opts now d') i
        (drain true check opts now (drain false check opts now r)) in
    let no_pending = second.1 ∙ first.0 in
    (no_pending, second.0, ground (arith, reached, no_pending, second.0))
