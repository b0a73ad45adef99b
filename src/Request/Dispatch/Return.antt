-- ===== src/Request/Dispatch/Return.antt =====
-- When WnbdDispatchRequest of driver/wnbd_dispatch.c returns.
use wnbd.Prelude.{
  ℕ, ◌-◌, ◌≡◌, refl, Bool, true, false, ◌||◌, Option, none, some, List, [], ◌∷◌, arith, inl, inr,
  ◌⊎◌,
}
use wnbd.Types.{Device, Element, IoRequest}
use wnbd.Request.Memory.{Memory}
use wnbd.Request.Complete.{remove_pending}
use wnbd.Request.Send.{Wait, work, removal, alerted, Round, Fetch, RoundEnd, again, finish}
use wnbd.Request.Dispatch.{
  Caller, set_hard, take_element, take_work, wait_round, dispatch_round, dispatch_loop,
  dispatch_exit, dispatch_request, begin_fetch,
}

abbrev pub returns {ℓ} : {A : Type ℓ} → Option A → Bool
returns none = false
returns (some a) = true

abbrev pub is_interrupted : Wait → Bool
is_interrupted work = false
is_interrupted _ = true

-- A round in which the device was removed, before the wait or before the test that follows it, or whose
-- wait is ended by the removal event or an alert.
abbrev pub interrupts : Round → Bool
interrupts round = round.removed_before || round.removed_during || is_interrupted round.wait

abbrev pub any_interrupts : List Round → Bool
any_interrupts [] = false
any_interrupts (round ∷ rounds) = interrupts round || any_interrupts rounds

abbrev is_finish : RoundEnd → Bool
is_finish (again f) = false
is_finish (finish f) = true

take-finish :
    (round : Round) (size : ℕ) (f : Fetch) (head : Option Element)
    → f.device.hard_remove ≡ true
    → is_finish (take_element round size f head) ≡ true
unfolding take_element
take-finish round size f none h = ground (arith, h)
take-finish round size f (some e) h = ground (arith, h)

wait-finish :
    (round : Round) (size : ℕ) (f : Fetch) (wait : Wait)
    → (round.removed_during || is_interrupted wait) ≡ true
    → is_finish (wait_round round size f wait) ≡ true
unfolding wait_round take_work set_hard
wait-finish round size f work h =
    let (head, d) = remove_pending (record f.device { device_event = f.device.device_event - 1 }) in
    take-finish round size (set_hard round.removed_during (record f { device = d })) head
      (ground (arith, h))
wait-finish round size f removal h = refl
wait-finish round size f alerted h = refl

round-finish :
    (round : Round) (size : ℕ) (f : Fetch)
    → interrupts round ≡ true
    → is_finish (dispatch_round round size f) ≡ true
unfolding dispatch_round set_hard
round-finish round size f h =
    ground (arith, wait-finish round size (set_hard round.removed_before f) round.wait)

after-returns :
    (rounds : List Round) (size : ℕ) (r : RoundEnd)
    → (is_finish r ≡ true) ⊎ ((f : Fetch) → returns (dispatch_loop rounds size f) ≡ true)
    → returns (elim r as (λ x. Option Fetch) [
      | again f ↦ dispatch_loop rounds size f
      | finish f ↦ some f
    ])
      ≡ true
after-returns rounds size (again f) (inl h) = ground arith
after-returns rounds size (again f) (inr k) = k f
after-returns rounds size (finish f) h = refl

or-cases : (a b : Bool) → (a || b) ≡ true → (a ≡ true) ⊎ (b ≡ true)
or-cases a b h = ground arith

loop-returns :
    (rounds : List Round) (size : ℕ) (f : Fetch)
    → any_interrupts rounds ≡ true
    → returns (dispatch_loop rounds size f) ≡ true
unfolding dispatch_loop
loop-returns [] size f h = ground arith
loop-returns (round ∷ rounds) size f h =
    after-returns rounds size (dispatch_round round size f)
      (elim (or-cases (interrupts round) (any_interrupts rounds) h) [
        | inl e ↦ inl (round-finish round size f e)
        | inr e ↦ inr (λ f'. loop-returns rounds size f' e)
      ])

exit-returns :
    (removed : Bool) (r : Option Fetch)
    → returns r ≡ true
    → returns
        (elim r as (λ x. Option Fetch) [ none ↦ none | some f ↦ some (dispatch_exit removed f) ])
      ≡ true
exit-returns removed none h = h
exit-returns removed (some f) h = refl

-- A fetch returns if in one of its rounds the device is removed, before the wait or between the wait and
-- the test that follows it, or the wait is ended by the removal event or an alert, whatever the other
-- rounds bring.
pub dispatch_request-returns :
    (caller : Caller) (rounds : List Round) (d : Device) (handle : ℕ) (request : IoRequest)
    (m : Memory)
    → any_interrupts rounds ≡ true
    → returns (dispatch_request caller rounds d handle request m) ≡ true
unfolding dispatch_request
dispatch_request-returns caller rounds d handle request m h = ground (
  arith,
  exit-returns caller.removed_at_exit
      (dispatch_loop rounds caller.data_buffer_size (begin_fetch d handle request m))
      (loop-returns rounds caller.data_buffer_size (begin_fetch d handle request m) h),
)
