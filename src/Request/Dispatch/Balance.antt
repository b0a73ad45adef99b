-- ===== src/Request/Dispatch/Balance.antt =====
-- WnbdDispatchRequest of driver/wnbd_dispatch.c gives back every MDL and every page lock.
use wnbd.Prelude.{
  ℕ, ◌≡◌, refl, Bool, true, false, Option, none, some, List, [], ◌∷◌, arith, if◌then◌else◌,
}
use wnbd.Types.{
  RequestType, req_unknown, req_write, req_unmap, req_persist_res_out, Device, Element, IoRequest,
}
use wnbd.Cdb.{opcode, request_type}
use wnbd.Request.Memory.{Memory, unmapped, release, lock_fetch_buffer-settled}
use wnbd.Request.Send.{
  Wait, work, removal, alerted, Round, Fetch, RoundEnd, again, finish, submitted_end, send_unmap,
  send_payload, send_type, send_cdb, send_element, filled,
}
use wnbd.Request.Dispatch.{
  Caller, set_hard, take_element, take_work, wait_round, dispatch_round, dispatch_loop,
  dispatch_exit, dispatch_request, begin_fetch,
}

abbrev HoldsNothing : Memory → Fetch → Type 0
HoldsNothing m f = (f.mapping ≡ unmapped) × (f.memory ≡ m)

-- What a round leaves: nothing where the loop goes on, and what is released where it ends.
abbrev Leaves : Memory → RoundEnd → Type 0
Leaves m (again f) = HoldsNothing m f
Leaves m (finish f) = release f.mapping f.memory ≡ m

data IsBalanced (m : Memory) (r : RoundEnd) : Type 0 where
  balanced : Leaves m r → IsBalanced m r

leaves : {m : Memory} {r : RoundEnd} → IsBalanced m r → Leaves m r
leaves (balanced h) = h

release-unmapped : (m : Memory) → release unmapped m ≡ m
unfolding release
release-unmapped m = refl

held : (m : Memory) (f : Fetch) → HoldsNothing m f → release f.mapping f.memory ≡ m
held m f h = rw (h.0, h.1) (release-unmapped m)

IsBalanced-if :
    {m : Memory} (b : Bool) {x y : RoundEnd}
    → (b ≡ true → IsBalanced m x)
    → (b ≡ false → IsBalanced m y)
    → IsBalanced m (if b then x else y)
IsBalanced-if true f g = f refl
IsBalanced-if false f g = g refl

module _ (m : Memory) (round : Round) (size : ℕ) where
  send_unmap-IsBalanced :
      (f : Fetch) (e : Element) → HoldsNothing m f → IsBalanced m (send_unmap round size f e)
  unfolding send_unmap
  send_unmap-IsBalanced f e h =
      balanced (ground (arith, lock_fetch_buffer-settled round.lock f.memory, release-unmapped m))

  send_payload-IsBalanced :
      (f : Fetch) (e : Element) → HoldsNothing m f → IsBalanced m (send_payload round size f e)
  unfolding send_payload
  send_payload-IsBalanced f e h =
      balanced (ground (arith, lock_fetch_buffer-settled round.lock f.memory, release-unmapped m))

  send_type-IsBalanced :
      (f : Fetch) (e : Element) (type : RequestType)
      → HoldsNothing m f
      → IsBalanced m (send_type round size f e type)
  unfolding send_type
  send_type-IsBalanced f e req_unmap h = send_unmap-IsBalanced f e h
  send_type-IsBalanced f e req_write h = send_payload-IsBalanced f e h
  send_type-IsBalanced f e req_persist_res_out h = send_payload-IsBalanced f e h
  send_type-IsBalanced f e _ h = unfold submitted_end in balanced (held m f h)

  send_cdb-IsBalanced :
      (f : Fetch) (e : Element) (cdb : Option (List ℕ))
      → HoldsNothing m f
      → IsBalanced m (send_cdb round size f e cdb)
  unfolding send_cdb
  send_cdb-IsBalanced f e none h = send_type-IsBalanced (filled f e [] req_unknown) e req_unknown h
  send_cdb-IsBalanced f e (some cdb) h =
      send_type-IsBalanced (filled f e cdb (request_type (opcode cdb))) e _ h

  send_element-IsBalanced :
      (f : Fetch) (e : Element) → HoldsNothing m f → IsBalanced m (send_element round size f e)
  unfolding send_element
  send_element-IsBalanced f e h = search (IsBalanced-if, send_cdb-IsBalanced, balanced, h)

  take_element-IsBalanced :
      (f : Fetch) (head : Option Element)
      → HoldsNothing m f
      → IsBalanced m (take_element round size f head)
  unfolding take_element
  take_element-IsBalanced f none h = search (IsBalanced-if, balanced, held m f, h)
  take_element-IsBalanced f (some e) h =
      search (IsBalanced-if, send_element-IsBalanced, balanced, held m f, h)

  take_work-IsBalanced : (f : Fetch) → HoldsNothing m f → IsBalanced m (take_work round size f)
  unfolding take_work set_hard
  take_work-IsBalanced f h = search (take_element-IsBalanced, h)

  wait_round-IsBalanced :
      (f : Fetch) (wait : Wait) → HoldsNothing m f → IsBalanced m (wait_round round size f wait)
  unfolding wait_round
  wait_round-IsBalanced f work h = take_work-IsBalanced f h
  wait_round-IsBalanced f removal h = balanced (held m f h)
  wait_round-IsBalanced f alerted h = balanced (held m f h)

  dispatch_round-IsBalanced :
      (f : Fetch) → HoldsNothing m f → IsBalanced m (dispatch_round round size f)
  unfolding dispatch_round set_hard
  dispatch_round-IsBalanced f h =
      search (IsBalanced-if, balanced, wait_round-IsBalanced, held m f, h)

abbrev Released : Memory → Option Fetch → Type 0
Released m none = Unit {0}
Released m (some f) = release f.mapping f.memory ≡ m

after_round :
    (m : Memory) (rounds : List Round) (size : ℕ) (r : RoundEnd)
    → IsBalanced m r
    → ((f : Fetch) → HoldsNothing m f → Released m (dispatch_loop rounds size f))
    → Released m (elim r [ again f ↦ dispatch_loop rounds size f | finish f ↦ some f ])
after_round m rounds size (again f) (balanced h) k = k f h
after_round m rounds size (finish f) (balanced h) k = h

dispatch_loop-Released :
    (m : Memory) (rounds : List Round) (size : ℕ) (f : Fetch)
    → HoldsNothing m f
    → Released m (dispatch_loop rounds size f)
unfolding dispatch_loop
dispatch_loop-Released m [] size f h = tt
dispatch_loop-Released m (round ∷ rounds) size f h =
    after_round m rounds size (dispatch_round round size f)
      (dispatch_round-IsBalanced m round size f h)
      (λ f' h'. dispatch_loop-Released m rounds size f' h')

exit-balanced :
    (m : Memory) (removed : Bool) (r : Option Fetch) (f : Fetch)
    → Released m r
    → elim r [ none ↦ none | some f' ↦ some (dispatch_exit removed f') ] ≡ some f
    → (f.mapping ≡ unmapped) × (f.memory ≡ m)
unfolding dispatch_exit set_hard
exit-balanced m removed none f h e = cc
exit-balanced m removed (some f') f h e = ground arith

-- Whatever the rounds bring, failed locks, failed mappings, several requests, an alert or a removal,
-- a fetch that returns holds no MDL and no page lock that was not held when it was called.
pub dispatch_request-balanced :
    (caller : Caller) (rounds : List Round) (d : Device) (handle : ℕ) (request : IoRequest)
    (m : Memory) (f : Fetch)
    → dispatch_request caller rounds d handle request m ≡ some f
    → (f.mapping ≡ unmapped) × (f.memory ≡ m)
unfolding dispatch_request
dispatch_request-balanced caller rounds d handle request m f e = ground (
  arith,
  exit-balanced m caller.removed_at_exit
      (dispatch_loop rounds caller.data_buffer_size (begin_fetch d handle request m)) f
      (dispatch_loop-Released m rounds caller.data_buffer_size (begin_fetch d handle request m)
        (refl, refl)),
)
