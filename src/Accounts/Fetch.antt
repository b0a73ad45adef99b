-- ===== src/Accounts/Fetch.antt =====
-- A round of a fetch, WnbdDispatchRequest of driver/wnbd_dispatch.c, keeps the accounts.
use wnbd.Prelude.{
  ℕ, ◌-◌, ◌≡◌, refl, Bool, true, false, ◌||◌, Option, none, some, List, [], ◌∷◌, ◌++◌, arith, subst,
  sym, if◌then◌else◌, ◌⊎◌, inl, inr,
}
use wnbd.Wdk.{SrbStatus}
use wnbd.Types.{
  RequestType, req_unknown, req_write, req_unmap, req_persist_res_out, Device, Element,
}
use wnbd.Cdb.{opcode, request_type}
use wnbd.Submitted.{insert}
use wnbd.Submitted.Sync.{IsSynced, insert-IsSynced}
use wnbd.Request.Complete.{pop_pending, remove_pending}
use wnbd.Request.Send.{
  Wait, work, removal, alerted, Round, Fetch, RoundEnd, again, finish, fail_element, submit,
  submitted_end, send_unmap, copy_payload, send_payload, send_type, send_cdb, send_element, filled,
}
use wnbd.Word.{inc64}
use wnbd.Request.Dispatch.{
  zero_request, tagged, set_hard, take_element, take_work, wait_round, dispatch_round,
}
use wnbd.Books.{Books, IsFresh-of_total}
use wnbd.Books.Moves.{fail_element-Books, submit-Books, tagged-Books, lose-Books}
use wnbd.Accounts.{Accounts, Books-at, Books-same, IsSynced-same}

abbrev pub device_of : RoundEnd → Device
device_of (again f) = f.device
device_of (finish f) = f.device

-- The element was completed with a failure, or became a submitted request.
abbrev Settled : ℕ → Device → Element → RoundEnd → Type 0
Settled now d e r =
    (device_of r ≡ fail_element d e SrbStatus.internal_error)
    ⊎ (device_of r ≡ fail_element d e SrbStatus.invalid_request)
    ⊎ (device_of r ≡ submit d e now)

module _ (round : Round) (size : ℕ) where
  send_unmap-Settled :
      (f : Fetch) (e : Element) → Settled round.now f.device e (send_unmap round size f e)
  unfolding send_unmap submitted_end
  send_unmap-Settled f e = ground arith

  send_payload-Settled :
      (f : Fetch) (e : Element) → Settled round.now f.device e (send_payload round size f e)
  unfolding send_payload copy_payload submitted_end
  send_payload-Settled f e = ground arith

  send_type-Settled :
      (f : Fetch) (e : Element) (type : RequestType)
      → Settled round.now f.device e (send_type round size f e type)
  unfolding send_type submitted_end
  send_type-Settled f e req_unmap = send_unmap-Settled f e
  send_type-Settled f e req_write = send_payload-Settled f e
  send_type-Settled f e req_persist_res_out = send_payload-Settled f e
  send_type-Settled f e _ = inr (inr refl)

  send_cdb-Settled :
      (f : Fetch) (e : Element) (cdb : Option (List ℕ))
      → Settled round.now f.device e (send_cdb round size f e cdb)
  unfolding send_cdb
  send_cdb-Settled f e none = send_type-Settled (filled f e [] req_unknown) e req_unknown
  send_cdb-Settled f e (some cdb) =
      send_type-Settled (filled f e cdb (request_type (opcode cdb))) e (request_type (opcode cdb))

  send_element-Settled :
      (f : Fetch) (e : Element) → Settled round.now f.device e (send_element round size f e)
  unfolding send_element
  send_element-Settled f e = ground (arith, send_cdb-Settled f e e.srb.cdb)

-- The request that a round removed from the pending list, if it then stops for a removal.
abbrev pub lost_if : Bool → Option Element → List Element
lost_if hard none = []
lost_if hard (some e) = if hard then e ∷ [] else []

abbrev first : List Element → Option Element
first [] = none
first (e ∷ es) = some e

abbrev left_work : Round → Device → Wait → List Element
left_work round d work = lost_if (d.hard_remove || round.removed_during) (first d.pending)
left_work round d _ = []

abbrev pub left_behind : Round → Fetch → List Element
left_behind round f =
    let d = (set_hard round.removed_before f).device in
    if d.hard_remove then [] else left_work round d round.wait

module _ (arrived : List ℕ) (lost : List Element) where
  failed-Accounts :
      (d : Device) (e : Element) (status : SrbStatus)
      → Books arrived lost (e ∷ d.pending) d.submitted d
      → IsSynced d
      → (d.hard_remove ≡ false → lost ≡ [])
      → Accounts arrived lost (fail_element d e status)
  unfolding fail_element
  failed-Accounts d e status b v k = record {
    books = Books-at (ground arith) (ground arith) (fail_element-Books e status b);
    synced = IsSynced-same d _ (ground arith) (ground arith) v;
    kept = λ h. ground (arith, k);
  }

  submitted-Accounts :
      (d : Device) (e : Element) (now : ℕ)
      → Books arrived lost (e ∷ d.pending) d.submitted d
      → IsSynced d
      → (d.hard_remove ≡ false → lost ≡ [])
      → Accounts arrived lost (submit d e now)
  unfolding submit insert
  submitted-Accounts d e now b v k = record {
    books = Books-at (ground arith) (ground arith) (submit-Books e now b);
    synced = IsSynced-same (insert d e) _ refl refl (
        insert-IsSynced d e v
          (IsFresh-of_total e.addr d.submitted (ground (arith, b.unique e.addr))));
    kept = λ h. ground (arith, k);
  }

  Settled-Accounts :
      (now : ℕ) (d : Device) (e : Element) (r : RoundEnd)
      → Settled now d e r
      → Books arrived lost (e ∷ d.pending) d.submitted d
      → IsSynced d
      → (d.hard_remove ≡ false → lost ≡ [])
      → Accounts arrived lost (device_of r)
  Settled-Accounts now d e r (inl h) b v k =
      subst (Accounts arrived lost) (sym h) (failed-Accounts d e SrbStatus.internal_error b v k)
  Settled-Accounts now d e r (inr (inl h)) b v k =
      subst (Accounts arrived lost) (sym h) (failed-Accounts d e SrbStatus.invalid_request b v k)
  Settled-Accounts now d e r (inr (inr h)) b v k =
      subst (Accounts arrived lost) (sym h) (submitted-Accounts d e now b v k)

  lost-Accounts :
      (d : Device) (e : Element)
      → d.hard_remove ≡ true
      → Books arrived lost (e ∷ d.pending) d.submitted d
      → IsSynced d
      → Accounts arrived (e ∷ lost) d
  lost-Accounts d e h b v = record {
    books = lose-Books e b;
    synced = v;
    kept = λ k. ground (arith, h);
  }

  -- Where a removal stops the round, and where it does not.
  either-Accounts :
      (hard : Bool) (e : Element) (x y : RoundEnd)
      → (hard ≡ true → Accounts arrived (e ∷ lost) (device_of x))
      → Accounts arrived lost (device_of y)
      → Accounts arrived (lost_if hard (some e) ++ lost) (device_of (if hard then x else y))
  either-Accounts true e x y h k = h refl
  either-Accounts false e x y h k = k

  take_some-Accounts :
      (round : Round) (size : ℕ) (f : Fetch) (e : Element)
      → Books arrived lost (e ∷ f.device.pending) f.device.submitted f.device
      → IsSynced f.device
      → (f.device.hard_remove ≡ false → lost ≡ [])
      → Accounts arrived
          (lost_if f.device.hard_remove (some e) ++ lost)
          (device_of (take_element round size f (some e)))
  unfolding take_element
  take_some-Accounts round size f e b v k =
      let handle = inc64 f.request_handle in
      let f' : Fetch = record f { request_handle = handle; request = zero_request } in
      either-Accounts f.device.hard_remove e (finish f)
        (send_element round size f' (tagged handle e)) (λ h. lost-Accounts f.device e h b v)
        (Settled-Accounts round.now f.device (tagged handle e)
          (send_element round size f' (tagged handle e))
          (send_element-Settled round size f' (tagged handle e)) (tagged-Books e handle b) v k)

  take_none-Accounts :
      (round : Round) (size : ℕ) (f : Fetch)
      → Accounts arrived lost f.device
      → Accounts arrived lost (device_of (take_element round size f none))
  unfolding take_element
  take_none-Accounts round size f a = ground (arith, a)

  -- A removal that another thread asks for.
  pub set_hard-Accounts :
      (flag : Bool) (f : Fetch)
      → Accounts arrived lost f.device
      → Accounts arrived lost (set_hard flag f).device
  unfolding set_hard
  set_hard-Accounts flag f a = record {
    books = Books-same f.device _ refl refl refl a.books;
    synced = IsSynced-same f.device _ refl refl a.synced;
    kept = λ h. ground (arith, a.kept);
  }

  taken-Accounts :
      (round : Round) (size : ℕ) (f : Fetch) (d : Device) (p : List Element)
      → d.pending ≡ p
      → Accounts arrived lost d
      → Accounts arrived (lost_if (d.hard_remove || round.removed_during) (first p) ++ lost) (
          device_of (
            take_element round size
              (set_hard round.removed_during (record f { device = (pop_pending d p).1 }))
              (pop_pending d p).0))
  unfolding pop_pending
  taken-Accounts round size f d [] h a =
      take_none-Accounts round size (set_hard round.removed_during (record f { device = d }))
        (set_hard-Accounts round.removed_during (record f { device = d }) a)
  taken-Accounts round size f d (e ∷ es) h a =
      let d' : Device =
        (set_hard round.removed_during (record f { device = (pop_pending d (e ∷ es)).1 })).device in
      let b : Books arrived lost (e ∷ es) d.submitted d' =
        unfold set_hard in
        Books-same d _ refl refl refl (subst (λ q. Books arrived lost q d.submitted d) h a.books) in
      unfold set_hard in
      take_some-Accounts round size
        (set_hard round.removed_during (record f { device = (pop_pending d (e ∷ es)).1 })) e b
        (IsSynced-same d d' refl refl a.synced) (λ k. ground (arith, a.kept))

  work-Accounts :
      (round : Round) (size : ℕ) (f : Fetch)
      → Accounts arrived lost f.device
      → Accounts arrived
          (left_work round f.device work ++ lost)
          (device_of (take_work round size f))
  unfolding take_work remove_pending
  work-Accounts round size f a =
      let d : Device = record f.device { device_event = f.device.device_event - 1 } in
      taken-Accounts round size f d d.pending refl (record {
        books = Books-same f.device d refl refl refl a.books;
        synced = IsSynced-same f.device d refl refl a.synced;
        kept = a.kept;
      })

  wait-Accounts :
      (round : Round) (size : ℕ) (f : Fetch) (wait : Wait)
      → Accounts arrived lost f.device
      → Accounts arrived
          (left_work round f.device wait ++ lost)
          (device_of (wait_round round size f wait))
  unfolding wait_round
  wait-Accounts round size f work a = work-Accounts round size f a
  wait-Accounts round size f removal a = a
  wait-Accounts round size f alerted a = record {
    books = Books-same f.device _ refl refl refl a.books;
    synced = IsSynced-same f.device _ refl refl a.synced;
    kept = a.kept;
  }

  either-left :
      (hard : Bool) (left : List Element) (x y : RoundEnd)
      → Accounts arrived lost (device_of x)
      → Accounts arrived (left ++ lost) (device_of y)
      → Accounts arrived ((if hard then [] else left) ++ lost) (device_of (if hard then x else y))
  either-left true left x y h k = h
  either-left false left x y h k = k

  pub dispatch_round-Accounts :
      (round : Round) (size : ℕ) (f : Fetch)
      → Accounts arrived lost f.device
      → Accounts arrived (left_behind round f ++ lost) (device_of (dispatch_round round size f))
  unfolding dispatch_round
  dispatch_round-Accounts round size f a =
      let f' : Fetch = set_hard round.removed_before f in
      let a' = set_hard-Accounts round.removed_before f a in
      either-left f'.device.hard_remove (left_work round f'.device round.wait) (finish f')
        (wait_round round size f' round.wait) a' (wait-Accounts round size f' round.wait a')
