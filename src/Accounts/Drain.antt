-- ===== src/Accounts/Drain.antt =====
-- A drain of either list, DrainDeviceQueue of driver/util.c, keeps the accounts.
use wnbd.Prelude.{
  ℕ, zero, suc, ◌≡◌, refl, Bool, true, false, Option, none, some, List, [], ◌∷◌, arith, subst,
  either-if, length, if◌then◌else◌, ◌&&◌,
}
use wnbd.Types.{Device, Element}
use wnbd.Submitted.{pop_head, remove_head}
use wnbd.Submitted.Sync.{IsSynced, remove_head-IsSynced}
use wnbd.Request.Complete.{
  DrainOptions, abort_element, pop_pending, remove_pending, remove_next, now_stale, drain_loop,
  after_drain, drain_device_queue, disconnect_async,
}
use wnbd.Books.{Books}
use wnbd.Books.Moves.{abort_pending-Books, abort_submitted-Books}
use wnbd.Accounts.{Accounts, Books-at, Books-same, IsSynced-same}

module _ (arrived : List ℕ) (lost : List Element) where
  abbrev Aborted : Bool → Option Element × Device → Type 0
  Aborted which (none, d) = Accounts arrived lost d
  Aborted which (some e, d) = Accounts arrived lost (abort_element which d e)

  aborted-Accounts :
      (which : Bool) (d : Device) (e : Element)
      → Books arrived lost d.pending d.submitted (abort_element which d e)
      → IsSynced d
      → (d.hard_remove ≡ false → lost ≡ [])
      → Accounts arrived lost (abort_element which d e)
  unfolding abort_element
  aborted-Accounts which d e b v k = record {
    books = Books-at (ground arith) (ground arith) b;
    synced = IsSynced-same d _ (ground arith) (ground arith) v;
    kept = λ r. ground (arith, k);
  }

  pending-Accounts :
      (d : Device) (p : List Element)
      → d.pending ≡ p
      → Accounts arrived lost d
      → Aborted false (pop_pending d p)
  unfolding pop_pending
  pending-Accounts d [] h a = a
  pending-Accounts d (e ∷ es) h a =
      let d' : Device = (pop_pending d (e ∷ es)).1 in
      let b : Books arrived lost (e ∷ es) d.submitted d' =
        Books-same d _ refl refl refl (subst (λ q. Books arrived lost q d.submitted d) h a.books) in
      aborted-Accounts false d' e (abort_pending-Books e b) (IsSynced-same d d' refl refl a.synced)
        a.kept

  submitted-Accounts :
      (d : Device) (s : List Element)
      → d.submitted ≡ s
      → IsSynced (pop_head d s).1
      → Accounts arrived lost d
      → Aborted true (pop_head d s)
  unfolding pop_head
  submitted-Accounts d [] h v a = a
  submitted-Accounts d (e ∷ es) h v a =
      let d' : Device = (pop_head d (e ∷ es)).1 in
      let b : Books arrived lost d.pending (e ∷ es) d' =
        Books-same d _ refl refl refl (subst (λ q. Books arrived lost d.pending q d) h a.books) in
      aborted-Accounts true d' e (abort_submitted-Books e b) v a.kept

  next-Accounts :
      (which : Bool) (d : Device) → Accounts arrived lost d → Aborted which (remove_next which d)
  unfolding remove_next remove_pending remove_head
  next-Accounts true d a =
      submitted-Accounts d d.submitted refl (unfold remove_head in remove_head-IsSynced d a.synced)
        a
  next-Accounts false d a = pending-Accounts d d.pending refl a

  abbrev go_on : ℕ → Bool → Bool → DrainOptions → ℕ → Bool → Option Element → Device → Device × Bool
  go_on fuel which check opts now seen next d = elim next [
    | none ↦ (d, seen)
    | some e ↦
        drain_loop fuel which check opts now (now_stale check seen opts now e d.stats)
          (abort_element which d e)
  ]

  after_next :
      (fuel : ℕ) (which check : Bool) (opts : DrainOptions) (now : ℕ) (seen : Bool)
      (r : Option Element × Device)
      → ((seen' : Bool) (d : Device)
          → Accounts arrived lost d
          → Accounts arrived lost (drain_loop fuel which check opts now seen' d).0)
      → Aborted which r
      → Accounts arrived lost (go_on fuel which check opts now seen r.0 r.1).0
  after_next fuel which check opts now seen (none, d) k a = a
  after_next fuel which check opts now seen (some e, d) k a = k _ _ a

  pub drain_loop-Accounts :
      (fuel : ℕ) (which check : Bool) (opts : DrainOptions) (now : ℕ) (seen : Bool) (d : Device)
      → Accounts arrived lost d
      → Accounts arrived lost (drain_loop fuel which check opts now seen d).0
  unfolding drain_loop
  drain_loop-Accounts zero which check opts now seen d a = a
  drain_loop-Accounts (suc fuel) which check opts now seen d a =
      after_next fuel which check opts now seen (remove_next which d)
        (λ seen' d' a'. drain_loop-Accounts fuel which check opts now seen' d' a')
        (next-Accounts which d a)

  pub disconnect_async-Accounts :
      (d : Device) → Accounts arrived lost d → Accounts arrived lost (disconnect_async d)
  unfolding disconnect_async
  disconnect_async-Accounts d a = record {
    books = Books-same d _ refl refl refl a.books;
    synced = IsSynced-same d _ refl refl a.synced;
    kept = λ r. cc;
  }

  after_drain-Accounts :
      (opts : DrainOptions) (r : Device × Bool)
      → Accounts arrived lost r.0
      → Accounts arrived lost (after_drain opts r)
  unfolding after_drain
  after_drain-Accounts opts (d, stale) a =
      either-if (Accounts arrived lost) (stale && opts.remove_stale_connections)
        (disconnect_async d) d (disconnect_async-Accounts d a) a

  pub drain_device_queue-Accounts :
      (which check : Bool) (opts : DrainOptions) (now : ℕ) (d : Device)
      → Accounts arrived lost d
      → Accounts arrived lost (drain_device_queue which check opts now d)
  unfolding drain_device_queue
  drain_device_queue-Accounts which check opts now d a = after_drain-Accounts opts _ (
      drain_loop-Accounts (suc (length (if which then d.submitted else d.pending))) which check opts
        now false d a)
