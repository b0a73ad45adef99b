-- ===== src/Accounts.antt =====
-- What holds of a device between the driver's operations: its books balance for its own lists, its
-- tag hash is in step, and only a device that is being removed has left a request behind.
pub mod Fetch
pub mod Drain
pub mod Reply
pub mod Arrive
use wnbd.Prelude.{ℕ, ◌≡◌, refl, Bool, true, false, List, [], ◌∷◌, arith, subst, sym}
use wnbd.Wdk.{SrbStatus}
use wnbd.Types.{Device, Element}
use wnbd.Submitted.Buckets.{latest, Distinct}
use wnbd.Submitted.Sync.{IsSynced}
use wnbd.Books.{Books}

pub record Accounts (arrived : List ℕ) (lost : List Element) (d : Device) : Type 0 where
  pub books : Books arrived lost d.pending d.submitted d
  pub synced : IsSynced d
  pub kept : d.hard_remove ≡ false → lost ≡ []

pub Books-at :
    {arrived : List ℕ} {lost p s : List Element} {d : Device}
    → p ≡ d.pending
    → s ≡ d.submitted
    → Books arrived lost p s d
    → Books arrived lost d.pending d.submitted d
Books-at {arrived} {lost} {p} {s} {d} h k b =
    subst (λ q. Books arrived lost q d.submitted d) h (subst (λ t. Books arrived lost p t d) k b)

pub IsSynced-same :
    (d d' : Device) → d'.submitted ≡ d.submitted → d'.buckets ≡ d.buckets → IsSynced d → IsSynced d'
IsSynced-same d d' h k v = record {
  hashed = λ b. ground (arith, h, k, v.hashed b);
  distinct = subst Distinct (sym h) v.distinct;
}

pub Books-same :
    {arrived : List ℕ} {lost p s : List Element} (d d' : Device)
    → d'.pool ≡ d.pool
    → d'.stats ≡ d.stats
    → d'.notified ≡ d.notified
    → Books arrived lost p s d
    → Books arrived lost p s d'
Books-same d d' h k l b = record {
  unique = λ a. ground (arith, h, b.unique a);
  live_pending = b.live_pending;
  live_submitted = b.live_submitted;
  unsubmitted = ground (arith, k, b.unsubmitted);
  pending_submitted = ground (arith, k, b.pending_submitted);
  outstanding = ground (arith, k, b.outstanding);
  conserved = λ i. ground (arith, l, b.conserved i);
}
