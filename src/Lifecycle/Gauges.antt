-- ===== src/Lifecycle/Gauges.antt =====
-- The counters of WNBD_DRV_STATS, include/wnbd_ioctl.h, against the lists they count, and the tag
-- hash against the submitted list.
use wnbd.Prelude.{ℕ, ◌+◌, ◌≡◌, false, List, [], ◌∷◌, arith, length}
use wnbd.Word.{wrap64}
use wnbd.Types.{Device, Element}
use wnbd.Submitted.Sync.{IsSynced}
use wnbd.Books.{total, unit_weight}
use wnbd.Lifecycle.{Reach, reach-Accounts}

total-length : (xs : List Element) → total unit_weight xs ≡ length xs
total-length [] = omega arith
total-length (x ∷ xs) = omega (arith, total-length xs)

-- After any sequence of calls and fetch rounds on a device that is not being removed, and modulo
-- 2^64: OutstandingIOCount counts both lists, UnsubmittedIORequests the pending list and what drains
-- aborted from it, PendingSubmittedIORequests the submitted list and what drains aborted from it.
pub reach-gauges :
    (arrived : List ℕ) (lost : List Element) (d : Device)
    → Reach arrived lost d
    → d.hard_remove ≡ false
    → (wrap64 d.stats.outstanding_io_count ≡ wrap64 (length d.pending + length d.submitted))
      × (wrap64 d.stats.unsubmitted_requests
          ≡ wrap64 (length d.pending + d.stats.aborted_unsubmitted_requests))
      × (wrap64 d.stats.pending_submitted_requests
          ≡ wrap64 (length d.submitted + d.stats.aborted_submitted_requests))
reach-gauges arrived lost d r h =
    let a = reach-Accounts r in
    ground (
      arith,
      a.kept h,
      a.books.outstanding,
      a.books.unsubmitted,
      a.books.pending_submitted,
      total-length d.pending,
      total-length d.submitted,
    )

-- After any sequence of calls and fetch rounds, every bucket of the tag hash holds exactly the
-- submitted elements whose tags it is for, the latest first, and no element is submitted twice.
pub reach-IsSynced :
    (arrived : List ℕ) (lost : List Element) (d : Device) → Reach arrived lost d → IsSynced d
reach-IsSynced arrived lost d r = (reach-Accounts r).synced
