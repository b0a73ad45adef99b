-- ===== src/Lifecycle/Conservation.antt =====
-- No request is lost and none is completed twice, for the request paths of driver/scsi_function.c,
-- driver/wnbd_dispatch.c and driver/util.c.
use wnbd.Prelude.{ℕ, ◌+◌, ◌≤◌, ◌≡◌, false, List, arith}
use wnbd.Types.{Device, Element}
use wnbd.Books.{total, is_number, is_addr, is_id, is_srb}
use wnbd.Lifecycle.{Reach, reach-Accounts}

-- After any sequence of calls and fetch rounds, each SRB that was queued is in the pending list, in
-- the submitted list, left behind by a removal, or handed back to StorPort, and in all as often as it
-- was queued.
pub reach-conserved :
    (arrived : List ℕ) (lost : List Element) (d : Device) (i : ℕ)
    → Reach arrived lost d
    → total (is_id i) d.pending
        + total (is_id i) d.submitted
        + total (is_id i) lost
        + total (is_srb i) d.notified
      ≡ total (is_number i) arrived
reach-conserved arrived lost d i r = (reach-Accounts r).books.conserved i

-- After any sequence of calls and fetch rounds, an SRB that was queued once at most was handed back
-- to StorPort once at most, and one that is still in a queue was not handed back at all.
pub reach-completed_once :
    (arrived : List ℕ) (lost : List Element) (d : Device) (i : ℕ)
    → Reach arrived lost d
    → total (is_number i) arrived ≤ 1
    → total (is_id i) d.pending + total (is_id i) d.submitted + total (is_srb i) d.notified ≤ 1
reach-completed_once arrived lost d i r h = omega (arith, reach-conserved arrived lost d i r)

-- After any sequence of calls and fetch rounds on a device that is not being removed, no request was
-- left behind: each SRB that was queued is in a queue or was handed back to StorPort.
pub reach-kept :
    (arrived : List ℕ) (lost : List Element) (d : Device) (i : ℕ)
    → Reach arrived lost d
    → d.hard_remove ≡ false
    → total (is_id i) d.pending + total (is_id i) d.submitted + total (is_srb i) d.notified
      ≡ total (is_number i) arrived
reach-kept arrived lost d i r h =
    ground (arith, reach-conserved arrived lost d i r, (reach-Accounts r).kept h)

-- After any sequence of calls and fetch rounds, no queue element is in two places of the pool, the
-- pending list and the submitted list, nor twice in one: an element that is in use is not handed out.
pub reach_unique :
    (arrived : List ℕ) (lost : List Element) (d : Device) (a : ℕ)
    → Reach arrived lost d
    → total (is_number a) d.pool + total (is_addr a) d.pending + total (is_addr a) d.submitted ≤ 1
reach_unique arrived lost d a r = omega (arith, (reach-Accounts r).books.unique a)
