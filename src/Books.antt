-- ===== src/Books.antt =====
-- The books of a device: what its counters and lists say of the requests that it was given. An SRB is
-- counted by its address, and so is a queue element.
pub mod Moves
pub mod Arrival
use wnbd.Prelude.{
  ℕ, ◌+◌, ◌≤◌, ◌≡◌, ◌≢◌, refl, Bool, true, false, List, [], ◌∷◌, ◌++◌, ◌==◌, if◌then◌else◌, arith,
  All, ◌⊎◌, inl, inr,
}
use wnbd.Word.{wrap64}
use wnbd.Types.{Device, Element, Srb}
use wnbd.Submitted.{unlink}
use wnbd.Submitted.Buckets.{Distinct, Member, IsFresh, ne_of_Member}

-- The sum of a weight over a list.
abbrev pub total {ℓ} : {A : Type ℓ} → (A → ℕ) → List A → ℕ
total w [] = 0
total w (x ∷ xs) = w x + total w xs

abbrev pub one_if : Bool → ℕ
one_if true = 1
one_if false = 0

abbrev pub is_number : ℕ → ℕ → ℕ
is_number a b = one_if (b == a)

abbrev pub is_addr : ℕ → Element → ℕ
is_addr a e = is_number a e.addr

abbrev pub is_id : ℕ → Element → ℕ
is_id s e = is_number s e.srb.id

abbrev pub is_srb : ℕ → Srb → ℕ
is_srb s srb = is_number s srb.id

abbrev pub unit_weight : Element → ℕ
unit_weight e = 1

pub total-append {ℓ} :
    {A : Type ℓ} (w : A → ℕ) (xs ys : List A) → total w (xs ++ ys) ≡ total w xs + total w ys
total-append w [] ys = omega arith
total-append w (x ∷ xs) ys = omega (arith, total-append w xs ys)

-- An element that is in the list once is what unlinking takes away.
pub total-unlink :
    (w : Element → ℕ) (xs : List Element) (e : Element)
    → Distinct xs
    → Member e xs
    → total w xs ≡ w e + total w (unlink e.addr xs)
unfolding unlink
total-unlink w [] e h m = elim m [ ]
total-unlink w (x ∷ xs) e h (inl p) = ground arith
total-unlink w (x ∷ xs) e h (inr m) =
    ground (arith, total-unlink w xs e h.1 m, ne_of_Member x.addr xs e h.0 m)

-- Neither aborted nor completed.
abbrev pub IsLive : Element → Type 0
IsLive e = (e.aborted ≡ false) × (e.completed ≡ false)

pub All-unlink : (a : ℕ) (xs : List Element) → All IsLive xs → All IsLive (unlink a xs)
unfolding unlink
All-unlink a [] h = tt
All-unlink a (x ∷ xs) h = ground (arith, All-unlink a xs h.1)

pub All-Member : (xs : List Element) (e : Element) → All IsLive xs → Member e xs → IsLive e
All-Member [] e h m = elim m [ ]
All-Member (x ∷ xs) e h (inl p) = ground arith
All-Member (x ∷ xs) e h (inr m) = All-Member xs e h.1 m

pub IsFresh-of_total : (a : ℕ) (xs : List Element) → total (is_addr a) xs ≡ 0 → IsFresh a xs
IsFresh-of_total a [] h = tt
IsFresh-of_total a (x ∷ xs) h = (ground arith, IsFresh-of_total a xs (omega arith))

-- The books balance for pending requests `p`, submitted requests `s` and elements `lost` that a
-- removal left behind, if the SRBs queued so far are `arrived`.
--   unique: no element is in two places.
--   unsubmitted, pending_submitted, outstanding: what the three gauges count, in 64 bits.
--   conserved: each SRB that arrived is in one place, or was handed back, as often as it arrived.
pub record Books (arrived : List ℕ) (lost p s : List Element) (d : Device) : Type 0 where
  pub unique :
      (a : ℕ)
      → total (is_number a) d.pool
          + total (is_addr a) p
          + total (is_addr a) s
          + total (is_addr a) lost
        ≤ 1
  pub live_pending : All IsLive p
  pub live_submitted : All IsLive s
  pub unsubmitted :
      wrap64 d.stats.unsubmitted_requests
      ≡ wrap64 (total unit_weight p + total unit_weight lost + d.stats.aborted_unsubmitted_requests)
  pub pending_submitted :
      wrap64 d.stats.pending_submitted_requests
      ≡ wrap64 (total unit_weight s + d.stats.aborted_submitted_requests)
  pub outstanding :
      wrap64 d.stats.outstanding_io_count
      ≡ wrap64 (total unit_weight p + total unit_weight s + total unit_weight lost)
  pub conserved :
      (i : ℕ)
      → total (is_id i) p + total (is_id i) s + total (is_id i) lost + total (is_srb i) d.notified
        ≡ total (is_number i) arrived
