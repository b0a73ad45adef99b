-- ===== src/Submitted.antt =====
-- The submitted requests of a device, driver/util.c: the list in submission order, and the hash of
-- the same elements by tag. Both are linked through the element, so an element leaves a list by its
-- own address.
pub mod Buckets
pub mod Sync
pub mod Lookup
use wnbd.Prelude.{
  ℕ, ◌%◌, Bool, true, false, Option, none, some, List, [], ◌∷◌, ◌++◌, ◌==◌, if◌then◌else◌,
}
use wnbd.Types.{Device, Element}

-- WNBD_SUBMITTED_REQ_HASH_BUCKETS
abbrev pub bucket_count : ℕ
bucket_count = 256

-- WnbdSubmittedReqBucket: `Tag & (buckets - 1)`, the count a power of two.
unfoldable pub bucket : ℕ → ℕ
bucket tag = tag % bucket_count

-- WnbdInitSubmittedReqHash
unfoldable pub init_hash : Device → Device
init_hash d = record d { buckets = λ b. [] }

-- Hash buckets with the one at `b` replaced.
abbrev pub set_bucket : (ℕ → List Element) → ℕ → List Element → ℕ → List Element
set_bucket buckets b xs i = if i == b then xs else buckets i

-- RemoveEntryList on the element at `addr`.
unfoldable pub unlink : ℕ → List Element → List Element
unlink addr [] = []
unlink addr (e ∷ es) = if e.addr == addr then es else e ∷ unlink addr es

-- WnbdSubmittedReqInsert: last in the list, first in its bucket.
unfoldable pub insert : Device → Element → Device
unfolding bucket
insert d e = record d {
  submitted = d.submitted ++ e ∷ [];
  buckets = set_bucket d.buckets (bucket e.tag) (e ∷ d.buckets (bucket e.tag));
}

-- The walk of a bucket's chain up to the element with the tag.
unfoldable pub find_tag : ℕ → List Element → Option Element
find_tag tag [] = none
find_tag tag (e ∷ es) = if e.tag == tag then some e else find_tag tag es

-- An element out of the list and out of a bucket.
unfoldable pub unlink_both : Device → ℕ → Element → Device
unfolding unlink
unlink_both d b e = record d {
  submitted = unlink e.addr d.submitted;
  buckets = set_bucket d.buckets b (unlink e.addr (d.buckets b));
}

-- WnbdSubmittedReqRemoveByTag
unfoldable pub remove_by_tag : Device → ℕ → Option Element × Device
unfolding bucket find_tag unlink_both
remove_by_tag d tag = elim (find_tag tag (d.buckets (bucket tag))) [
  | none ↦ (none, d)
  | some e ↦ (some e, unlink_both d (bucket tag) e)
]

-- RemoveEntryList on HashLink: the element leaves the bucket that holds it, that of its tag.
unfoldable pub pop_head : Device → List Element → Option Element × Device
unfolding unlink bucket
pop_head d [] = (none, d)
pop_head d (e ∷ es) = (
  some e,
  record d {
    submitted = es;
    buckets = set_bucket d.buckets (bucket e.tag) (unlink e.addr (d.buckets (bucket e.tag)));
  },
)

-- WnbdSubmittedReqRemoveHead
unfoldable pub remove_head : Device → Option Element × Device
unfolding pop_head
remove_head d = pop_head d d.submitted
