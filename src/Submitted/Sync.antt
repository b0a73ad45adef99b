-- ===== src/Submitted/Sync.antt =====
-- The tag hash of driver/util.c holds what the submitted list holds, after every operation.
use wnbd.Prelude.{ℕ, ◌≡◌, refl, some, List, [], ◌∷◌, arith, inl, inr, Option-cases, subst, ap, ◌∙◌}
use wnbd.Types.{Device, Element}
use wnbd.Submitted.{
  bucket, init_hash, set_bucket, unlink, insert, find_tag, unlink_both, remove_by_tag, pop_head,
  remove_head,
}
use wnbd.Submitted.Buckets.{
  latest, IsFresh, Distinct, Member, latest-snoc, latest-unlink, latest-unlink_other,
  IsFresh-latest, unlink-snoc_self, Distinct-unlink, Distinct-snoc, Member-of_find, Member-latest,
}

-- Each bucket holds the submitted elements of its tags, the latest first.
pub record IsSynced (d : Device) : Type 0 where
  pub hashed : (b : ℕ) → d.buckets b ≡ latest b d.submitted
  pub distinct : Distinct d.submitted

pub init_hash-IsSynced : (d : Device) → d.submitted ≡ [] → IsSynced (init_hash d)
unfolding init_hash latest
init_hash-IsSynced d h = record { hashed = λ b. ground arith; distinct = ground arith }

pub insert-IsSynced :
    (d : Device) (e : Element) → IsSynced d → IsFresh e.addr d.submitted → IsSynced (insert d e)
unfolding insert
insert-IsSynced d e v f = record {
  hashed = λ b. ground (arith, latest-snoc b d.submitted e, v.hashed b, v.hashed (bucket e.tag));
  distinct = Distinct-snoc d.submitted e v.distinct f;
}

pub unlink_both-IsSynced :
    (d : Device) (e : Element)
    → IsSynced d
    → Member e d.submitted
    → IsSynced (unlink_both d (bucket e.tag) e)
unfolding unlink_both
unlink_both-IsSynced d e v m = record {
  hashed = λ b. ground (
    arith,
    v.hashed b,
    v.hashed (bucket e.tag),
    latest-unlink (bucket e.tag) e.addr d.submitted v.distinct,
    latest-unlink_other b d.submitted e v.distinct m,
  );
  distinct = Distinct-unlink e.addr d.submitted v.distinct;
}

-- What a successful search of a bucket finds.
pub found_in_bucket :
    (d : Device) (tag : ℕ) (e : Element)
    → IsSynced d
    → find_tag tag (d.buckets (bucket tag)) ≡ some e
    → Member e d.submitted × (e.tag ≡ tag)
found_in_bucket d tag e v h = ground (
  arith,
  v.hashed (bucket tag),
  Member-of_find tag (d.buckets (bucket tag)) e h,
  Member-latest (bucket tag) d.submitted e,
)

pub remove_by_tag-IsSynced : (d : Device) (tag : ℕ) → IsSynced d → IsSynced (remove_by_tag d tag).1
unfolding remove_by_tag
remove_by_tag-IsSynced d tag v = elim (Option-cases (find_tag tag (d.buckets (bucket tag)))) [
  | inl e ↦ ground arith
  | inr (x, e) ↦ ground (arith, found_in_bucket d tag x v e, unlink_both-IsSynced d x v)
]

-- What is left of a synced list when its head goes, from the list and the buckets alone.
head_hashed :
    (buckets : ℕ → List Element) (e : Element) (es : List Element) (b : ℕ)
    → ((i : ℕ) → buckets i ≡ latest i (e ∷ es))
    → IsFresh e.addr es
    → set_bucket buckets (bucket e.tag) (unlink e.addr (buckets (bucket e.tag))) b ≡ latest b es
unfolding latest
head_hashed buckets e es b h f = ground (
  arith,
  h b,
  h (bucket e.tag),
  unlink-snoc_self (latest (bucket e.tag) es) e (IsFresh-latest e.addr (bucket e.tag) es f),
)

pop_head-IsSynced :
    (d : Device) (xs : List Element) → d.submitted ≡ xs → IsSynced d → IsSynced (pop_head d xs).1
unfolding pop_head
pop_head-IsSynced d [] h v = v
pop_head-IsSynced d (e ∷ es) h v =
    let distinct : Distinct (e ∷ es) = subst Distinct h v.distinct in
    let hashed : (b : ℕ) → d.buckets b ≡ latest b (e ∷ es) = λ b. v.hashed b ∙ ap (latest b) h in
    record { hashed = λ b. head_hashed d.buckets e es b hashed distinct.0; distinct = distinct.1 }

pub remove_head-IsSynced : (d : Device) → IsSynced d → IsSynced (remove_head d).1
unfolding remove_head
remove_head-IsSynced d v = pop_head-IsSynced d d.submitted refl v
