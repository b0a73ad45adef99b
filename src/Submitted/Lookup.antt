-- ===== src/Submitted/Lookup.antt =====
-- `WnbdSubmittedReqRemoveByTag` of driver/util.c against a scan of the whole submitted list.
use wnbd.Prelude.{
  ℕ, ◌≡◌, ◌≢◌, refl, ap, subst, ◌∙◌, none, some, List, [], ◌∷◌, ◌++◌, ◌==◌, if◌then◌else◌, arith,
  All, inl, inr, Option-cases,
}
use wnbd.Types.{Device, Element}
use wnbd.Submitted.{bucket, unlink, find_tag, remove_by_tag}
use wnbd.Submitted.Buckets.{latest, Distinct, ne_of_Member, Member-of_find}
use wnbd.Submitted.Sync.{IsSynced}

-- No tag occurs twice.
abbrev pub DistinctTags : List Element → Type 0
DistinctTags [] = Unit {0}
DistinctTags (e ∷ es) = All (λ x. x.tag ≢ e.tag) es × DistinctTags es

-- The list without its element of that tag.
pub without_tag : ℕ → List Element → List Element
without_tag tag [] = []
without_tag tag (e ∷ es) = if e.tag == tag then es else e ∷ without_tag tag es

find_tag-absent : (tag : ℕ) (xs : List Element) → All (λ x. x.tag ≢ tag) xs → find_tag tag xs ≡ none
unfolding find_tag
find_tag-absent tag [] h = refl
find_tag-absent tag (e ∷ es) h = ground (arith, find_tag-absent tag es h.1)

find_tag-append :
    (tag : ℕ) (xs ys : List Element)
    → find_tag tag xs ≡ none
    → find_tag tag (xs ++ ys) ≡ find_tag tag ys
unfolding find_tag
find_tag-append tag [] ys h = refl
find_tag-append tag (e ∷ es) ys h = ground (arith, find_tag-append tag es ys)

find_tag-snoc_ne :
    (tag : ℕ) (xs : List Element) (e : Element)
    → e.tag ≢ tag
    → find_tag tag (xs ++ e ∷ []) ≡ find_tag tag xs
unfolding find_tag
find_tag-snoc_ne tag [] e h = ground arith
find_tag-snoc_ne tag (x ∷ xs) e h = ground (arith, find_tag-snoc_ne tag xs e h)

find_tag-cons :
    (tag : ℕ) (e : Element) (es : List Element)
    → find_tag tag (e ∷ es) ≡ (if e.tag == tag then some e else find_tag tag es)
unfolding find_tag
find_tag-cons tag e es = refl

find_tag-nil : (tag : ℕ) → find_tag tag [] ≡ none
unfolding find_tag
find_tag-nil tag = refl

-- With distinct tags, the bucket of a tag finds what the whole list finds.
find_tag-latest :
    (tag : ℕ) (xs : List Element)
    → DistinctTags xs
    → find_tag tag (latest (bucket tag) xs) ≡ find_tag tag xs
unfolding latest
find_tag-latest tag [] h = refl
find_tag-latest tag (e ∷ es) h = ground (
  arith,
  λ (p : e.tag ≡ tag). find_tag-absent tag es (subst (λ t. All (λ x. x.tag ≢ t) es) p h.0),
  find_tag-latest tag es h.1,
  find_tag-cons tag e es,
  find_tag-cons tag e [],
  find_tag-nil tag,
  ap bucket {x = e.tag} {y = tag},
  find_tag-append tag (latest (bucket tag) es) (e ∷ []),
  find_tag-snoc_ne tag (latest (bucket tag) es) e,
)

unlink-without_tag :
    (tag : ℕ) (xs : List Element) (e : Element)
    → Distinct xs
    → find_tag tag xs ≡ some e
    → unlink e.addr xs ≡ without_tag tag xs
unfolding find_tag unlink without_tag
unlink-without_tag tag [] e h f = cc
unlink-without_tag tag (x ∷ xs) e h f =
    ground (
      arith,
      unlink-without_tag tag xs e h.1,
      Member-of_find tag xs e,
      ne_of_Member x.addr xs e h.0,
    )

without_tag-absent :
    (tag : ℕ) (xs : List Element) → find_tag tag xs ≡ none → without_tag tag xs ≡ xs
unfolding find_tag without_tag
without_tag-absent tag [] h = refl
without_tag-absent tag (e ∷ es) h = ground (arith, without_tag-absent tag es)

-- With the hash in step and distinct tags, the hashed removal finds the element that a scan of the
-- submitted list finds, or nothing where the scan finds nothing, and leaves the list without it.
pub remove_by_tag-scan :
    (d : Device) (tag : ℕ)
    → IsSynced d
    → DistinctTags d.submitted
    → ((remove_by_tag d tag).0 ≡ find_tag tag d.submitted)
      × ((remove_by_tag d tag).1.submitted ≡ without_tag tag d.submitted)
unfolding remove_by_tag
remove_by_tag-scan d tag v t =
    let same : find_tag tag (d.buckets (bucket tag)) ≡ find_tag tag d.submitted =
      ap (find_tag tag) (v.hashed (bucket tag)) ∙ find_tag-latest tag d.submitted t in
    elim (Option-cases (find_tag tag (d.buckets (bucket tag)))) [
      | inl e ↦ ground (arith, without_tag-absent tag d.submitted)
      | inr (x, e) ↦ ground (arith, unlink-without_tag tag d.submitted x v.distinct)
    ]
