-- ===== src/Submitted/Buckets.antt =====
-- Lists of queue elements, as the hash of driver/util.c splits them: what stays and what goes when
-- an element is linked or unlinked.
use wnbd.Prelude.{
  ℕ, ◌≡◌, ◌≢◌, refl, sym, some, List, [], ◌∷◌, ◌++◌, ◌==◌, if◌then◌else◌, arith, All, ◌⊎◌, inl, inr,
}
use wnbd.Types.{Element}
use wnbd.Submitted.{bucket, unlink, find_tag}

-- The elements of a list that hash to bucket `b`, the latest first.
unfoldable pub latest : ℕ → List Element → List Element
latest b [] = []
latest b (e ∷ es) = let rest = latest b es in if b == bucket e.tag then rest ++ e ∷ [] else rest

-- `addr` is the address of no element.
abbrev pub IsFresh : ℕ → List Element → Type 0
IsFresh addr = All (λ e. e.addr ≢ addr)

-- No address occurs twice.
abbrev pub Distinct : List Element → Type 0
Distinct [] = Unit {0}
Distinct (e ∷ es) = IsFresh e.addr es × Distinct es

abbrev pub Member : Element → List Element → Type 0
Member e [] = ⊥
Member e (x ∷ xs) = (x ≡ e) ⊎ Member e xs

pub latest-snoc :
    (b : ℕ) (xs : List Element) (e : Element)
    → latest b (xs ++ e ∷ []) ≡ (if b == bucket e.tag then e ∷ latest b xs else latest b xs)
unfolding latest
latest-snoc b [] e = refl
latest-snoc b (x ∷ xs) e = ground (arith, latest-snoc b xs e)

pub unlink-fresh : (addr : ℕ) (xs : List Element) → IsFresh addr xs → unlink addr xs ≡ xs
unfolding unlink
unlink-fresh addr [] h = refl
unlink-fresh addr (e ∷ es) h = ground (arith, unlink-fresh addr es h.1)

pub IsFresh-append :
    (addr : ℕ) (xs ys : List Element) → IsFresh addr xs → IsFresh addr ys → IsFresh addr (xs ++ ys)
IsFresh-append addr [] ys h k = k
IsFresh-append addr (e ∷ es) ys h k = (h.0, IsFresh-append addr es ys h.1 k)

pub IsFresh-latest : (addr b : ℕ) (xs : List Element) → IsFresh addr xs → IsFresh addr (latest b xs)
unfolding latest
IsFresh-latest addr b [] h = tt
IsFresh-latest addr b (e ∷ es) h = ground (
  arith,
  IsFresh-latest addr b es h.1,
  IsFresh-append addr (latest b es) (e ∷ []) (IsFresh-latest addr b es h.1) (h.0, tt),
)

-- The removal of the last entry, where no other has its address.
pub unlink-snoc_self :
    (xs : List Element) (e : Element) → IsFresh e.addr xs → unlink e.addr (xs ++ e ∷ []) ≡ xs
unfolding unlink
unlink-snoc_self [] e h = ground arith
unlink-snoc_self (x ∷ xs) e h = ground (arith, unlink-snoc_self xs e h.1)

unlink-snoc_ne :
    (addr : ℕ) (xs : List Element) (e : Element)
    → e.addr ≢ addr
    → unlink addr (xs ++ e ∷ []) ≡ unlink addr xs ++ e ∷ []
unfolding unlink
unlink-snoc_ne addr [] e h = ground arith
unlink-snoc_ne addr (x ∷ xs) e h = ground (arith, unlink-snoc_ne addr xs e h)

-- Unlinking an element from the list is unlinking it from its bucket.
pub latest-unlink :
    (b addr : ℕ) (xs : List Element)
    → Distinct xs
    → latest b (unlink addr xs) ≡ unlink addr (latest b xs)
unfolding latest unlink
latest-unlink b addr [] h = refl
latest-unlink b addr (e ∷ es) h = ground (
  arith,
  latest-unlink b addr es h.1,
  unlink-snoc_self (latest b es) e (IsFresh-latest e.addr b es h.0),
  unlink-snoc_ne addr (latest b es) e,
  unlink-fresh e.addr (latest b es) (IsFresh-latest e.addr b es h.0),
)

pub ne_of_Member :
    (addr : ℕ) (xs : List Element) (e : Element) → IsFresh addr xs → Member e xs → e.addr ≢ addr
ne_of_Member addr [] e h m = elim m [ ]
ne_of_Member addr (x ∷ xs) e h (inl p) = ground arith
ne_of_Member addr (x ∷ xs) e h (inr m) = ne_of_Member addr xs e h.1 m

-- The other buckets hold nothing of the element.
pub latest-unlink_other :
    (b : ℕ) (xs : List Element) (e : Element)
    → Distinct xs
    → Member e xs
    → b ≢ bucket e.tag
    → latest b (unlink e.addr xs) ≡ latest b xs
unfolding latest unlink
latest-unlink_other b [] e h m n = elim m [ ]
latest-unlink_other b (x ∷ xs) e h (inl p) n = ground arith
latest-unlink_other b (x ∷ xs) e h (inr m) n =
    ground (arith, latest-unlink_other b xs e h.1 m n, ne_of_Member x.addr xs e h.0 m)

pub IsFresh-unlink : (addr a : ℕ) (xs : List Element) → IsFresh addr xs → IsFresh addr (unlink a xs)
unfolding unlink
IsFresh-unlink addr a [] h = tt
IsFresh-unlink addr a (e ∷ es) h = ground (arith, IsFresh-unlink addr a es h.1)

pub Distinct-unlink : (a : ℕ) (xs : List Element) → Distinct xs → Distinct (unlink a xs)
unfolding unlink
Distinct-unlink a [] h = tt
Distinct-unlink a (e ∷ es) h =
    ground (arith, Distinct-unlink a es h.1, IsFresh-unlink e.addr a es h.0)

pub Distinct-snoc :
    (xs : List Element) (e : Element) → Distinct xs → IsFresh e.addr xs → Distinct (xs ++ e ∷ [])
Distinct-snoc [] e h f = (tt, tt)
Distinct-snoc (x ∷ xs) e h f =
    (IsFresh-append x.addr xs (e ∷ []) h.0 ((λ p. f.0 (sym p)), tt), Distinct-snoc xs e h.1 f.1)

pub Member-of_find :
    (tag : ℕ) (xs : List Element) (e : Element)
    → find_tag tag xs ≡ some e
    → Member e xs × (e.tag ≡ tag)
unfolding find_tag
Member-of_find tag [] e h = cc
Member-of_find tag (x ∷ xs) e h = ground (arith, Member-of_find tag xs e)

Member-snoc : (e x : Element) (xs : List Element) → Member e (xs ++ x ∷ []) → Member e xs ⊎ (x ≡ e)
Member-snoc e x [] (inl p) = inr p
Member-snoc e x [] (inr m) = elim m [ ]
Member-snoc e x (y ∷ ys) (inl p) = inl (inl p)
Member-snoc e x (y ∷ ys) (inr m) = ground (arith, Member-snoc e x ys m)

pub Member-latest : (b : ℕ) (xs : List Element) (e : Element) → Member e (latest b xs) → Member e xs
unfolding latest
Member-latest b [] e m = m
Member-latest b (x ∷ xs) e m = ground (arith, Member-latest b xs e, Member-snoc e x (latest b xs))
