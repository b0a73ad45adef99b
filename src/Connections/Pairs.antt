-- ===== src/Connections/Pairs.antt =====
-- Lists of disks whose members differ pairwise, under the operations of driver/userspace.c on a list.
use wnbd.Prelude.{
  ℕ, ◌+◌, ◌≡◌, ◌≢◌, refl, sym, subst, none, some, List, [], ◌∷◌, ◌++◌, ◌==◌, map, length, arith,
  split-if, Bool-cases, inl, inr, All,
}
use wnbd.Connections.{Disk, find_in_bucket, find_by_name, same_name, remove_id}

-- `R` holds of every member and every later one.
abbrev pub Pairwise : (Disk → Disk → Type 0) → List Disk → Type 0
Pairwise R [] = Unit
Pairwise R (d ∷ ds) = All (R d) ds × Pairwise R ds

pub Pairwise-append :
    (R : Disk → Disk → Type 0) (ds : List Disk) (x : Disk)
    → Pairwise R ds
    → All (λ d. R d x) ds
    → Pairwise R (ds ++ x ∷ [])
Pairwise-append R [] x h k = (tt, tt)
Pairwise-append R (d ∷ ds) x h k = (All-snoc (R d) ds x h.0 k.0, Pairwise-append R ds x h.1 k.1)
  where
    All-snoc :
        (P : Disk → Type 0) (ds : List Disk) (x : Disk) → All P ds → P x → All P (ds ++ x ∷ [])
    All-snoc P [] x h k = (k, tt)
    All-snoc P (d ∷ ds) x h k = (h.0, All-snoc P ds x h.1 k)

pub All-map :
    (P Q : Disk → Type 0) (f : Disk → Disk) (ds : List Disk)
    → ((d : Disk) → P d → Q (f d))
    → All P ds
    → All Q (map f ds)
All-map P Q f [] g h = tt
All-map P Q f (d ∷ ds) g h = (g d h.0, All-map P Q f ds g h.1)

pub All-weaken :
    (P Q : Disk → Type 0) (ds : List Disk) → ((d : Disk) → P d → Q d) → All P ds → All Q ds
All-weaken P Q [] g h = tt
All-weaken P Q (d ∷ ds) g h = (g d h.0, All-weaken P Q ds g h.1)

pub All-zip :
    (P Q T : Disk → Type 0) (ds : List Disk)
    → ((d : Disk) → P d → Q d → T d)
    → All P ds
    → All Q ds
    → All T ds
All-zip P Q T [] g h k = tt
All-zip P Q T (d ∷ ds) g h k = (g d h.0 k.0, All-zip P Q T ds g h.1 k.1)

pub Pairwise-map :
    (R : Disk → Disk → Type 0) (f : Disk → Disk) (ds : List Disk)
    → ((d e : Disk) → R d e → R (f d) (f e))
    → Pairwise R ds
    → Pairwise R (map f ds)
Pairwise-map R f [] g h = tt
Pairwise-map R f (d ∷ ds) g h = (All-map (R d) (R (f d)) f ds (g d) h.0, Pairwise-map R f ds g h.1)

pub All-remove : (P : Disk → Type 0) (id : ℕ) (ds : List Disk) → All P ds → All P (remove_id id ds)
unfolding remove_id
All-remove P id [] h = tt
All-remove P id (d ∷ ds) h =
    split-if (All P) (d.connection_id == id) ds (d ∷ remove_id id ds) (λ e. h.1)
      (λ e. (h.0, All-remove P id ds h.1))

pub Pairwise-remove :
    (R : Disk → Disk → Type 0) (id : ℕ) (ds : List Disk)
    → Pairwise R ds
    → Pairwise R (remove_id id ds)
unfolding remove_id
Pairwise-remove R id [] h = tt
Pairwise-remove R id (d ∷ ds) h =
    split-if (Pairwise R) (d.connection_id == id) ds (d ∷ remove_id id ds) (λ e. h.1)
      (λ e. (All-remove (R d) id ds h.0, Pairwise-remove R id ds h.1))

-- What holds of every member holds of the one that a search finds.
pub All-find :
    (P : Disk → Type 0) (id : ℕ) (ds : List Disk) (d : Disk)
    → All P ds
    → find_in_bucket id ds ≡ some d
    → P d
unfolding find_in_bucket
All-find P id [] d h e = cc
All-find P id (x ∷ ds) d h e = elim (Bool-cases (x.connection_id == id)) [
  | inl t ↦ subst P (ground (arith, t, e)) h.0
  | inr f ↦ All-find P id ds d h.1 (ground (arith, f, e))
]

abbrev pub OtherId : Disk → Disk → Type 0
OtherId d e = e.connection_id ≢ d.connection_id

module _ (id : ℕ) where
  pub find-append :
      (ds : List Disk) (x : Disk)
      → x.connection_id ≢ id
      → find_in_bucket id (ds ++ x ∷ []) ≡ find_in_bucket id ds
  unfolding find_in_bucket
  find-append [] x h = ground (arith, h)
  find-append (d ∷ ds) x h = ground (arith, find-append ds x h)

  pub find-append_new :
      (ds : List Disk) (x : Disk)
      → All (λ d. d.connection_id ≢ id) ds
      → x.connection_id ≡ id
      → find_in_bucket id (ds ++ x ∷ []) ≡ some x
  unfolding find_in_bucket
  find-append_new [] x h e = ground (arith, e)
  find-append_new (d ∷ ds) x h e = ground (arith, h.0, find-append_new ds x h.1 e)

  pub find-remove :
      (ds : List Disk) (j : ℕ) → j ≢ id → find_in_bucket id (remove_id j ds) ≡ find_in_bucket id ds
  unfolding find_in_bucket remove_id
  find-remove [] j h = refl
  find-remove (d ∷ ds) j h = ground (arith, find-remove ds j h)

  find_none : (ds : List Disk) → All (λ d. d.connection_id ≢ id) ds → find_in_bucket id ds ≡ none
  unfolding find_in_bucket
  find_none [] h = refl
  find_none (d ∷ ds) h = ground (arith, h.0, find_none ds h.1)

  pub find-remove_self :
      (ds : List Disk) → Pairwise OtherId ds → find_in_bucket id (remove_id id ds) ≡ none
  unfolding find_in_bucket remove_id
  find-remove_self [] h = refl
  find-remove_self (d ∷ ds) h =
      split-if (λ (l : List Disk). find_in_bucket id l ≡ none) (d.connection_id == id) ds
        (d ∷ remove_id id ds)
        (λ e. find_none ds (subst (λ n. All (λ d. d.connection_id ≢ n) ds) (ground (arith, e)) h.0))
        (λ e. ground (arith, e, find-remove_self ds h.1))

  pub length-remove :
      (ds : List Disk) (d : Disk)
      → find_in_bucket id ds ≡ some d
      → length (remove_id id ds) + 1 ≡ length ds
  unfolding find_in_bucket remove_id
  length-remove [] d e = cc
  length-remove (x ∷ ds) d e = ground (arith, length-remove ds d)

  -- After the removal of the disk that is found, every other one differs from it.
  pub remove-apart :
      (key : Disk → ℕ) (ds : List Disk) (d : Disk)
      → Pairwise (λ d e. key e ≢ key d) ds
      → find_in_bucket id ds ≡ some d
      → All (λ e. key e ≢ key d) (remove_id id ds)
  unfolding find_in_bucket remove_id
  remove-apart key [] d h e = cc
  remove-apart key (x ∷ ds) d h e =
      split-if (All (λ e. key e ≢ key d)) (x.connection_id == id) ds (x ∷ remove_id id ds)
        (λ t.
          let same : x ≡ d = ground (arith, t, e) in
          subst (λ y. All (λ e. key e ≢ key y) ds) same h.0)
        (λ f.
          let found : find_in_bucket id ds ≡ some d = ground (arith, f, e) in
          let other : key d ≢ key x = All-find (λ e. key e ≢ key x) id ds d h.0 found in
          (λ same. other (sym same), remove-apart key ds d h.1 found))

-- A disk that its name finds is found by its connection id.
pub find_by_name-id :
    (name : List ℕ) (ds : List Disk) (d : Disk)
    → Pairwise OtherId ds
    → find_by_name name ds ≡ some d
    → find_in_bucket d.connection_id ds ≡ some d
unfolding find_by_name find_in_bucket
find_by_name-id name [] d h e = cc
find_by_name-id name (x ∷ ds) d h e =
    elim (Bool-cases (same_name x.properties.instance_name name)) [
      | inl t ↦
          let same : x ≡ d = ground (arith, t, e) in
          subst (λ y. find_in_bucket y.connection_id (x ∷ ds) ≡ some y) same (ground arith)
      | inr f ↦
          let found : find_in_bucket d.connection_id ds ≡ some d =
            find_by_name-id name ds d h.1 (ground (arith, f, e)) in
          let other : d.connection_id ≢ x.connection_id =
            All-find (λ e. e.connection_id ≢ x.connection_id) d.connection_id ds d h.0 found in
          ground (arith, other, found)
    ]
