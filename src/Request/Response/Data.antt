-- ===== src/Request/Response/Data.antt =====
-- The data that WnbdHandleResponse, driver/wnbd_dispatch.c, copies to an SRB's buffer.
use wnbd.Prelude.{
  ℕ, zero, suc, ◌+◌, ◌-◌, ◌≤◌, ◌≡◌, refl, Bool, true, false, some, List, [], ◌∷◌, ◌++◌, ltb,
  if◌then◌else◌, take, drop, replicate, min, length, length-take, arith, ap, ◌∙◌, sym,
}
use wnbd.Request.Response.{fill_data, copy_data, copy_memory, zero_memory}

take-append : (n : ℕ) (xs ys : List ℕ) → n ≤ length xs → take n (xs ++ ys) ≡ take n xs
take-append zero xs ys h = refl
take-append (suc n) [] ys h = ground arith
take-append (suc n) (x ∷ xs) ys h = ap (λ l. x ∷ l) (take-append n xs ys (omega (arith, h)))

take-all : (n : ℕ) (xs : List ℕ) → length xs ≤ n → take n xs ≡ xs
take-all zero [] h = refl
take-all zero (x ∷ xs) h = ground arith
take-all (suc n) [] h = refl
take-all (suc n) (x ∷ xs) h = ap (λ l. x ∷ l) (take-all n xs (omega (arith, h)))

drop-all : (n : ℕ) (xs : List ℕ) → length xs ≤ n → drop n xs ≡ []
drop-all zero [] h = refl
drop-all zero (x ∷ xs) h = ground arith
drop-all (suc n) [] h = refl
drop-all (suc n) (x ∷ xs) h = drop-all n xs (omega (arith, h))

drop-append : (n : ℕ) (xs ys : List ℕ) → length xs ≤ n → drop n (xs ++ ys) ≡ drop (n - length xs) ys
drop-append n [] ys h = ground arith
drop-append zero (x ∷ xs) ys h = ground arith
drop-append (suc n) (x ∷ xs) ys h = ground (arith, drop-append n xs ys)

drop-nil : (n : ℕ) → drop {A = ℕ} n [] ≡ []
drop-nil zero = refl
drop-nil (suc n) = refl

drop-drop : (m n : ℕ) (xs : List ℕ) → drop m (drop n xs) ≡ drop (n + m) xs
drop-drop m zero xs = ground arith
drop-drop m (suc n) [] = drop-nil m ∙ sym (drop-nil (suc n + m))
drop-drop m (suc n) (x ∷ xs) =
    let e : suc (n + m) ≡ suc n + m = omega arith in drop-drop m n xs ∙ ap (λ k. drop k (x ∷ xs)) e

-- Copying 0 bytes is not copying.
copy_data-memory :
    (src dst : List ℕ) (size len : ℕ)
    → copy_data (some src) size len dst ≡ copy_memory dst src (min len size)
unfolding copy_data
copy_data-memory src dst size len = ground arith

-- Zeroing after a copy of `n` bytes leaves the copy, and what lies after the zeros.
zero_copied :
    (src dst : List ℕ) (n m : ℕ)
    → n ≤ length src
    → zero_memory (copy_memory dst src n) n m ≡ take n src ++ (replicate m 0 ++ drop (n + m) dst)
zero_copied src dst n m h =
    let len : length (take n src) ≡ n = ground (arith, length-take n src) in
    let kept : take n (take n src ++ drop n dst) ≡ take n src =
      take-append n (take n src) (drop n dst) (ground (arith, len))
      ∙ take-all n (take n src) (ground (arith, len)) in
    let rest : drop (n + m) (take n src ++ drop n dst) ≡ drop (n + m) dst =
      drop-append (n + m) (take n src) (drop n dst) (ground (arith, len))
      ∙ ap (λ k. drop k (drop n dst)) (ground (arith, len))
      ∙ drop-drop m n dst in
    rw (kept, rest) refl

filled_lem :
    (src dst : List ℕ) (size len : ℕ) (b : Bool)
    → ltb size len ≡ b
    → size ≤ length src
    → (let copied = copy_memory dst src (min len size) in
        if b then zero_memory copied size (len - size) else copied)
      ≡ take (min len size) src ++ (replicate (len - size) 0 ++ drop len dst)
filled_lem src dst size len true e h =
    let short : min len size ≡ size = ground arith in
    let whole : len ≡ size + (len - size) = ground arith in
    ap (λ k. zero_memory (copy_memory dst src k) size (len - size)) short
    ∙ zero_copied src dst size (len - size) h
    ∙ ap (λ k. take size src ++ (replicate (len - size) 0 ++ drop k dst)) (sym whole)
    ∙ ap (λ k. take k src ++ (replicate (len - size) 0 ++ drop len dst)) (sym short)
filled_lem src dst size len false e h =
    let full : min len size ≡ len = ground arith in
    let none_left : len - size ≡ 0 = ground arith in
    ap (copy_memory dst src) full
    ∙ ap (λ k. take len src ++ (replicate k 0 ++ drop len dst)) (sym none_left)
    ∙ ap (λ k. take k src ++ (replicate (len - size) 0 ++ drop len dst)) (sym full)

-- A reply's data fills the request's part of the buffer: the first bytes the caller gave, then zeros
-- if the caller gave fewer; the rest of the buffer is as it was. The caller gave as many bytes as it
-- says.
pub fill_data_lem :
    (src dst : List ℕ) (size len : ℕ)
    → size ≤ length src
    → fill_data (some src) size len dst
      ≡ take (min len size) src ++ (replicate (len - size) 0 ++ drop len dst)
unfolding fill_data
fill_data_lem src dst size len hs =
    ap (λ d. if ltb size len then zero_memory d size (len - size) else d)
      (copy_data-memory src dst size len)
    ∙ filled_lem src dst size len (ltb size len) refl hs
