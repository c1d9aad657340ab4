-- ===== src/Container/ByteArray/Copy.antt =====
-- `memcpy` on two blocks in a row.
use cpp_cores.Base.{
  ℕ, zero, suc, ◌+◌, ◌-◌, ◌≤◌, ◌≡◌, refl, ap, List, [], ◌∷◌, ◌++◌, length, take, drop, arith,
}
use cpp_cores.Container.ByteArray.{overwrite, slice}

pub length-overwrite : (p : ℕ) (bs xs : List ℕ) → length (overwrite p bs xs) ≡ length xs
unfolding overwrite
length-overwrite zero [] xs = refl
length-overwrite zero (b ∷ bs) [] = refl
length-overwrite zero (b ∷ bs) (x ∷ xs) = ap suc (length-overwrite zero bs xs)
length-overwrite (suc p) bs [] = refl
length-overwrite (suc p) bs (x ∷ xs) = ap suc (length-overwrite p bs xs)

pub overwrite-nil : (p : ℕ) (xs : List ℕ) → overwrite p [] xs ≡ xs
unfolding overwrite
overwrite-nil zero xs = refl
overwrite-nil (suc p) [] = refl
overwrite-nil (suc p) (x ∷ xs) = ap (λ l. x ∷ l) (overwrite-nil p xs)

pub drop-nil : (k : ℕ) → drop {A = ℕ} k [] ≡ []
drop-nil zero = refl
drop-nil (suc k) = refl

-- `k` bytes of the first block follow the position, which is `q` bytes after the block.
pub overwrite-append :
    (p : ℕ) (bs xs ys : List ℕ) (k q : ℕ)
    → k ≡ length xs - p
    → q ≡ p - length xs
    → overwrite p bs (xs ++ ys) ≡ overwrite p bs xs ++ overwrite q (drop k bs) ys
unfolding overwrite
overwrite-append zero [] xs ys k q h g = rw (drop-nil k, overwrite-nil q ys) refl
overwrite-append zero (b ∷ bs) [] ys zero zero h g = refl
overwrite-append zero (b ∷ bs) [] ys (suc k) q h g = absurd (omega arith)
overwrite-append zero (b ∷ bs) [] ys zero (suc q) h g = absurd (omega arith)
overwrite-append zero (b ∷ bs) (x ∷ xs) ys zero q h g = absurd (omega arith)
overwrite-append zero (b ∷ bs) (x ∷ xs) ys (suc k) q h g =
    ap (λ l. b ∷ l) (overwrite-append zero bs xs ys k q (omega arith) (omega arith))
overwrite-append (suc p) bs [] ys zero q h g = let e : q ≡ suc p = omega arith in rw e refl
overwrite-append (suc p) bs [] ys (suc k) q h g = absurd (omega arith)
overwrite-append (suc p) bs (x ∷ xs) ys k q h g =
    ap (λ l. x ∷ l) (overwrite-append p bs xs ys k q (omega arith) (omega arith))

-- What does not fit is not copied.
pub overwrite-take :
    (p : ℕ) (bs xs : List ℕ) (k : ℕ)
    → k ≡ length xs - p
    → overwrite p (take k bs) xs ≡ overwrite p bs xs
unfolding overwrite
overwrite-take zero [] xs zero h = refl
overwrite-take zero [] xs (suc k) h = refl
overwrite-take zero (b ∷ bs) [] zero h = refl
overwrite-take zero (b ∷ bs) [] (suc k) h = refl
overwrite-take zero (b ∷ bs) (x ∷ xs) zero h = absurd (omega arith)
overwrite-take zero (b ∷ bs) (x ∷ xs) (suc k) h =
    ap (λ l. b ∷ l) (overwrite-take zero bs xs k (omega arith))
overwrite-take (suc p) bs [] k h = refl
overwrite-take (suc p) bs (x ∷ xs) k h = ap (λ l. x ∷ l) (overwrite-take p bs xs k (omega arith))

pub overwrite_past : (p : ℕ) (bs xs : List ℕ) → length xs ≤ p → overwrite p bs xs ≡ xs
unfolding overwrite
overwrite_past zero [] xs h = refl
overwrite_past zero (b ∷ bs) [] h = refl
overwrite_past zero (b ∷ bs) (x ∷ xs) h = absurd (omega arith)
overwrite_past (suc p) bs [] h = refl
overwrite_past (suc p) bs (x ∷ xs) h = ap (λ l. x ∷ l) (overwrite_past p bs xs (omega arith))

pub slice-append :
    (p n : ℕ) (xs ys : List ℕ) (k q m : ℕ)
    → k ≡ length xs - p
    → q ≡ p - length xs
    → m ≡ n - k
    → slice p n (xs ++ ys) ≡ slice p n xs ++ slice q m ys
unfolding slice
slice-append p zero xs ys k q m h g e = let z : m ≡ zero = omega arith in rw z refl
slice-append zero (suc n) [] ys k q m h g e =
    let z : q ≡ zero = omega arith in let all : m ≡ suc n = omega arith in rw (z, all) refl
slice-append (suc p) (suc n) [] ys k q m h g e =
    let z : q ≡ suc p = omega arith in let all : m ≡ suc n = omega arith in rw (z, all) refl
slice-append zero (suc n) (x ∷ xs) ys zero q m h g e = absurd (omega arith)
slice-append zero (suc n) (x ∷ xs) ys (suc k) q m h g e =
    ap (λ l. x ∷ l) (slice-append zero n xs ys k q m (omega arith) (omega arith) (omega arith))
slice-append (suc p) (suc n) (x ∷ xs) ys k q m h g e =
    slice-append p (suc n) xs ys k q m (omega arith) (omega arith) (omega arith)

-- There is no more to copy than the block has.
pub slice_short :
    (p n : ℕ) (xs : List ℕ) (k : ℕ) → k ≡ length xs - p → k ≤ n → slice p k xs ≡ slice p n xs
unfolding slice
slice_short p zero xs k h g = let z : k ≡ zero = omega arith in rw z refl
slice_short p (suc n) [] zero h g = refl
slice_short p (suc n) [] (suc k) h g = refl
slice_short zero (suc n) (x ∷ xs) (suc k) h g =
    ap (λ l. x ∷ l) (slice_short zero n xs k (omega arith) (omega arith))
slice_short (suc p) (suc n) (x ∷ xs) (suc k) h g =
    slice_short p (suc n) xs (suc k) (omega arith) (omega arith)
slice_short zero (suc n) (x ∷ xs) zero h g = absurd (omega arith)
slice_short (suc p) (suc n) (x ∷ xs) zero h g =
    slice_short p (suc n) xs zero (omega arith) (omega arith)

pub slice_past : (p n : ℕ) (xs : List ℕ) → length xs ≤ p → slice p n xs ≡ []
unfolding slice
slice_past p zero xs h = refl
slice_past p (suc n) [] h = refl
slice_past zero (suc n) (x ∷ xs) h = absurd (omega arith)
slice_past (suc p) (suc n) (x ∷ xs) h = slice_past p (suc n) xs (omega arith)

-- What is copied in comes out again.
pub slice-overwrite :
    (p : ℕ) (bs xs : List ℕ)
    → p + length bs ≤ length xs
    → slice p (length bs) (overwrite p bs xs) ≡ bs
unfolding slice overwrite
slice-overwrite p [] xs h = refl
slice-overwrite zero (b ∷ bs) [] h = absurd (omega arith)
slice-overwrite zero (b ∷ bs) (x ∷ xs) h =
    ap (λ l. b ∷ l) (slice-overwrite zero bs xs (omega arith))
slice-overwrite (suc p) (b ∷ bs) [] h = absurd (omega arith)
slice-overwrite (suc p) (b ∷ bs) (x ∷ xs) h = slice-overwrite p (b ∷ bs) xs (omega arith)
