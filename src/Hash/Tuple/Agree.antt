-- ===== src/Hash/Tuple/Agree.antt =====
-- How the two hash functions of a tuple relate, and what they tell apart.
use cpp_cores.Base.{
  ℕ, zero, suc, ◌+◌, ◌-◌, ◌*◌, ◌/◌, ◌%◌, ◌^◌, ◌<◌, ◌≤◌, ◌≡◌, refl, sym, ap, ◌∙◌, List, [], ◌∷◌,
  ◌++◌, arith, length, get_or, take, ◌==◌, if◌then◌else◌, false, ◌≢◌,
}
use cpp_cores.Base.Bits.Xor.{bit_xor_injective, bit_xor_comm}
use cpp_cores.Hash.Tuple.{
  w64, combine_hash, hash_helper, hash_tuple_struct, hash_tuple_impl, hash_tuple_fold,
}

impl-append :
    (seed x : ℕ) (xs : List ℕ)
    → hash_tuple_impl seed (xs ++ x ∷ []) ≡ combine_hash (hash_tuple_impl seed xs) x
unfolding hash_tuple_impl
impl-append seed x [] = refl
impl-append seed x (y ∷ xs) = impl-append (combine_hash seed y) x xs

take-suc : (xs : List ℕ) (i : ℕ) → i < length xs → take (suc i) xs ≡ take i xs ++ get_or xs i 0 ∷ []
take-suc [] i h = absurd (omega arith)
take-suc (x ∷ xs) zero h = refl
take-suc (x ∷ xs) (suc i) h = ap (λ l. x ∷ l) (take-suc xs i (omega arith))

take_all : (xs : List ℕ) → take (length xs) xs ≡ xs
take_all [] = refl
take_all (x ∷ xs) = ap (λ l. x ∷ l) (take_all xs)

helper_upto :
    (a : ℕ) (ts : List ℕ) (i : ℕ)
    → i ≤ length ts
    → hash_helper (a ∷ ts) i ≡ hash_tuple_impl 0 (take i ts)
unfolding hash_helper hash_tuple_impl
helper_upto a ts zero h = refl
helper_upto a ts (suc i) h =
    ap (λ s. combine_hash s (get_or ts i 0)) (helper_upto a ts i (omega arith))
    ∙ sym (impl-append 0 (get_or ts i 0) (take i ts))
    ∙ ap (hash_tuple_impl 0) (sym (take-suc ts i (omega arith)))

-- The recursive hash of a tuple is the folded hash of the tuple without its first element.
pub hash_tuple_struct-fold : (a : ℕ) (ts : List ℕ) → hash_tuple_struct (a ∷ ts) ≡ hash_tuple_fold ts
unfolding hash_tuple_struct hash_tuple_fold
hash_tuple_struct-fold a ts =
    let at : length (a ∷ ts) - 1 ≡ length ts = omega arith in
    let some_ : (length (a ∷ ts) == 0) ≡ false = ground arith in
    ap (λ t. if t then 0 else hash_helper (a ∷ ts) (length (a ∷ ts) - 1)) some_
    ∙ ap (hash_helper (a ∷ ts)) at
    ∙ helper_upto a ts (length ts) (omega arith)
    ∙ ap (hash_tuple_impl 0) (take_all ts)

combine_injective : (s x y : ℕ) → x < w64 → y < w64 → combine_hash s x ≡ combine_hash s y → x ≡ y
unfolding combine_hash
combine_injective s x y hx hy e =
    let sum = λ (t : ℕ). (t + 0x9e3779b9 + s * 2 ^ 6 % w64 + s / 2 ^ 2) % w64 in
    let same : sum x ≡ sum y =
      bit_xor_injective (sum x) (sum y) s (bit_xor_comm (sum x) s ∙ e ∙ bit_xor_comm s (sum y)) in
    omega arith

-- Two tuples that differ in the last element only, and there in its `std::hash`, have different folded
-- hashes.
pub hash_tuple_fold-last_ne :
    (ts : List ℕ) (x y : ℕ)
    → x < w64
    → y < w64
    → x ≢ y
    → hash_tuple_fold (ts ++ x ∷ []) ≢ hash_tuple_fold (ts ++ y ∷ [])
unfolding hash_tuple_fold
hash_tuple_fold-last_ne ts x y hx hy other e = other (
    combine_injective (hash_tuple_impl 0 ts) x y hx hy
      (sym (impl-append 0 x ts) ∙ e ∙ impl-append 0 y ts))
