-- ===== src/Memory/Pool/Disjoint.antt =====
-- The regions that the pool hands out lie in its blocks and do not overlap.
use cpp_cores.Base.{
  ℕ, suc, ◌+◌, ◌-◌, ◌*◌, ◌≤◌, ◌≡◌, refl, ap, true, false, List, [], ◌∷◌, ◌==◌, leb, ltb, arith,
  length, All, Bool-cases, inl, inr, ◌⊎◌, leb→le,
}
use mathlib.Core.Path.{subst}
use cpp_cores.Memory.Regions.{
  Region, Within, Apart, Covered, Separate, region, Apart-sym, Apart-Within, Apart-Covered,
  All-Apart-Covered, All-Apart-Within, Covered-Within, All-Covered-more,
}
use cpp_cores.Memory.Pool.{
  Pool, System, allocate_size, new_block, new_region, asked, call, Fresh, Step, Reach, start, new,
  pool_usage,
}

pub total : List Region → ℕ
total [] = 0
total (r ∷ rs) = r.size + total rs

-- What is left of the last block, if there is one.
abbrev pub Tail : Pool → List Region → List Region → Type 0
Tail p given owned =
    (p.ptr ≡ 0 × p.left ≡ 0)
    ⊎ (1 ≤ p.ptr × Covered (region p.ptr p.left) owned × All (Apart (region p.ptr p.left)) given)

pub record Sound (size_of_this : ℕ) (p : Pool) (given owned : List Region) : Type 0 where
  pub covered : All (λ r. Covered r owned) given
  pub apart : Separate given
  pub tail : Tail p given owned
  pub counted : p.memory ≡ size_of_this + total owned
  pub listed : length p.blocks ≡ length owned

-- A block that is taken whole leaves the tail of the older one.
pub old-Tail :
    (p : Pool) (given owned : List Region) (whole r : Region)
    → All (Apart whole) owned
    → Within r whole
    → Tail p given owned
    → Tail p (r ∷ given) (whole ∷ owned)
old-Tail p given owned whole r f w (inl h) = inl h
old-Tail p given owned whole r f w (inr (one, c, a)) =
    let rest : Region = region p.ptr p.left in
    let away : Apart r rest = Apart-Within r whole rest w (Apart-Covered whole rest owned f c) in
    inr (one, inr c, (Apart-sym r rest away, a))

-- A new block, apart from the ones that there are.
pub new_block-Sound :
    (this block size : ℕ) (p : Pool) (given owned : List Region)
    → 1 ≤ block
    → All (Apart (region block (allocate_size size))) owned
    → Sound this p given owned
    → let (address, p') = new_block block size p in
      Sound this p' (region address size ∷ given) (region block (allocate_size size) ∷ owned)
unfolding new_block total
new_block-Sound this block size p given owned pos f v =
    let whole : Region = region block (allocate_size size) in
    let fits : size ≤ allocate_size size = omega arith in
    let front : Within (region block size) whole = (omega arith, omega arith) in
    let apart : All (Apart whole) given = All-Apart-Covered whole given owned f v.covered in
    elim (Bool-cases (ltb size (allocate_size size))) [
      | inl e ↦
          let rest : Region = region (block + size) (allocate_size size - size) in
          let back : Within rest whole = (omega arith, omega arith) in
          rw e (record {
            covered = (inl front, All-Covered-more whole given owned v.covered);
            apart = (All-Apart-Within (region block size) whole given front apart, v.apart);
            tail = inr (
              omega (arith, pos),
              inl back,
              (inr (omega arith), All-Apart-Within rest whole given back apart),
            );
            counted = omega (arith, v.counted);
            listed = ap suc v.listed;
          })
      | inr e ↦ rw e (record {
        covered = (inl front, All-Covered-more whole given owned v.covered);
        apart = (All-Apart-Within (region block size) whole given front apart, v.apart);
        tail = old-Tail p given owned whole (region block size) f front v.tail;
        counted = omega (arith, v.counted);
        listed = ap suc v.listed;
      })
    ]

-- A region from the front of the tail.
pub cut-Sound :
    (this size : ℕ) (p : Pool) (given owned : List Region)
    → size ≤ p.left
    → (p.ptr == 0) ≡ false
    → Sound this p given owned
    → Sound this
        (record p { ptr = p.ptr + size; left = p.left - size })
        (region p.ptr size ∷ given)
        owned
cut-Sound this size p given owned fits some v = go v.tail
  where
    go :
        Tail p given owned
        → Sound this
            (record p { ptr = p.ptr + size; left = p.left - size })
            (region p.ptr size ∷ given)
            owned
    go (inl (none_left, h)) = absurd (ground arith)
    go (inr (one, c, a)) =
        let rest : Region = region (p.ptr + size) (p.left - size) in
        let tail : Region = region p.ptr p.left in
        let front : Within (region p.ptr size) tail = (omega arith, omega arith) in
        let back : Within rest tail = (omega arith, omega arith) in
        record {
          covered = (Covered-Within (region p.ptr size) tail owned front c, v.covered);
          apart = (All-Apart-Within (region p.ptr size) tail given front a, v.apart);
          tail = inr (
            omega arith,
            Covered-Within rest tail owned back c,
            (inr (omega arith), All-Apart-Within rest tail given back a),
          );
          counted = v.counted;
          listed = v.listed;
        }

-- A call for no bytes on a pool that has no block.
pub first_block-Sound :
    (this block size : ℕ) (p : Pool) (given owned : List Region)
    → 1 ≤ block
    → All (Apart (region block (allocate_size 0))) owned
    → size ≤ p.left
    → (p.ptr == 0) ≡ true
    → Sound this p given owned
    → let (address, p') = new_block block 0 (record p { left = p.left - size }) in
      Sound this p' (region address size ∷ given) (region block (allocate_size 0) ∷ owned)
first_block-Sound this block size p given owned pos f fits null v = go v.tail
  where
    go :
        Tail p given owned
        → let (address, p') = new_block block 0 (record p { left = p.left - size }) in
          Sound this p' (region address size ∷ given) (region block (allocate_size 0) ∷ owned)
    go (inr (one, c, a)) = absurd (ground arith)
    go (inl (none_left, h)) =
        let zero_size : size ≡ 0 = omega arith in
        let at_first : Sound this (record p { left = p.left - 0 }) given owned = record {
          covered = v.covered;
          apart = v.apart;
          tail = inl (none_left, omega (arith, h));
          counted = v.counted;
          listed = v.listed;
        } in
        rw zero_size
          (new_block-Sound this block 0 (record p { left = p.left - 0 }) given owned pos f at_first)

abbrev pub IsSound : ℕ → System → Type 0
IsSound this s = Sound this s.pool s.given s.owned

pub call-Sound :
    (this block size : ℕ) (s : System)
    → Fresh block size s
    → IsSound this s
    → IsSound this (call block size s)
unfolding call new_region asked Fresh
call-Sound this block size s (pos, f) v = elim (Bool-cases (leb size s.pool.left)) [
  | inl e ↦ elim (Bool-cases (s.pool.ptr == 0)) [
    | inl k ↦
        let is : asked size s.pool ≡ allocate_size 0 ∷ [] = rw (e, k) refl in
        let f' : All (λ n. All (Apart (region block n)) s.owned) (allocate_size 0 ∷ []) =
          subst (All (λ n. All (Apart (region block n)) s.owned)) is f in
        rw (e, k)
          (first_block-Sound this block size s.pool s.given s.owned pos f'.0 (leb→le _ _ e) k v)
    | inr k ↦ rw (e, k) (cut-Sound this size s.pool s.given s.owned (leb→le _ _ e) k v)
  ]
  | inr e ↦
      let is : asked size s.pool ≡ allocate_size size ∷ [] = rw e refl in
      let f' : All (λ n. All (Apart (region block n)) s.owned) (allocate_size size ∷ []) =
        subst (All (λ n. All (Apart (region block n)) s.owned)) is f in
      rw e (new_block-Sound this block size s.pool s.given s.owned pos f'.0 v)
]

pub reach-Sound : (this : ℕ) (s : System) → Reach (start this) s → IsSound this s
unfolding start new total
reach-Sound this s Reach.here = record {
  covered = tt;
  apart = tt;
  tail = inl (refl, refl);
  counted = omega arith;
  listed = refl;
}
reach-Sound this s (Reach.later r (Step.called block size f)) =
    call-Sound this block size _ f (reach-Sound this _ r)

-- After any calls of `New` on a new pool, where `new char[]` returns blocks that are not null and do not
-- overlap, every region handed out lies in a block, no two of them overlap, and `PoolUsage` is the size
-- of the object, the blocks and a pointer for each of them.
pub regions_apart :
    (this pointer : ℕ) (s : System)
    → Reach (start this) s
    → All (λ r. Covered r s.owned) s.given
      × Separate s.given
      × pool_usage pointer s.pool ≡ this + total s.owned + length s.owned * pointer
unfolding pool_usage
regions_apart this pointer s r =
    let v : IsSound this s = reach-Sound this s r in
    (v.covered, v.apart, rw (v.listed, v.counted) refl)
