-- ===== src/Memory/Regions.antt =====
-- Regions of memory, for the pools: when one lies in another, and when two do not overlap.
use cpp_cores.Base.{ℕ, ◌+◌, ◌≤◌, List, [], ◌∷◌, arith, All, inl, inr, ◌⊎◌}

-- A region, from its address on.
pub record Region : Type 0 where
  pub from : ℕ
  pub size : ℕ

abbrev pub Within : Region → Region → Type 0
Within r s = s.from ≤ r.from × r.from + r.size ≤ s.from + s.size

abbrev pub Apart : Region → Region → Type 0
Apart r s = (r.from + r.size ≤ s.from) ⊎ (s.from + s.size ≤ r.from)

-- Within one of the regions.
abbrev pub Covered : Region → List Region → Type 0
Covered r [] = ⊥
Covered r (b ∷ bs) = Within r b ⊎ Covered r bs

-- No two overlap.
abbrev pub Separate : List Region → Type 0
Separate [] = Unit
Separate (r ∷ rs) = All (Apart r) rs × Separate rs

abbrev pub region : ℕ → ℕ → Region
region from size = record { from = from; size = size }

pub Apart-Within : (r n s : Region) → Within r n → Apart n s → Apart r s
Apart-Within r n s (h, k) (inl a) = inl (omega arith)
Apart-Within r n s (h, k) (inr a) = inr (omega arith)

pub Apart-Covered : (n r : Region) (bs : List Region) → All (Apart n) bs → Covered r bs → Apart n r
Apart-Covered n r [] h c = absurd c
Apart-Covered n r (b ∷ bs) (inl a, hs) (inl (l, g)) = inl (omega arith)
Apart-Covered n r (b ∷ bs) (inr a, hs) (inl (l, g)) = inr (omega arith)
Apart-Covered n r (b ∷ bs) (h, hs) (inr c) = Apart-Covered n r bs hs c

pub All-Apart-Covered :
    (n : Region) (rs bs : List Region)
    → All (Apart n) bs
    → All (λ r. Covered r bs) rs
    → All (Apart n) rs
All-Apart-Covered n [] bs h c = tt
All-Apart-Covered n (r ∷ rs) bs h (c, cs) =
    (Apart-Covered n r bs h c, All-Apart-Covered n rs bs h cs)

pub All-Apart-Within :
    (r n : Region) (ss : List Region) → Within r n → All (Apart n) ss → All (Apart r) ss
All-Apart-Within r n [] w h = tt
All-Apart-Within r n (s ∷ ss) w (h, hs) = (Apart-Within r n s w h, All-Apart-Within r n ss w hs)

pub Covered-Within : (r n : Region) (bs : List Region) → Within r n → Covered n bs → Covered r bs
Covered-Within r n [] w c = absurd c
Covered-Within r n (b ∷ bs) (l, g) (inl (l', g')) = inl (omega arith, omega arith)
Covered-Within r n (b ∷ bs) w (inr c) = inr (Covered-Within r n bs w c)

pub All-Covered-more :
    (b : Region) (rs bs : List Region)
    → All (λ r. Covered r bs) rs
    → All (λ r. Covered r (b ∷ bs)) rs
All-Covered-more b [] bs h = tt
All-Covered-more b (r ∷ rs) bs (h, hs) = (inr h, All-Covered-more b rs bs hs)

pub Apart-sym : (r s : Region) → Apart r s → Apart s r
Apart-sym r s (inl a) = inr a
Apart-sym r s (inr a) = inl a
