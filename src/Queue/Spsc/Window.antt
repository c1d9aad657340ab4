-- ===== src/Queue/Spsc/Window.antt =====
-- The cells between the two indices, oldest first, going round at the end of the array.
use cpp_cores.Base.{
  ℕ, zero, suc, ◌+◌, ◌-◌, ◌<◌, ◌≡◌, ◌≢◌, refl, ap, ap₂, List, [], ◌∷◌, ◌++◌, leb, if◌then◌else◌,
  get_or, set, length, arith, get_or-set_ne,
}
use cpp_cores.Queue.Spsc.{next}

module _ (n : ℕ) where
  -- How many cells lie between the indices.
  abbrev pub count : ℕ → ℕ → ℕ
  count r w = if leb r w then w - r else w + n - r

  abbrev pub window : List ℕ → ℕ → ℕ → List ℕ
  window cells r zero = []
  window cells r (suc k) = get_or cells r 0 ∷ window cells (next n r) k

  pub window-set :
      (cells : List ℕ) (k r w v : ℕ)
      → r < n
      → w < n
      → count r w ≡ k
      → window (set cells w v) r k ≡ window cells r k
  window-set cells zero r w v hr hw e = refl
  window-set cells (suc k) r w v hr hw e =
      ap₂ ◌∷◌ (get_or-set_ne cells w r v 0 (ground arith))
        (window-set cells k (next n r) w v (ground arith) hw (ground arith))

  pub window-snoc :
      (cells : List ℕ) (k r w : ℕ)
      → r < n
      → w < n
      → count r w ≡ k
      → next n w ≢ r
      → window cells r (suc k) ≡ window cells r k ++ get_or cells w 0 ∷ []
  window-snoc cells zero r w hr hw e ne =
      let same : r ≡ w = ground arith in ap (λ i. get_or cells i 0 ∷ []) same
  window-snoc cells (suc k) r w hr hw e ne =
      ap (λ t. get_or cells r 0 ∷ t)
        (window-snoc cells k (next n r) w (ground arith) hw (ground arith) (ground arith))

  pub length-window : (cells : List ℕ) (r k : ℕ) → length (window cells r k) ≡ k
  length-window cells r zero = refl
  length-window cells r (suc k) = ap suc (length-window cells (next n r) k)
