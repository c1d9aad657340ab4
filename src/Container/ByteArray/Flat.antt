-- ===== src/Container/ByteArray/Flat.antt =====
-- The bytes of all nodes as one sequence, and positions in it.
use cpp_cores.Base.{
  ℕ, zero, suc, ◌+◌, ◌-◌, ◌*◌, ◌≤◌, ◌<◌, ◌≡◌, refl, sym, ap, ◌∙◌, List, [], ◌∷◌, ◌++◌, length, take,
  drop, arith, length-append, append_assoc,
}
use mathlib.Core.List.{flatten}
use cpp_cores.Container.ByteArray.{ByteArray, overwrite, slice, new_nodes}
use cpp_cores.Container.ByteArray.Copy.{overwrite-append, overwrite_past, slice-append, slice_past}
use cpp_cores.Container.ByteArray.Loops.{Blocks}

abbrev pub flat : ByteArray → List ℕ
flat a = flatten a.nodes

pub flatten-append : (xs ys : List (List ℕ)) → flatten (xs ++ ys) ≡ flatten xs ++ flatten ys
unfolding flatten
flatten-append [] ys = refl
flatten-append (x ∷ xs) ys =
    ap (λ l. x ++ l) (flatten-append xs ys) ∙ sym (append_assoc x (flatten xs) (flatten ys))

module _ (base : ℕ) (pos : 0 < base) where
  pub length-flatten :
      (ns : List (List ℕ)) → Blocks base ns → length (flatten ns) ≡ length ns * base
  unfolding flatten
  length-flatten [] h = omega arith
  length-flatten (node ∷ ns) (h, hs) =
      omega (arith, length-flatten ns hs, length-append node (flatten ns))

  pub Blocks-take : (k : ℕ) (ns : List (List ℕ)) → Blocks base ns → Blocks base (take k ns)
  Blocks-take zero ns h = tt
  Blocks-take (suc k) [] h = tt
  Blocks-take (suc k) (n ∷ ns) (h, hs) = (h, Blocks-take k ns hs)

  pub Blocks-drop : (k : ℕ) (ns : List (List ℕ)) → Blocks base ns → Blocks base (drop k ns)
  Blocks-drop zero ns h = h
  Blocks-drop (suc k) [] h = tt
  Blocks-drop (suc k) (n ∷ ns) (h, hs) = Blocks-drop k ns hs

  pub Blocks-new_nodes :
      (fresh : ℕ → List ℕ) (i count : ℕ)
      → ((j : ℕ) → length (fresh j) ≡ base)
      → Blocks base (new_nodes fresh i count)
  unfolding new_nodes
  Blocks-new_nodes fresh i zero h = tt
  Blocks-new_nodes fresh i (suc count) h = (h i, Blocks-new_nodes fresh (suc i) count h)

  pub length-new_nodes :
      (fresh : ℕ → List ℕ) (i count : ℕ) → length (new_nodes fresh i count) ≡ count
  unfolding new_nodes
  length-new_nodes fresh i zero = refl
  length-new_nodes fresh i (suc count) = ap suc (length-new_nodes fresh (suc i) count)

  -- What follows the first `k` nodes.
  pub length-flatten-drop :
      (k : ℕ) (ns : List (List ℕ))
      → Blocks base ns
      → length (flatten (drop k ns)) ≡ length (flatten ns) - k * base
  unfolding flatten
  length-flatten-drop zero ns h = omega arith
  length-flatten-drop (suc k) [] h = omega arith
  length-flatten-drop (suc k) (node ∷ ns) (h, hs) =
      omega (arith, length-flatten-drop k ns hs, length-append node (flatten ns))

  -- A copy into what follows the first `k` nodes is a copy into the whole.
  pub overwrite-drop :
      (k npos : ℕ) (bs : List ℕ) (ns : List (List ℕ))
      → Blocks base ns
      → k * base ≤ length (flatten ns)
      → flatten (take k ns) ++ overwrite npos bs (flatten (drop k ns))
        ≡ overwrite (k * base + npos) bs (flatten ns)
  unfolding flatten
  overwrite-drop zero npos bs ns h f = let e : zero * base + npos ≡ npos = omega arith in rw e refl
  overwrite-drop (suc k) npos bs [] h f = absurd (omega arith)
  overwrite-drop (suc k) npos bs (node ∷ ns) (h, hs) f =
      let p : ℕ = suc k * base + npos in
      let copied : overwrite p bs (node ++ flatten ns)
          ≡ overwrite p bs node ++ overwrite (k * base + npos) bs (flatten ns) =
        overwrite-append p bs node (flatten ns) 0 (k * base + npos) (omega arith) (omega arith) in
      let past : overwrite p bs node ≡ node = overwrite_past p bs node (omega arith) in
      let ih : flatten (take k ns) ++ overwrite npos bs (flatten (drop k ns))
          ≡ overwrite (k * base + npos) bs (flatten ns) =
        overwrite-drop k npos bs ns hs (omega (arith, length-append node (flatten ns))) in
      rw
        (
          copied,
          past,
          append_assoc node (flatten (take k ns)) (overwrite npos bs (flatten (drop k ns))),
          ih,
        )
        refl

  pub slice-drop :
      (k npos n : ℕ) (ns : List (List ℕ))
      → Blocks base ns
      → k * base ≤ length (flatten ns)
      → slice npos n (flatten (drop k ns)) ≡ slice (k * base + npos) n (flatten ns)
  unfolding flatten
  slice-drop zero npos n ns h f = let e : zero * base + npos ≡ npos = omega arith in rw e refl
  slice-drop (suc k) npos n [] h f = absurd (omega arith)
  slice-drop (suc k) npos n (node ∷ ns) (h, hs) f =
      let p : ℕ = suc k * base + npos in
      let copied : slice p n (node ++ flatten ns)
          ≡ slice p n node ++ slice (k * base + npos) n (flatten ns) =
        slice-append p n node (flatten ns) 0 (k * base + npos) n (omega arith) (omega arith)
          (omega arith) in
      let past : slice p n node ≡ [] = slice_past p n node (omega arith) in
      let ih : slice npos n (flatten (drop k ns)) ≡ slice (k * base + npos) n (flatten ns) =
        slice-drop k npos n ns hs (omega (arith, length-append node (flatten ns))) in
      rw (copied, past, ih) refl
