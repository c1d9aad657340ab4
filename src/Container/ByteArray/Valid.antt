-- ===== src/Container/ByteArray/Valid.antt =====
-- The invariant of the array, which a new array has and `add_capacity` keeps.
use cpp_cores.Base.{
  ℕ, ◌+◌, ◌-◌, ◌*◌, ◌/◌, ◌%◌, ◌≤◌, ◌<◌, ◌≡◌, refl, sym, ap, ◌∙◌, List, [], ◌++◌, ◌==◌, ◌||◌, leb,
  if◌then◌else◌, length, arith, All-append, Bool-cases, inl, inr, length-append, append-nil,
}
use mathlib.Core.List.{flatten}
use native.Mathlib.Nat.{
  mod-lt, div-eq_of_lt, mod-eq_of_lt, mod-eq-sub-mod, div-add-mod', mul-add-div_right,
}
use cpp_cores.Container.ByteArray.{
  ByteArray, w64, new, get_capacity, get_read_size, new_nodes, add_capacity,
}
use cpp_cores.Container.ByteArray.Loops.{Blocks}
use cpp_cores.Container.ByteArray.Flat.{
  flat, flatten-append, length-flatten, Blocks-new_nodes, length-new_nodes,
}

-- The capacity is that of the nodes, each of the base size; `m_cur` is the node of the position; the
-- position is within the capacity and the size.
pub record IsValid (a : ByteArray) : Type 0 where
  pub pos : 0 < a.base_size
  pub root : 0 < a.capacity
  pub blocks : Blocks a.base_size a.nodes
  pub total : a.capacity ≡ length (flat a)
  pub at : a.cur ≡ a.position / a.base_size
  pub inside : a.position ≤ a.capacity
  pub filled : a.position ≤ a.size
  pub short : a.capacity < w64
  pub small : a.size < w64

pub wrap_sub : (x y : ℕ) → y ≤ x → x < w64 → (x + w64 - y) % w64 ≡ x - y
wrap_sub x y h k =
    let over : (x + w64 - y) % w64 ≡ (x + w64 - y - w64) % w64 = mod-eq-sub-mod (omega arith) in
    let same : x + w64 - y - w64 ≡ x - y = omega arith in
    let less : (x - y) % w64 ≡ x - y = mod-eq_of_lt (omega arith) in
    over ∙ ap (λ z. z % w64) same ∙ less

pub get_capacity_lem : (a : ByteArray) → IsValid a → get_capacity a ≡ a.capacity - a.position
unfolding get_capacity
get_capacity_lem a v = wrap_sub a.capacity a.position v.inside v.short

pub get_read_size_lem : (a : ByteArray) → IsValid a → get_read_size a ≡ a.size - a.position
unfolding get_read_size
get_read_size_lem a v = wrap_sub a.size a.position v.filled v.small

-- A new array is valid.
pub new-IsValid :
    (fresh : ℕ → List ℕ) (base : ℕ)
    → length (fresh 0) ≡ base
    → 0 < base
    → base < w64
    → IsValid (new fresh base)
unfolding new flatten
new-IsValid fresh base h p s = record {
  pos = p;
  root = p;
  blocks = (h, tt);
  total = omega (arith, length-append (fresh 0) [], h);
  at = sym (div-eq_of_lt p);
  inside = omega arith;
  filled = omega arith;
  short = s;
  small = omega arith;
}

-- The position, as a node and a place in it.
pub position_split :
    (a : ByteArray) → IsValid a → a.cur * a.base_size + a.position % a.base_size ≡ a.position
position_split a v = rw (v.at) (div-add-mod' a.position a.base_size)

-- The end of the last node is the number of the nodes, as a place for `m_cur`.
pub end-div : (a : ByteArray) → IsValid a → a.capacity / a.base_size ≡ length a.nodes
end-div a v =
    let all : length (flatten a.nodes) ≡ length a.nodes * a.base_size =
      length-flatten a.base_size v.pos a.nodes v.blocks in
    let is : a.capacity ≡ length a.nodes * a.base_size + 0 = omega (arith, v.total, all) in
    let none_left : 0 / a.base_size ≡ 0 = div-eq_of_lt v.pos in
    ap (λ x. x / a.base_size) is
    ∙ mul-add-div_right v.pos (length a.nodes) 0
    ∙ omega (arith, none_left)

module _ (fresh : ℕ → List ℕ) (a : ByteArray) (f : (j : ℕ) → length (fresh j) ≡ a.base_size)
    (v : IsValid a) where
  -- `count` nodes after the last one.
  abbrev pub with_more : ℕ → ℕ → ByteArray
  with_more count cur = record a {
    nodes = a.nodes ++ new_nodes fresh (length a.nodes) count;
    capacity = a.capacity + count * a.base_size;
    cur = cur;
  }

  pub with_more-IsValid :
      (count cur : ℕ)
      → cur ≡ a.position / a.base_size
      → a.capacity + count * a.base_size < w64
      → IsValid (with_more count cur)
  with_more-IsValid count cur at s =
      let more : List (List ℕ) = new_nodes fresh (length a.nodes) count in
      let blocks : Blocks a.base_size more =
        Blocks-new_nodes a.base_size v.pos fresh (length a.nodes) count f in
      let size : length (flatten more) ≡ length more * a.base_size =
        length-flatten a.base_size v.pos more blocks in
      let number : length more ≡ count =
        length-new_nodes a.base_size v.pos fresh (length a.nodes) count in
      let two : length (flatten (a.nodes ++ more))
          ≡ length (flatten a.nodes) + length (flatten more) =
        ap length (flatten-append a.nodes more) ∙ length-append (flatten a.nodes) (flatten more) in
      let added : length (flatten more) ≡ count * a.base_size =
        size ∙ ap (λ x. x * a.base_size) number in
      record {
        pos = v.pos;
        root = omega (arith, v.root);
        blocks = All-append _ a.nodes more v.blocks blocks;
        total = omega (arith, v.total, two, added);
        at = at;
        inside = omega (arith, v.inside);
        filled = v.filled;
        short = s;
        small = v.small;
      }

  -- `m_cur` is null when there is no room, and then the first new node has its number.
  pub next_cur : (if get_capacity a == 0 then length a.nodes else a.cur) ≡ a.position / a.base_size
  next_cur =
      let old : get_capacity a ≡ a.capacity - a.position = get_capacity_lem a v in
      elim (Bool-cases (get_capacity a == 0)) [
        | inl e ↦
            let full : a.position ≡ a.capacity = ground (arith, old, v.inside) in
            rw e (sym (ap (λ x. x / a.base_size) full ∙ end-div a v))
        | inr e ↦ rw e (v.at)
      ]

  -- What `add_capacity` keeps and what it makes room for.
  abbrev pub Roomy : ℕ → ByteArray → Type 0
  Roomy n a' =
      (more : List ℕ) × (flat a' ≡ flat a ++ more
        × IsValid a'
        × (a.position + n ≤ a'.capacity × a'.capacity ≤ a.capacity + n + a.base_size)
        × (a'.position ≡ a.position × a'.size ≡ a.size × a'.base_size ≡ a.base_size))

  pub add_capacity-Roomy :
      (n : ℕ) → a.capacity + n + a.base_size < w64 → Roomy n (add_capacity fresh n a)
  unfolding add_capacity
  add_capacity-Roomy n s =
      let old : get_capacity a ≡ a.capacity - a.position = get_capacity_lem a v in
      elim (Bool-cases (n == 0 || leb n (get_capacity a))) [
        | inl e ↦
            let fits : a.position + n ≤ a.capacity = ground (arith, v.inside, old) in
            rw e ([], (sym (append-nil (flat a)), v, (fits, omega arith), (refl, refl, refl)))
        | inr e ↦
            let x : ℕ = n - get_capacity a + a.base_size - 1 in
            let whole : x / a.base_size * a.base_size + x % a.base_size ≡ x =
              div-add-mod' x a.base_size in
            let rest : x % a.base_size < a.base_size = mod-lt x v.pos in
            let more : a.capacity - a.position < n = ground (arith, old) in
            rw e (
              flatten (new_nodes fresh (length a.nodes) (x / a.base_size)),
              (
                flatten-append a.nodes _,
                with_more-IsValid (x / a.base_size) _ next_cur (omega (arith, whole, old)),
                (omega (arith, whole, rest, old, v.inside), omega (arith, whole, old)),
                (refl, refl, refl),
              ),
            )
      ]
