-- ===== src/Container/ByteArray/Writing.antt =====
-- What `write` does to the bytes of all nodes.
use cpp_cores.Base.{
  ℕ, ◌+◌, ◌-◌, ◌*◌, ◌/◌, ◌%◌, ◌≤◌, ◌<◌, ◌≡◌, refl, sym, ap, ◌∙◌, false, List, [], ◌∷◌, ◌++◌, Option,
  some, ◌==◌, ltb, if◌then◌else◌, length, take, drop, arith, All-append, append-nil,
}
use mathlib.Core.List.{flatten}
use native.Mathlib.Nat.{mod-lt, mul-add-div_right}
use cpp_cores.Container.ByteArray.{
  ByteArray, w64, overwrite, add_capacity, write_loop, write, after_write,
}
use cpp_cores.Container.ByteArray.Copy.{length-overwrite, overwrite-nil}
use cpp_cores.Container.ByteArray.Loops.{write_loop-overwrite}
use cpp_cores.Container.ByteArray.Flat.{
  flat, flatten-append, Blocks-take, Blocks-drop, length-flatten-drop, overwrite-drop,
}
use cpp_cores.Container.ByteArray.Valid.{IsValid, position_split, add_capacity-Roomy}

abbrev pub grown_size : ℕ → ByteArray → ℕ
grown_size n a = if ltb a.size (a.position + n) then a.position + n else a.size

-- What `write` is to do where there is room.
abbrev pub Written : List ℕ → ByteArray → Option ByteArray → Type 0
Written buf a out =
    (a' : ByteArray) × (out ≡ some a'
      × IsValid a'
      × flat a' ≡ overwrite a.position buf (flat a)
      × (a'.position ≡ a.position + length buf
          × a'.size ≡ grown_size (length buf) a
          × a'.base_size ≡ a.base_size
          × a'.capacity ≡ a.capacity))

pub loop-Written :
    (buf : List ℕ) (a : ByteArray)
    → IsValid a
    → a.position + length buf ≤ a.capacity
    → Written buf a (
        after_write (length buf) a (write_loop (a.position % a.base_size) buf (drop a.cur a.nodes)))
loop-Written buf a v room =
    let base : ℕ = a.base_size in
    let npos : ℕ = a.position % base in
    let split : a.cur * base + npos ≡ a.position = position_split a v in
    let low : a.cur * base ≤ length (flat a) = omega (arith, split, v.inside, v.total) in
    let left : length (flatten (drop a.cur a.nodes)) ≡ length (flat a) - a.cur * base =
      length-flatten-drop base v.pos a.cur a.nodes v.blocks in
    let (ns, k, (e, copied, moved, blocks)) =
      write_loop-overwrite base v.pos npos buf (drop a.cur a.nodes)
        (Blocks-drop base v.pos a.cur a.nodes v.blocks) (mod-lt a.position v.pos)
        (omega (arith, split, left, room, v.total)) in
    let flattened : flatten (take a.cur a.nodes ++ ns) ≡ overwrite a.position buf (flat a) =
      flatten-append (take a.cur a.nodes) ns
      ∙ ap (λ l. flatten (take a.cur a.nodes) ++ l) copied
      ∙ overwrite-drop base v.pos a.cur npos buf a.nodes v.blocks low
      ∙ ap (λ p. overwrite p buf (flat a)) split in
    let length_kept : length (flatten (take a.cur a.nodes ++ ns)) ≡ length (flat a) =
      ap length flattened ∙ length-overwrite a.position buf (flat a) in
    let sum : a.position + length buf ≡ a.cur * base + (npos + length buf) = omega (arith, split) in
    let at : (a.position + length buf) / base ≡ a.cur + (npos + length buf) / base =
      ap (λ x. x / base) sum ∙ mul-add-div_right v.pos a.cur (npos + length buf) in
    let valid : IsValid (record a {
      nodes = take a.cur a.nodes ++ ns;
      cur = a.cur + k;
      position = a.position + length buf;
      size = grown_size (length buf) a;
    }) =
      record {
        pos = v.pos;
        root = v.root;
        blocks =
            All-append _ (take a.cur a.nodes) ns (Blocks-take base v.pos a.cur a.nodes v.blocks)
              blocks;
        total = v.total ∙ sym length_kept;
        at = ap (λ x. a.cur + x) moved ∙ sym at;
        inside = room;
        filled = ground arith;
        short = v.short;
        small = ground (arith, v.small, v.short);
      } in
    (_, (ap (after_write (length buf) a) e, valid, flattened, (refl, refl, refl, refl)))

-- After `write` the bytes stand at the position, on what was there and on new room where it was too
-- small; the position is behind them, and the size is not less.
pub write_refines :
    (fresh : ℕ → List ℕ) (buf : List ℕ) (a : ByteArray)
    → ((j : ℕ) → length (fresh j) ≡ a.base_size)
    → IsValid a
    → a.capacity + length buf + a.base_size < w64
    → (a' : ByteArray) × (write fresh buf a ≡ some a'
        × IsValid a'
        × ((more : List ℕ) × flat a' ≡ overwrite a.position buf (flat a ++ more))
        × (a'.position ≡ a.position + length buf
            × a'.size ≡ grown_size (length buf) a
            × a'.base_size ≡ a.base_size
            × a'.capacity ≤ a.capacity + length buf + a.base_size))
unfolding write
write_refines fresh [] a f v s = (
  a,
  (
    refl,
    v,
    ([], sym (overwrite-nil a.position (flat a ++ []) ∙ append-nil (flat a))),
    (omega arith, ground (arith, v.filled), refl, omega arith),
  ),
)
write_refines fresh (b ∷ bs) a f v s =
    let (more, (longer, valid, (room, limit), (same_position, same_size, same_base))) =
      add_capacity-Roomy fresh a f v (length (b ∷ bs)) s in
    let m : ByteArray = add_capacity fresh (length (b ∷ bs)) a in
    let (a', (e, v', copied, (position', size', base', capacity'))) =
      loop-Written (b ∷ bs) m valid (omega (arith, room, same_position)) in
    let something : (length (b ∷ bs) == 0) ≡ false = ground arith in
    let whole : overwrite m.position (b ∷ bs) (flat m)
        ≡ overwrite a.position (b ∷ bs) (flat a ++ more) =
      rw (same_position, longer) refl in
    (
      a',
      (
        rw something e,
        v',
        (more, copied ∙ whole),
        (
          omega (arith, position', same_position),
          ground (arith, size', same_position, same_size),
          base' ∙ same_base,
          omega (arith, limit, capacity'),
        ),
      ),
    )
