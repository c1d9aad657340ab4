-- ===== src/File/Stat/Jiffies.antt =====
-- What the map from groups to jiffies holds.
use cpp_cores.Base.{
  ℕ, ◌≡◌, refl, sym, ap, ap₂, ◌∙◌, Bool, true, false, ◌||◌, List, [], ◌∷◌, some, ◌==◌, ==_iff,
  if◌then◌else◌, codes, arith, Bool-cases, inl, inr,
}
use cpp_cores.Base.Int.{ℤ, ◌+ℤ◌}
use cpp_cores.File.Stat.{
  int64, get_thread_stat, no_stat, Entry, same, value_at, add_at, count_entry, count_entries,
  get_thread_jiffies,
}

same_sound : (s t : List ℕ) → same s t ≡ true → s ≡ t
unfolding same
same_sound [] [] h = refl
same_sound [] (d ∷ t) h = cc
same_sound (c ∷ s) [] h = cc
same_sound (c ∷ s) (d ∷ t) h =
    let head : (c == d) ≡ true = ground arith in
    let tail : same s t ≡ true = ground arith in ap₂ ◌∷◌ ((==_iff c d).0 head) (same_sound s t tail)

same_refl : (s : List ℕ) → same s s ≡ true
unfolding same
same_refl [] = refl
same_refl (c ∷ s) = ground (arith, same_refl s)

same_apart : (g k j : List ℕ) → same j k ≡ false → same j g ≡ true → same k g ≡ false
same_apart g k j other hit = elim (Bool-cases (same k g)) [
  | inl both ↦
      let all = same_sound j g hit ∙ sym (same_sound k g both) in
      let self : same j k ≡ true = ap (λ t. same t k) all ∙ same_refl k in cc
  | inr apart ↦ apart
]

value_at-add_at :
    (overflow : ℤ → ℤ) (g k : List ℕ) (v : ℤ) (m : List (List ℕ × ℤ))
    → value_at g (add_at overflow k v m)
      ≡ (if same k g then int64 overflow (value_at g m +ℤ v) else value_at g m)
unfolding value_at add_at
value_at-add_at overflow g k v [] = refl
value_at-add_at overflow g k v ((j, w) ∷ m) = elim (Bool-cases (same j k)) [
  | inl here ↦
      let at = same_sound j k here in
      elim (Bool-cases (same j g)) [
        | inl hit ↦
            let also : same k g ≡ true = ap (λ s. same s g) (sym at) ∙ hit in
            rw (here, hit, also) refl
        | inr miss ↦
            let also : same k g ≡ false = ap (λ s. same s g) (sym at) ∙ miss in
            rw (here, miss, also) refl
      ]
  | inr other ↦ elim (Bool-cases (same j g)) [
    | inl hit ↦ rw (other, hit, same_apart g k j other hit) refl
    | inr miss ↦ rw (other, miss) (value_at-add_at overflow g k v m)
  ]
]

module _ (page_size : ℕ) (overflow : ℤ → ℤ) (junk junk' : ℤ) (classifier : List ℕ → List ℕ) where
  abbrev pub stat_of : Entry → List ℕ × ℤ
  stat_of e =
      let stat = get_thread_stat page_size overflow junk junk' e.stat no_stat in
      (classifier stat.thread_name, stat.jiffies)

  -- An entry counts for a group if it is a directory other than `.` and `..`, of a thread of the group.
  abbrev pub counts : List ℕ → Entry → Bool
  counts g e =
      if same e.name (codes ".") || same e.name (codes "..")
      then false
      else if e.is_dir
      then same (stat_of e).0 g
      else false

  -- The jiffies of the entries that count, after `acc`.
  pub total : List ℕ → ℤ → List Entry → ℤ
  total g acc [] = acc
  total g acc (e ∷ es) =
      total g (if counts g e then int64 overflow (acc +ℤ (stat_of e).1) else acc) es

  count_entry_lem :
      (g : List ℕ) (e : Entry) (m : List (List ℕ × ℤ))
      → value_at g (count_entry page_size overflow junk junk' classifier e m)
        ≡ (if counts g e then int64 overflow (value_at g m +ℤ (stat_of e).1) else value_at g m)
  unfolding count_entry
  count_entry_lem g e m = elim (Bool-cases (same e.name (codes ".") || same e.name (codes ".."))) [
    | inl skipped ↦ rw skipped refl
    | inr other ↦ elim (Bool-cases e.is_dir) [
      | inl dir ↦ rw (other, dir) (value_at-add_at overflow g (stat_of e).0 (stat_of e).1 m)
      | inr file ↦ rw (other, file) refl
    ]
  ]

  count_entries_lem :
      (g : List ℕ) (es : List Entry) (m : List (List ℕ × ℤ))
      → value_at g (count_entries page_size overflow junk junk' classifier es m)
        ≡ total g (value_at g m) es
  unfolding count_entries total
  count_entries_lem g [] m = refl
  count_entries_lem g (e ∷ es) m =
      count_entries_lem g es (count_entry page_size overflow junk junk' classifier e m)
      ∙ ap (λ acc. total g acc es) (count_entry_lem g e m)

  -- For each group, the map holds the sum, in `int64_t`, of the jiffies of the threads of the group, and 0 for a group
  -- without any.
  pub get_thread_jiffies_lem :
      (g : List ℕ) (es : List Entry)
      → value_at g (get_thread_jiffies page_size overflow junk junk' classifier (some es))
        ≡ total g (ℤ.pos 0) es
  unfolding get_thread_jiffies value_at
  get_thread_jiffies_lem g es = count_entries_lem g es []
