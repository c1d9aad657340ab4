-- ===== src/Fiber/Timer/Fire.antt =====
-- The loop over the expired timers: what it returns, and what it leaves.
use cpp_cores.Base.{
  mem, ℕ, ◌≡◌, refl, sym, ap, ◌∙◌, Bool, true, false, ◌&&◌, ◌||◌, List, [], ◌∷◌, map, ◌==◌, arith,
  All, Bool-cases, inl, inr,
}
use cpp_cores.Fiber.Timer.{Timer, Manager, insert, rearm, fire}
use cpp_cores.Fiber.Timer.Order.{Sorted, mem-insert, mem-Below}
use cpp_cores.Fiber.Timer.Keep.{Armed, Valid, frame-Valid, put-Valid}
use cpp_cores.Fiber.Timer.Split.{select, mem-select}

-- None of the first list is in the second, and each is there once.
pub Fresh : List ℕ → List ℕ → Type 0
Fresh [] l = Unit
Fresh (p ∷ ps) l = (mem p l ≡ false × mem p ps ≡ false) × Fresh ps l

pub Fresh-insert :
    (f : ℕ → Timer) (p : ℕ) (ps l : List ℕ)
    → mem p ps ≡ false
    → Fresh ps l
    → Fresh ps (insert f p l)
unfolding Fresh
Fresh-insert f p [] l h k = tt
Fresh-insert f p (q ∷ ps) l h ((out, once), k) =
    let at : mem q (insert f p l) ≡ (q == p || mem q l) = mem-insert f p l q in
    ((ground arith, once), Fresh-insert f p ps l (ground arith) k)

pub Fresh-select :
    (f : ℕ → Timer) (test : ℕ → Bool) (l k : List ℕ)
    → Sorted f l
    → ((q : ℕ) → mem q l ≡ true → test q ≡ true → mem q k ≡ false)
    → Fresh (select test l) k
unfolding Fresh select
Fresh-select f test [] k s h = tt
Fresh-select f test (p ∷ l) k (b, s) h =
    let rest : Fresh (select test l) k =
      Fresh-select f test l k s (λ q at is. h q (ground arith) is) in
    let once : mem p (select test l) ≡ (mem p l && test p) = mem-select test l p in
    let gone : mem p l ≡ false = mem-Below f p l b in
    elim (Bool-cases (test p)) [
      | inl e ↦ let out : mem p k ≡ false = h p (ground arith) e in rw e ((out, ground arith), rest)
      | inr e ↦ rw e rest
    ]

-- A round changes the timer `p` only.
pub rearm-other :
    (now p q : ℕ) (m : Manager) → (p == q) ≡ false → (rearm now p m).object q ≡ m.object q
unfolding rearm
rearm-other now p q m h = elim (Bool-cases (m.object p).recurring) [
  | inl e ↦ rw (e, h) refl
  | inr e ↦ rw (e, h) refl
]

-- A round keeps the set valid.
pub rearm-Valid :
    (now p : ℕ) (m : Manager)
    → mem p m.timers ≡ false
    → Armed m.object p
    → Valid m.object m.timers
    → Valid (rearm now p m).object (rearm now p m).timers
unfolding rearm
rearm-Valid now p m h k v = elim (Bool-cases (m.object p).recurring) [
  | inl e ↦ rw e (put-Valid m.object p _ m.timers h k v)
  | inr e ↦ rw e (frame-Valid m.object p _ m.timers h v)
]

pub rearm-mem :
    (now p q : ℕ) (m : Manager)
    → mem q (rearm now p m).timers ≡ (mem q m.timers || q == p && (m.object p).recurring)
unfolding rearm
rearm-mem now p q m = elim (Bool-cases (m.object p).recurring) [
  | inl e ↦ rw (e, mem-insert _ p m.timers q) ground arith
  | inr e ↦ rw e ground arith
]

pub rearm-Fresh :
    (now p : ℕ) (m : Manager) (ps : List ℕ)
    → mem p ps ≡ false
    → Fresh ps m.timers
    → Fresh ps (rearm now p m).timers
unfolding rearm
rearm-Fresh now p m ps h k = elim (Bool-cases (m.object p).recurring) [
  | inl e ↦ rw e (Fresh-insert _ p ps m.timers h k)
  | inr e ↦ rw e k
]

pub rearm-All :
    (now p : ℕ) (m : Manager) (ps : List ℕ)
    → mem p ps ≡ false
    → All (Armed m.object) ps
    → All (Armed (rearm now p m).object) ps
rearm-All now p m [] h a = tt
rearm-All now p m (q ∷ ps) h (a, rest) =
    let same : (rearm now p m).object q ≡ m.object q = rearm-other now p q m (ground arith) in
    (rw same a, rearm-All now p m ps (ground arith) rest)

pub map-rearm :
    (now p : ℕ) (m : Manager) (ps : List ℕ)
    → mem p ps ≡ false
    → map (λ q. ((rearm now p m).object q).cb) ps ≡ map (λ q. (m.object q).cb) ps
map-rearm now p m [] h = refl
map-rearm now p m (q ∷ ps) h =
    let same : (rearm now p m).object q ≡ m.object q = rearm-other now p q m (ground arith) in
    rw (same, map-rearm now p m ps (ground arith)) refl

-- What the loop over the expired timers does, one round after the other.
pub fire-Valid :
    (now : ℕ) (ps : List ℕ) (m : Manager)
    → Fresh ps m.timers
    → All (Armed m.object) ps
    → Valid m.object m.timers
    → let m' = (fire now ps m).1 in Valid m'.object m'.timers
unfolding fire Fresh
fire-Valid now [] m h a v = v
fire-Valid now (p ∷ ps) m ((out, once), h) (a, rest) v =
    fire-Valid now ps (rearm now p m) (rearm-Fresh now p m ps once h)
      (rearm-All now p m ps once rest) (rearm-Valid now p m out a v)

pub fire-callbacks :
    (now : ℕ) (ps : List ℕ) (m : Manager)
    → Fresh ps m.timers
    → (fire now ps m).0 ≡ map (λ p. (m.object p).cb) ps
unfolding fire Fresh
fire-callbacks now [] m h = refl
fire-callbacks now (p ∷ ps) m ((out, once), h) =
    let ih : (fire now ps (rearm now p m)).0 ≡ map (λ q. ((rearm now p m).object q).cb) ps =
      fire-callbacks now ps (rearm now p m) (rearm-Fresh now p m ps once h) in
    ap (λ x. (m.object p).cb ∷ x) (ih ∙ map-rearm now p m ps once)

pub fire-mem :
    (now : ℕ) (ps : List ℕ) (m : Manager) (q : ℕ)
    → Fresh ps m.timers
    → mem q (fire now ps m).1.timers ≡ (mem q m.timers || mem q ps && (m.object q).recurring)
unfolding fire Fresh
fire-mem now [] m q h = ground arith
fire-mem now (p ∷ ps) m q ((out, once), h) =
    let m' : Manager = rearm now p m in
    let ih : mem q (fire now ps m').1.timers
        ≡ (mem q m'.timers || mem q ps && (m'.object q).recurring) =
      fire-mem now ps m' q (rearm-Fresh now p m ps once h) in
    let one : mem q m'.timers ≡ (mem q m.timers || q == p && (m.object p).recurring) =
      rearm-mem now p q m in
    elim (Bool-cases (p == q)) [
      | inl e ↦
          let eq : p ≡ q = ground arith in
          let last : mem q ps ≡ false = ap (λ x. mem x ps) (sym eq) ∙ once in
          let is : (m.object p).recurring ≡ (m.object q).recurring =
            ap (λ x. (m.object x).recurring) eq in
          rw (ih, one, last, is) ground arith
      | inr e ↦
          let is : (m'.object q).recurring ≡ (m.object q).recurring =
            ap (λ t. t.recurring) (rearm-other now p q m e) in
          rw (ih, one, is) ground arith
    ]
