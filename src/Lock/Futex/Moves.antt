-- ===== src/Lock/Futex/Moves.antt =====
-- What holds between the accesses, and that each access keeps it.
use cpp_cores.Base.{
  ℕ, ◌%◌, ◌≡◌, ◌≢◌, refl, sym, ap, ◌∙◌, ◌⊎◌, inl, inr, Bool, true, false, arith, ◌==◌,
  if◌then◌else◌, bit_and, Bool-cases,
}
use cpp_cores.Lock.Exclusive.{
  update, update_self, update_other, update-cases, Nobody, OneOnly, Nobody-update, OneOnly-acquire,
  OneOnly-update, Nobody-release,
}
use cpp_cores.Lock.Futex.{Thread, System, act, apply, move, lock_byte, contended_word}

abbrev pub owns : Thread → Bool
owns Thread.owner = true
owns _ = false

abbrev pub sleeps : Thread → Bool
sleeps Thread.sleeping = true
sleeps _ = false

-- A thread that is about to set the contended byte, or to wake a sleeper.
abbrev pub rouses : Thread → Bool
rouses Thread.contending = true
rouses Thread.waking = true
rouses _ = false

-- The word is 0 and nobody owns the mutex, or it is locked and exactly one thread does.
abbrev pub Guarded : ℕ → (ℕ → Thread) → Type 0
Guarded word threads =
    ((word ≡ 0) × Nobody owns threads)
    ⊎ (((word ≡ 1) ⊎ (word ≡ contended_word)) × OneOnly owns threads)

-- No sleeper is forgotten.
abbrev pub Watched : ℕ → (ℕ → Thread) → Type 0
Watched word threads =
    (i : ℕ)
    → sleeps (threads i) ≡ true
    → (word ≡ contended_word) ⊎ ((j : ℕ) × (rouses (threads j) ≡ true))

abbrev pub Inv : System → Type 0
Inv s = Guarded s.word s.threads × Watched s.word s.threads

module _ (word : ℕ) (threads : ℕ → Thread) (i : ℕ) where
  -- A move that neither takes nor gives the mutex.
  pub Guarded-update :
      (t : Thread)
      → owns (threads i) ≡ false
      → owns t ≡ false
      → Guarded word threads
      → Guarded word (update threads i t)
  Guarded-update t before after (inl (free, nobody)) =
      inl (free, Nobody-update owns threads i t nobody after)
  Guarded-update t before after (inr (locked, one)) =
      inr (locked, OneOnly-update owns threads i t one before after)

  -- A move of a thread that rouses nobody, and sleeps after it only if it did before; the contended
  -- word stays.
  Watched-keep :
      (t : Thread) (word' : ℕ)
      → rouses (threads i) ≡ false
      → (sleeps t ≡ true → sleeps (threads i) ≡ true)
      → (word ≡ contended_word → word' ≡ contended_word)
      → Watched word threads
      → Watched word' (update threads i t)
  Watched-keep t word' before after stays watched j asleep =
      let slept : (m : ℕ) × (sleeps (threads m) ≡ true) = elim (update-cases sleeps threads i t j) [
        | inl (same, e) ↦ (i, after (sym e ∙ asleep))
        | inr (ne, e) ↦ (j, sym e ∙ asleep)
      ] in
      elim (watched slept.0 slept.1) [
        | inl full ↦ inl (stays full)
        | inr (k, rouser) ↦
            let apart : i ≢ k = λ at.
              let clash : false ≡ true = sym before ∙ ap (λ m. rouses (threads m)) at ∙ rouser in
              absurd (ground arith) in
            inr (k, ap rouses (update_other threads i k t apart) ∙ rouser)
      ]

  pub Watched-update :
      (t : Thread) (word' : ℕ)
      → rouses (threads i) ≡ false
      → sleeps t ≡ false
      → (word ≡ contended_word → word' ≡ contended_word)
      → Watched word threads
      → Watched word' (update threads i t)
  Watched-update t word' before after =
      Watched-keep t word' before
        (λ e. let clash : true ≡ false = sym e ∙ after in absurd (ground arith))

  -- A thread that comes to rouse keeps watch over all sleepers.
  pub Watched-rouse :
      (t : Thread) (word' : ℕ) → rouses t ≡ true → Watched word' (update threads i t)
  Watched-rouse t word' rouser j asleep = inr (i, ap rouses (update_self threads i t) ∙ rouser)

abbrev Locked : ℕ → Type 0
Locked word = (word ≡ 1) ⊎ (word ≡ contended_word)

module _ (word : ℕ) (threads : ℕ → Thread) (i : ℕ) (v : Guarded word threads) where
  shape : (word ≡ 0) ⊎ Locked word
  shape = elim v [ inl (free, nobody) ↦ inl free | inr (locked, one) ↦ inr locked ]

  taken : (word' : ℕ) → word ≡ 0 → Locked word' → Guarded word' (update threads i Thread.owner)
  taken word' free locked' = elim v [
    | inl (zero_word, nobody) ↦
        inr (locked', OneOnly-acquire owns threads i Thread.owner nobody refl)
    | inr (locked, one) ↦ absurd (ground arith)
  ]

  refused :
      (t : Thread) (word' : ℕ)
      → word ≢ 0
      → Locked word'
      → owns (threads i) ≡ false
      → owns t ≡ false
      → Guarded word' (update threads i t)
  refused t word' busy locked' before after = elim v [
    | inl (free, nobody) ↦ absurd (busy free)
    | inr (locked, one) ↦ inr (locked', OneOnly-update owns threads i t one before after)
  ]

  released :
      (t : Thread) → owns (threads i) ≡ true → owns t ≡ false → Guarded 0 (update threads i t)
  released t before after = elim v [
    | inl (free, nobody) ↦ let clash : true ≡ false = sym before ∙ nobody i in absurd (ground arith)
    | inr (locked, one) ↦ inl (refl, Nobody-release owns threads i t one before after)
  ]

  Locked-lock_byte : word ≢ 0 → Locked (lock_byte word)
  Locked-lock_byte busy = elim shape [
    | inl free ↦ absurd (busy free)
    | inr (inl one) ↦ inl (ground arith)
    | inr (inr full) ↦ inr (ground arith)
  ]

module _ (s : System) (i : ℕ) (v : Inv s) where
  -- The exchange on the low byte, by `lock` or `try_lock`.
  exchange-Inv :
      (failed : Thread)
      → owns (s.threads i) ≡ false
      → rouses (s.threads i) ≡ false
      → owns failed ≡ false
      → sleeps failed ≡ false
      → Inv (record {
        word = lock_byte s.word;
        threads = update s.threads i (if s.word % 256 == 0 then Thread.owner else failed);
      })
  exchange-Inv failed free_before quiet_before free_after quiet_after =
      let form = shape s.word s.threads i v.0 in
      let stays : s.word ≡ contended_word → lock_byte s.word ≡ contended_word = λ e. ground arith in
      elim (Bool-cases (s.word % 256 == 0)) [
        | inl clear ↦
            let free : s.word ≡ 0 = ground arith in
            rw clear (
              taken s.word s.threads i v.0 (lock_byte s.word) free (inl (ground arith)),
              Watched-update s.word s.threads i Thread.owner (lock_byte s.word) quiet_before refl
                  stays v.1,
            )
        | inr set_ ↦
            let busy : s.word ≢ 0 = ground arith in
            rw set_ (
              refused s.word s.threads i v.0 failed (lock_byte s.word) busy
                  (Locked-lock_byte s.word s.threads i v.0 busy) free_before free_after,
              Watched-update s.word s.threads i failed (lock_byte s.word) quiet_before quiet_after
                  stays v.1,
            )
      ]

  -- The exchange of the whole word in `lock_contended`.
  contend-Inv :
      owns (s.threads i) ≡ false
      → Inv (record {
        word = contended_word;
        threads =
            update s.threads i (if bit_and s.word 1 == 0 then Thread.owner else Thread.waiting);
      })
  contend-Inv before = elim (shape s.word s.threads i v.0) [
    | inl free ↦
        rw free (taken s.word s.threads i v.0 contended_word free (inr refl), λ j asleep. inl refl)
    | inr (inl one) ↦ rw one (
      refused s.word s.threads i v.0 Thread.waiting contended_word (ground arith) (inr refl) before
          refl,
      λ j asleep. inl refl,
    )
    | inr (inr full) ↦ rw full (
      refused s.word s.threads i v.0 Thread.waiting contended_word (ground arith) (inr refl) before
          refl,
      λ j asleep. inl refl,
    )
  ]

  -- The exchange in `unlock`.
  unlock-Inv :
      owns (s.threads i) ≡ true
      → rouses (s.threads i) ≡ false
      → Inv (record {
        word = 0;
        threads = update s.threads i (if s.word == 1 then Thread.idle else Thread.waking);
      })
  unlock-Inv before quiet = elim (Bool-cases (s.word == 1)) [
    | inl alone ↦
        let other : s.word ≡ contended_word → 0 ≡ contended_word = λ e. absurd (ground arith) in
        rw alone (
          released s.word s.threads i v.0 Thread.idle before refl,
          Watched-update s.word s.threads i Thread.idle 0 quiet refl other v.1,
        )
    | inr waited ↦ rw waited (
      released s.word s.threads i v.0 Thread.waking before refl,
      Watched-rouse s.word s.threads i Thread.waking 0 refl,
    )
  ]

  -- Moves that leave the word alone: of a thread that rouses nobody, to a place where it does, and into
  -- the sleep that the contended word covers.
  pub quiet-Inv :
      (t : Thread)
      → owns (s.threads i) ≡ false
      → owns t ≡ false
      → rouses (s.threads i) ≡ false
      → (sleeps t ≡ true → sleeps (s.threads i) ≡ true)
      → Inv (move s i t)
  quiet-Inv t free_before free_after quiet slept = (
    Guarded-update s.word s.threads i t free_before free_after v.0,
    Watched-keep s.word s.threads i t s.word quiet slept (λ e. e) v.1,
  )

  pub rouse-Inv :
      (t : Thread)
      → owns (s.threads i) ≡ false
      → owns t ≡ false
      → rouses t ≡ true
      → Inv (move s i t)
  rouse-Inv t free_before free_after rouser = (
    Guarded-update s.word s.threads i t free_before free_after v.0,
    Watched-rouse s.word s.threads i t s.word rouser,
  )

  pub sleep-Inv :
      owns (s.threads i) ≡ false → s.word ≡ contended_word → Inv (move s i Thread.sleeping)
  sleep-Inv before full =
      (Guarded-update s.word s.threads i Thread.sleeping before refl v.0, λ j asleep. inl full)

  pub act-Inv : (t : Thread) → s.threads i ≡ t → Inv (apply s i (act t s.word))
  unfolding act
  act-Inv Thread.locking at = exchange-Inv Thread.contending (ap owns at) (ap rouses at) refl refl
  act-Inv Thread.trying at = exchange-Inv Thread.idle (ap owns at) (ap rouses at) refl refl
  act-Inv Thread.contending at = contend-Inv (ap owns at)
  act-Inv Thread.owner at = unlock-Inv (ap owns at) (ap rouses at)
  act-Inv Thread.idle at =
      quiet-Inv Thread.idle (ap owns at) refl (ap rouses at) (λ e. ap sleeps at ∙ e)
  act-Inv Thread.waiting at =
      quiet-Inv Thread.waiting (ap owns at) refl (ap rouses at) (λ e. ap sleeps at ∙ e)
  act-Inv Thread.sleeping at =
      quiet-Inv Thread.sleeping (ap owns at) refl (ap rouses at) (λ e. ap sleeps at ∙ e)
  act-Inv Thread.waking at = rouse-Inv Thread.waking (ap owns at) refl refl
