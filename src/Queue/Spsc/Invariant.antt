-- ===== src/Queue/Spsc/Invariant.antt =====
-- The invariant of one producer and one consumer over the ring, and how a change of the ring shows
-- in its contents.
use cpp_cores.Base.{
  ℕ, suc, ◌<◌, ◌≡◌, ◌≢◌, refl, ap, ◌∙◌, List, [], ◌∷◌, ◌++◌, get_or, set, length, arith,
}
use cpp_cores.Queue.Spsc.{Ring, next, Producer, Consumer, System}
use cpp_cores.Queue.Spsc.Window.{count, window, window-set, window-snoc}

module _ (n : ℕ) where
  -- The elements in the queue, oldest first.
  abbrev pub contents : Ring → List ℕ
  contents q = window n q.cells q.r (count n q.r q.w)

  -- What the local variables of a thread say about the shared ring.
  abbrev pub ProducerFresh : Ring → Producer → Type 0
  ProducerFresh q Producer.idle = Unit
  ProducerFresh q (Producer.called e) = Unit
  ProducerFresh q (Producer.loaded e w) = w ≡ q.w
  ProducerFresh q (Producer.free e w) = (w ≡ q.w) × (next n w ≢ q.r)
  ProducerFresh q (Producer.written e w) = (w ≡ q.w) × (next n w ≢ q.r) × (get_or q.cells w 0 ≡ e)

  abbrev pub ConsumerFresh : Ring → Consumer → Type 0
  ConsumerFresh q Consumer.idle = Unit
  ConsumerFresh q Consumer.called = Unit
  ConsumerFresh q (Consumer.loaded r) = r ≡ q.r
  ConsumerFresh q (Consumer.ready r) = (r ≡ q.r) × (r ≢ q.w)
  ConsumerFresh q (Consumer.taken e r) = (r ≡ q.r) × (r ≢ q.w) × (get_or q.cells r 0 ≡ e)

  pub record Inv (s : System) : Type 0 where
    pub big : 2 < n
    pub room : length s.ring.cells ≡ n
    pub r_in : s.ring.r < n
    pub w_in : s.ring.w < n
    pub history : s.pushed ≡ s.popped ++ contents s.ring
    pub producer : ProducerFresh s.ring s.producer
    pub consumer : ConsumerFresh s.ring s.consumer

  -- The three changes of the ring, on its contents.
  pub contents_write :
      (cells : List ℕ) (r w e : ℕ)
      → r < n
      → w < n
      → contents (record { cells = set cells w e; r = r; w = w })
        ≡ contents (record { cells = cells; r = r; w = w })
  contents_write cells r w e hr hw = window-set n cells (count n r w) r w e hr hw refl

  pub contents_publish :
      (cells : List ℕ) (r w : ℕ)
      → r < n
      → w < n
      → next n w ≢ r
      → contents (record { cells = cells; r = r; w = next n w })
        ≡ contents (record { cells = cells; r = r; w = w }) ++ get_or cells w 0 ∷ []
  contents_publish cells r w hr hw ne =
      let longer : count n r (next n w) ≡ suc (count n r w) = ground arith in
      ap (window n cells r) longer ∙ window-snoc n cells (count n r w) r w hr hw refl ne

  pub contents_take :
      (cells : List ℕ) (r w : ℕ)
      → r < n
      → w < n
      → r ≢ w
      → contents (record { cells = cells; r = r; w = w })
        ≡ get_or cells r 0 ∷ contents (record { cells = cells; r = next n r; w = w })
  contents_take cells r w hr hw ne =
      let longer : count n r w ≡ suc (count n (next n r) w) = ground arith in
      ap (window n cells r) longer
