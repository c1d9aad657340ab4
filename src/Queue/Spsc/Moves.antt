-- ===== src/Queue/Spsc/Moves.antt =====
-- Each access of the producer and of the consumer keeps the invariant.
use cpp_cores.Base.{
  ℕ, ◌<◌, ◌≡◌, ◌≢◌, refl, ap, sym, ◌∙◌, [], ◌∷◌, ◌++◌, ◌==◌, get_or, set, arith, get_or-set_self,
  get_or-set_ne, length-set, append_assoc, Bool-cases, inl, inr,
}
use cpp_cores.Queue.Spsc.{Ring, next, Producer, Consumer, System, produce, consume}
use cpp_cores.Queue.Spsc.Invariant.{
  contents, ProducerFresh, ConsumerFresh, Inv, contents_write, contents_publish, contents_take,
}

module _ (n : ℕ) where
  -- A write of the free cell and a new write index leave what the consumer knows.
  consumer_write :
      (q : Ring) (e : ℕ) (c : Consumer)
      → ConsumerFresh n q c
      → ConsumerFresh n (record { cells = set q.cells q.w e; r = q.r; w = q.w }) c
  consumer_write q e Consumer.idle f = tt
  consumer_write q e Consumer.called f = tt
  consumer_write q e (Consumer.loaded r) f = f
  consumer_write q e (Consumer.ready r) f = f
  consumer_write q e (Consumer.taken y r) f =
      (f.0, f.1, get_or-set_ne q.cells q.w r e 0 (λ same. f.1 (sym same)) ∙ f.2)

  consumer_publish :
      (q : Ring) (c : Consumer)
      → next n q.w ≢ q.r
      → ConsumerFresh n q c
      → ConsumerFresh n (record { cells = q.cells; r = q.r; w = next n q.w }) c
  consumer_publish q Consumer.idle ne f = tt
  consumer_publish q Consumer.called ne f = tt
  consumer_publish q (Consumer.loaded r) ne f = f
  consumer_publish q (Consumer.ready r) ne f = (f.0, λ same. ne (sym same ∙ f.0))
  consumer_publish q (Consumer.taken y r) ne f = (f.0, λ same. ne (sym same ∙ f.0), f.2)

  -- A new read index leaves what the producer knows.
  producer_take :
      (q : Ring) (p : Producer)
      → q.r < n
      → q.w < n
      → q.r ≢ q.w
      → ProducerFresh n q p
      → ProducerFresh n (record { cells = q.cells; r = next n q.r; w = q.w }) p
  producer_take q Producer.idle hr hw ne f = tt
  producer_take q (Producer.called e) hr hw ne f = tt
  producer_take q (Producer.loaded e w) hr hw ne f = f
  producer_take q (Producer.free e w) hr hw ne f = (f.0, ground arith)
  producer_take q (Producer.written e w) hr hw ne f = (f.0, ground arith, f.2)

  pub produce-Inv : (p : Producer) (s : System) → s.producer ≡ p → Inv n s → Inv n (produce n p s)
  unfolding produce
  produce-Inv Producer.idle s e v = v
  produce-Inv (Producer.called x) s e v = record {
    big = v.big;
    room = v.room;
    r_in = v.r_in;
    w_in = v.w_in;
    history = v.history;
    producer = refl;
    consumer = v.consumer;
  }
  produce-Inv (Producer.loaded x w) s e v =
      let fresh : ProducerFresh n s.ring (Producer.loaded x w) = rw e at (v.producer) in
      elim (Bool-cases (next n w == s.ring.r)) [
        | inl full ↦ rw full (record {
          big = v.big;
          room = v.room;
          r_in = v.r_in;
          w_in = v.w_in;
          history = v.history;
          producer = tt;
          consumer = v.consumer;
        })
        | inr free ↦ rw free (record {
          big = v.big;
          room = v.room;
          r_in = v.r_in;
          w_in = v.w_in;
          history = v.history;
          producer = (fresh, ground arith);
          consumer = v.consumer;
        })
      ]
  produce-Inv (Producer.free x w) s e v =
      let fresh : ProducerFresh n s.ring (Producer.free x w) = rw e at (v.producer) in
      rw (fresh.0) (record {
        big = v.big;
        room = length-set s.ring.cells s.ring.w x ∙ v.room;
        r_in = v.r_in;
        w_in = v.w_in;
        history = rw (contents_write n s.ring.cells s.ring.r s.ring.w x v.r_in v.w_in) (v.history);
        producer = (
          refl,
          rw (fresh.0) at (fresh.1),
          get_or-set_self s.ring.cells s.ring.w x 0 (omega (arith, v.room, v.w_in)),
        );
        consumer = consumer_write s.ring x s.consumer v.consumer;
      })
  produce-Inv (Producer.written x w) s e v =
      let fresh : ProducerFresh n s.ring (Producer.written x w) = rw e at (v.producer) in
      let ne : next n s.ring.w ≢ s.ring.r = rw (fresh.0) at (fresh.1) in
      let stored : get_or s.ring.cells s.ring.w 0 ≡ x = rw (fresh.0) at (fresh.2) in
      rw (fresh.0) (record {
        big = v.big;
        room = v.room;
        r_in = v.r_in;
        w_in = ground (arith, v.w_in, v.big);
        history =
            ap (λ t. t ++ x ∷ []) v.history
            ∙ append_assoc s.popped (contents n s.ring) (x ∷ [])
            ∙ ap (λ t. s.popped ++ t)
                (sym (
                  contents_publish n s.ring.cells s.ring.r s.ring.w v.r_in v.w_in ne
                  ∙ ap (λ y. contents n s.ring ++ y ∷ []) stored));
        producer = tt;
        consumer = consumer_publish s.ring s.consumer ne v.consumer;
      })

  pub consume-Inv : (c : Consumer) (s : System) → s.consumer ≡ c → Inv n s → Inv n (consume n c s)
  unfolding consume
  consume-Inv Consumer.idle s e v = v
  consume-Inv Consumer.called s e v = record {
    big = v.big;
    room = v.room;
    r_in = v.r_in;
    w_in = v.w_in;
    history = v.history;
    producer = v.producer;
    consumer = refl;
  }
  consume-Inv (Consumer.loaded r) s e v =
      let fresh : ConsumerFresh n s.ring (Consumer.loaded r) = rw e at (v.consumer) in
      elim (Bool-cases (r == s.ring.w)) [
        | inl empty ↦ rw empty (record {
          big = v.big;
          room = v.room;
          r_in = v.r_in;
          w_in = v.w_in;
          history = v.history;
          producer = v.producer;
          consumer = tt;
        })
        | inr some_left ↦ rw some_left (record {
          big = v.big;
          room = v.room;
          r_in = v.r_in;
          w_in = v.w_in;
          history = v.history;
          producer = v.producer;
          consumer = (fresh, ground arith);
        })
      ]
  consume-Inv (Consumer.ready r) s e v =
      let fresh : ConsumerFresh n s.ring (Consumer.ready r) = rw e at (v.consumer) in
      record {
        big = v.big;
        room = v.room;
        r_in = v.r_in;
        w_in = v.w_in;
        history = v.history;
        producer = v.producer;
        consumer = (fresh.0, fresh.1, refl);
      }
  consume-Inv (Consumer.taken x r) s e v =
      let fresh : ConsumerFresh n s.ring (Consumer.taken x r) = rw e at (v.consumer) in
      let ne : s.ring.r ≢ s.ring.w = rw (fresh.0) at (fresh.1) in
      let stored : get_or s.ring.cells s.ring.r 0 ≡ x = rw (fresh.0) at (fresh.2) in
      rw (fresh.0) (record {
        big = v.big;
        room = v.room;
        r_in = ground (arith, v.r_in, v.big);
        w_in = v.w_in;
        history =
            v.history
            ∙ ap (λ t. s.popped ++ t)
                (contents_take n s.ring.cells s.ring.r s.ring.w v.r_in v.w_in ne
                  ∙ ap
                      (λ y.
                        y
                        ∷ contents n
                            (record { cells = s.ring.cells; r = next n s.ring.r; w = s.ring.w }))
                      stored)
            ∙ sym (append_assoc s.popped (x ∷ []) _);
        producer = producer_take s.ring s.producer v.r_in v.w_in ne v.producer;
        consumer = tt;
      })
