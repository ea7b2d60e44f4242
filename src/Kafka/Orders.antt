-- ===== src/Kafka/Orders.antt =====
-- The orders of one customer stay in order.
use the_grind.Prelude.{
  subst, ℕ, String, ◌≡◌, refl, ap, sym, ◌∙◌, some, List, [], ◌∷◌, ◌++◌, ◌==◌, str_eq, eq_iff,
  eq_refl, if◌then◌else◌, arith, inl, inr, Bool-cases, Option-cases, append-nil, append_assoc,
}
use mathlib.Core.Option
use the_grind.Kafka.{
  Client, Order, Producer, create_producer, send, for_each_order, flush_and_close, produce_with,
  produce_orders, deserialize, read_all,
}

-- The items that a customer ordered.
unfoldable pub orders_of : String → List Order → List String
orders_of c [] = []
orders_of c ((customer_id, item) ∷ orders) =
    if str_eq customer_id c then item ∷ orders_of c orders else orders_of c orders

orders_of-append :
    (c : String) (xs ys : List Order) → orders_of c (xs ++ ys) ≡ orders_of c xs ++ orders_of c ys
unfolding orders_of
orders_of-append c [] ys = refl
orders_of-append c ((k, v) ∷ xs) ys = elim (Bool-cases (str_eq k c)) [
  | inl e ↦ rw e (ap (◌∷◌ v) (orders_of-append c xs ys))
  | inr e ↦ rw e (orders_of-append c xs ys)
]

module _ (K : Client) where
  read_all-append :
      (l : List (K.Bytes × K.Bytes)) (k v : String) (xs : List Order)
      → read_all K l ≡ some xs
      → read_all K (l ++ (K.encode k, K.encode v) ∷ []) ≡ some (xs ++ (k, v) ∷ [])
  unfolding read_all
  read_all-append [] k v xs e =
      rw (K.decode-encode k, K.decode-encode v, deserialize, read_all)
        (ap (Option.map (λ (l : List Order). l ++ (k, v) ∷ [])) e)
  read_all-append ((b, c) ∷ l) k v xs e =
      elim (Option-cases (deserialize K (K.decode b) (K.decode c))) [
        | inl bad ↦ absurd (ground arith)
        | inr (order, good) ↦ elim (Option-cases (read_all K l)) [
          | inl bad ↦ absurd (ground arith)
          | inr (ys, fine) ↦
              rw (good, read_all-append l k v ys fine, read_all)
                (ap (Option.map (λ (l : List Order). l ++ (k, v) ∷ []))
                  (rw (good, fine, read_all) at e))
        ]
      ]

  -- One more record, on what the consumer of a partition reads.
  reads_more :
      (p : ℕ) (k v : String) (l l' : List (K.Bytes × K.Bytes)) (ys : List Order)
      → l' ≡ l ++ (if K.partition_of (K.encode k) == p then (K.encode k, K.encode v) ∷ [] else [])
      → read_all K l ≡ some ys
      → (xs : List Order) × (read_all K l' ≡ some xs)
        × (xs ≡ (if K.partition_of (K.encode k) == p then ys ++ (k, v) ∷ [] else ys))
  reads_more p k v l l' ys more e = elim (Bool-cases (K.partition_of (K.encode k) == p)) [
    | inl here ↦
        let it : l' ≡ l ++ (K.encode k, K.encode v) ∷ [] = rw here at more in
        (ys ++ (k, v) ∷ [], rw it (read_all-append l k v ys e), rw here refl)
    | inr other ↦ let it : l' ≡ l = rw other at more ∙ append-nil l in (ys, rw it e, rw other refl)
  ]

  -- The orders of a customer after one more order and the `later` ones.
  one_more :
      (p : ℕ) (c k v : String) (later : List String) (ys zs : List Order)
      → zs ≡ (if K.partition_of (K.encode k) == p then ys ++ (k, v) ∷ [] else ys)
      → orders_of c zs ++ (if K.partition_of (K.encode c) == p then later else [])
        ≡ orders_of c ys
          ++ (if K.partition_of (K.encode c) == p
              then (if str_eq k c then v ∷ later else later)
              else [])
  unfolding orders_of
  one_more p c k v later ys zs is = elim (Bool-cases (str_eq k c)) [
    | inl mine ↦
        let it : k ≡ c = (eq_iff k c).0 mine in
        let at_c : zs ≡ (if K.partition_of (K.encode c) == p then ys ++ (c, v) ∷ [] else ys) =
          rw it at is in
        elim (Bool-cases (K.partition_of (K.encode c) == p)) [
          | inl here ↦
              let all : zs ≡ ys ++ (c, v) ∷ [] = rw here at at_c in
              rw (here, mine, all, orders_of-append c ys ((c, v) ∷ []), eq_refl c)
                (append_assoc (orders_of c ys) (v ∷ []) later)
          | inr away ↦ let all : zs ≡ ys = rw away at at_c in rw (away, all) refl
        ]
    | inr other ↦ rw other (
        ap (λ (l : List String). l ++ (if K.partition_of (K.encode c) == p then later else []))
          (ground (arith, orders_of-append c ys ((k, v) ∷ []), append-nil (orders_of c ys))))
  ]

  -- The producer of both programs with a buffer.
  abbrev utf8 : K.Buffer → Producer K
  utf8 b = record (create_producer K) { buffer = b }

  module _ (topic : String) where
    -- What has reached a partition, or will.
    abbrev pending : ℕ → K.Buffer → K.Topics → List (K.Bytes × K.Bytes)
    pending p b t = K.log topic p t ++ K.buffered topic p b

    all_sent-given_up :
        (orders : List Order) (b : K.Buffer) (t t' : K.Topics) (end : Producer K)
        → for_each_order K (send K topic) orders (utf8 b) t ≡ some (end, t')
        → K.given_up end.buffer ≡ 0
        → K.given_up b ≡ 0
    unfolding for_each_order send
    all_sent-given_up [] b t t' end e none_lost =
        let it : ◌≡◌ {A = Producer K × K.Topics} (utf8 b, t) (end, t') = cc in
        ap (λ (r : Producer K × K.Topics). K.given_up r.0.buffer) it ∙ none_lost
    all_sent-given_up ((k, v) ∷ orders) b t t' end e none_lost =
        elim (Option-cases (K.send topic (K.encode k) (K.encode v) b t)) [
          | inl raised ↦ absurd (ground (arith, rw (raised, for_each_order, send) at e))
          | inr ((b', u), sent) ↦
              (K.send_lem topic (K.encode k) (K.encode v) b b' t u sent (
                all_sent-given_up orders b' u t' end (rw (sent, for_each_order, send) at e)
                  none_lost)).0
        ]

    all_sent-utf8 :
        (orders : List Order) (b : K.Buffer) (t t' : K.Topics) (end : Producer K)
        → for_each_order K (send K topic) orders (utf8 b) t ≡ some (end, t')
        → utf8 end.buffer ≡ end
    unfolding for_each_order send
    all_sent-utf8 [] b t t' end e =
        let it : ◌≡◌ {A = Producer K × K.Topics} (utf8 b, t) (end, t') = cc in
        subst (λ (x : Producer K). utf8 x.buffer ≡ x) (ap (λ (r : Producer K × K.Topics). r.0) it)
          refl
    all_sent-utf8 ((k, v) ∷ orders) b t t' end e =
        elim (Option-cases (K.send topic (K.encode k) (K.encode v) b t)) [
          | inl raised ↦ absurd (ground (arith, rw (raised, for_each_order, send) at e))
          | inr ((b', u), sent) ↦
              all_sent-utf8 orders b' u t' end (rw (sent, for_each_order, send) at e)
        ]

    -- The orders of each customer come after those that were there before, in the order in which
    -- they were sent, if the partition is the customer's.
    all_sent :
        (p : ℕ) (c : String) (orders : List Order) (b : K.Buffer) (t t' : K.Topics)
        (end : Producer K) (ys : List Order)
        → for_each_order K (send K topic) orders (utf8 b) t ≡ some (end, t')
        → K.given_up end.buffer ≡ 0
        → read_all K (pending p b t) ≡ some ys
        → (xs : List Order) × (read_all K (pending p end.buffer t') ≡ some xs)
          × (orders_of c xs
              ≡ orders_of c ys
                ++ (if K.partition_of (K.encode c) == p then orders_of c orders else []))
    unfolding for_each_order send orders_of
    all_sent p c [] b t t' end ys e none_lost read =
        let it : ◌≡◌ {A = Producer K × K.Topics} (utf8 b, t) (end, t') = cc in
        (
          ys,
          ap (λ (r : Producer K × K.Topics). read_all K (pending p r.0.buffer r.1)) (sym it) ∙ read,
          elim (Bool-cases (K.partition_of (K.encode c) == p)) [
            | inl here ↦ rw here (sym (append-nil (orders_of c ys)))
            | inr other ↦ rw other (sym (append-nil (orders_of c ys)))
          ],
        )
    all_sent p c ((k, v) ∷ orders) b t t' end ys e none_lost read =
        elim (Option-cases (K.send topic (K.encode k) (K.encode v) b t)) [
          | inl raised ↦ absurd (ground (arith, rw (raised, for_each_order, send) at e))
          | inr ((b', u), sent) ↦
              let later = rw (sent, for_each_order, send) at e in
              let (kept, grows) =
                K.send_lem topic (K.encode k) (K.encode v) b b' t u sent
                  (all_sent-given_up orders b' u t' end later none_lost) in
              let (zs, reads, is) =
                reads_more p k v (pending p b t) (pending p b' u) ys
                  (rw (eq_refl topic) at (grows topic p)) read in
              let (xs, got, same) = all_sent p c orders b' u t' end zs later none_lost reads in
              (xs, got, same ∙ one_more p c k v (orders_of c orders) ys zs is)
        ]

    -- After `flush` and `close` the topic has everything.
    flushed :
        (b : K.Buffer) (t t' : K.Topics) (end : Producer K) (p : ℕ)
        → flush_and_close K (utf8 b) t ≡ some (end, t')
        → K.given_up end.buffer ≡ 0
        → (K.given_up b ≡ 0) × (K.log topic p t' ≡ pending p b t)
    unfolding flush_and_close
    flushed b t t' end p e none_lost = elim (Option-cases (K.flush b t)) [
      | inl raised ↦ absurd (ground (arith, rw (raised, flush_and_close) at e))
      | inr ((b', u), went) ↦ elim (Option-cases (K.close b' u)) [
        | inl raised ↦ absurd (ground (arith, rw (went, raised, flush_and_close) at e))
        | inr ((b'', u'), shut) ↦
            let it : ◌≡◌ {A = Producer K × K.Topics} (utf8 b'', u') (end, t') =
              cc (rw (went, shut, flush_and_close) at e) in
            let none_lost' : K.given_up b'' ≡ 0 =
              ap (λ (r : Producer K × K.Topics). K.given_up r.0.buffer) it ∙ none_lost in
            let (kept, stays) = K.close_lem b' b'' u u' shut none_lost' in
            let (kept', all) = K.flush_lem b b' t u went kept in
            (
              kept',
              ap (λ (r : Producer K × K.Topics). K.log topic p r.1) (sym it)
                  ∙ stays topic p (all topic p).1
                  ∙ (all topic p).0,
            )
      ]
    ]

    -- What a producer that raises nothing and gives no record up leaves on its topic can be read
    -- from each partition, and there the orders of each customer come after those that were there
    -- before, in the order in which they were sent, if the partition is the customer's; in all
    -- other partitions there are none.
    pub customer_order :
        (p : ℕ) (c : String) (orders : List Order) (t t' : K.Topics) (end : Producer K)
        (ys : List Order)
        → produce_orders K topic orders t ≡ some (end, t')
        → K.given_up end.buffer ≡ 0
        → read_all K (K.log topic p t) ≡ some ys
        → (xs : List Order) × (read_all K (K.log topic p t') ≡ some xs)
          × (orders_of c xs
              ≡ orders_of c ys
                ++ (if K.partition_of (K.encode c) == p then orders_of c orders else []))
    unfolding produce_orders
    customer_order p c orders t t' end ys e none_lost read =
        elim (Option-cases (for_each_order K (send K topic) orders (create_producer K) t)) [
          | inl raised ↦ absurd (ground (arith, rw (raised, produce_orders, produce_with) at e))
          | inr ((producer, u), sent) ↦
              let ends : flush_and_close K (utf8 producer.buffer) u ≡ some (end, t') =
                ap (λ (x : Producer K). flush_and_close K x u)
                  (all_sent-utf8 orders K.connect t u producer sent)
                ∙ (rw (sent, produce_orders, produce_with) at e) in
              let (kept, whole) = flushed producer.buffer u t' end p ends none_lost in
              let start : pending p K.connect t ≡ K.log topic p t =
                rw (K.buffered-connect topic p) (append-nil (K.log topic p t)) in
              let (xs, got, same) =
                all_sent p c orders K.connect t u producer ys sent kept
                  (ap (read_all K) start ∙ read) in
              (xs, ap (read_all K) whole ∙ got, same)
        ]
