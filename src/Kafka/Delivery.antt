-- ===== src/Kafka/Delivery.antt =====
-- What a consumer of task-delegation/kafka-example gets of the orders on a topic.
use the_grind.Prelude.{
  ℕ, String, ◌≡◌, ◌≢◌, refl, ap, sym, ◌∙◌, ◌⊎◌, inl, inr, Bool, true, false, some, List, [], ◌∷◌,
  ◌==◌, if◌then◌else◌, arith, map, drop, length,
}
use the_grind.Kafka.{Client, Order, Producer, produce_orders, read_all}
use the_grind.Kafka.Orders.{orders_of, customer_order}
use the_grind.Kafka.Members.{Reset, earliest, Settings, Brokers, has_partition}
use the_grind.Kafka.Consumer.{Message}

abbrev pub order_of : Message → Order
order_of m = (m.key, m.value)

abbrev pub items_of : String → List Message → List String
items_of c ms = orders_of c (map order_of ms)

abbrev on_partition : ℕ → List Message → List Message
on_partition p [] = []
on_partition p (m ∷ ms) =
    let rest = on_partition p ms in if m.partition == p then m ∷ rest else rest

module _ (K : Client) (B : Brokers) where
  -- The records of a partition from the offset on where a group starts that has committed none.
  abbrev records_for : Settings → ℕ → K.Topics → List (K.Bytes × K.Bytes)
  records_for s p t =
      drop (B.first_offset s.auto_offset_reset (length (K.log s.topic p t))) (K.log s.topic p t)

  -- What consumer `i` of a list, with the settings `s`, gets of a topic until it stops: of each
  -- partition that it has everything from its group's first offset on, in order, and nothing of
  -- the others.
  abbrev pub Delivers : List Settings → Settings → ℕ → K.Topics → List Message → Type 0
  Delivers consumers s i t ms =
      (p : ℕ)
      → ((has_partition B consumers s i p ≡ true)
          × (read_all K (records_for s p t) ≡ some (map order_of (on_partition p ms))))
        ⊎ ((has_partition B consumers s i p ≡ false) × (on_partition p ms ≡ []))

-- A customer whose orders are all on one partition.
items_on_one :
    (c : String) (home : ℕ) (ms : List Message)
    → ((p : ℕ) → p ≢ home → items_of c (on_partition p ms) ≡ [])
    → items_of c ms ≡ items_of c (on_partition home ms)
unfolding orders_of
items_on_one c home [] h = refl
items_on_one c home (m ∷ ms) h =
    ground (arith, items_on_one c home ms (λ p other. tail p other), h m.partition)
  where
    tail : (p : ℕ) → p ≢ home → items_of c (on_partition p ms) ≡ []
    tail p other = ground (arith, h p other)

pub if_true {ℓ} : {A : Type ℓ} {h : Bool} (x y : A) → h ≡ true → (if h then x else y) ≡ x
if_true x y e = rw e refl

-- What a consumer gets of a customer's orders: all of them in order if it has the customer's
-- partition, and none otherwise.
pub delivered_items :
    (K : Client) (B : Brokers) (consumers : List Settings) (s : Settings) (i : ℕ)
    (orders : List Order) (fresh t : K.Topics) (producer : Producer K) (ms : List Message)
    (c : String)
    → s.auto_offset_reset ≡ earliest
    → ((p : ℕ) → K.log s.topic p fresh ≡ [])
    → produce_orders K s.topic orders fresh ≡ some (producer, t)
    → K.given_up producer.buffer ≡ 0
    → Delivers K B consumers s i t ms
    → items_of c ms ≡ (
        if has_partition B consumers s i (K.partition_of (K.encode c))
        then orders_of c orders
        else [])
unfolding orders_of read_all
delivered_items K B consumers s i orders fresh t producer ms c start empty sent none_lost delivers =
    items_on_one c home ms (λ p other. ground (arith, on_one p, other))
    ∙ ground (arith, on_one home)
  where
    home : ℕ
    home = K.partition_of (K.encode c)

    from_the_start : (p : ℕ) → records_for K B s p t ≡ K.log s.topic p t
    from_the_start p =
        ap (λ (n : ℕ). drop n (K.log s.topic p t))
          (ap (λ (r : Reset). B.first_offset r (length (K.log s.topic p t))) start
            ∙ B.first_offset-earliest (length (K.log s.topic p t)))

    on_one :
        (p : ℕ)
        → items_of c (on_partition p ms) ≡ (
            if has_partition B consumers s i p
            then (if home == p then orders_of c orders else [])
            else [])
    on_one p = elim (delivers p) [
      | inl (yes_mine, read) ↦
          let (xs, found, same) =
            customer_order K s.topic p c orders fresh t producer [] sent none_lost
              (rw (empty p, read_all) refl) in
          let whole = ap (read_all K) (from_the_start p) in
          let it : xs ≡ map order_of (on_partition p ms) = cc (found, read, whole) in
          rw (yes_mine, sym it) same
      | inr (not_mine, nothing) ↦ rw (not_mine, nothing) refl
    ]
