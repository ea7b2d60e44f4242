-- ===== src/Kafka.antt =====
-- task-delegation/kafka-example: the orders that `produce_orders` sends, and the loop of
-- `run_consumer`. The client library is a parameter, with its documented behaviour as fields.
pub mod Orders
pub mod Consumer
pub mod Members
pub mod Delivery
pub mod Groups
pub mod Programs
mod Topics
mod Samples
mod Tests
use the_grind.Prelude.{
  ℕ, String, ◌≡◌, Bool, true, false, Option, none, some, List, [], ◌∷◌, ◌++◌, ◌==◌, ◌&&◌, str_eq,
  if◌then◌else◌,
}
use mathlib.Core.Option

-- The client library and the topics behind it. Its bytes are `str.encode("utf-8")`, and `decode` is
-- the inverse. `send` puts a record into the producer's buffer, for the partition that its key has,
-- and some of what is in the buffer may reach the topic meanwhile; `flush` waits until nothing is
-- left in it; `close` sends nothing that anybody waits for. A record that the client gives up is
-- counted, and raises nothing. `none`: the call raises.
pub record Client : Type 1 where
  pub Bytes : Type 0
  pub Topics : Type 0
  pub Buffer : Type 0
  pub encode : String → Bytes
  pub decode : Bytes → Option String
  pub decode-encode : (x : String) → decode (encode x) ≡ some x
  pub partition_of : Bytes → ℕ
  pub log : String → ℕ → Topics → List (Bytes × Bytes)  -- of a topic's partition
  pub buffered : String → ℕ → Buffer → List (Bytes × Bytes)
  pub given_up : Buffer → ℕ
  pub connect : Buffer
  pub send : String → Bytes → Bytes → Buffer → Topics → Option (Buffer × Topics)
  pub flush : Buffer → Topics → Option (Buffer × Topics)
  pub close : Buffer → Topics → Option (Buffer × Topics)
  pub buffered-connect : (n : String) (p : ℕ) → buffered n p connect ≡ []
  -- a record comes after those of its partition that were sent before it
  pub send_lem :
      (topic : String) (k v : Bytes) (b b' : Buffer) (t t' : Topics)
      → send topic k v b t ≡ some (b', t')
      → given_up b' ≡ 0
      → (given_up b ≡ 0)
        × ((n : String) (p : ℕ)
            → log n p t' ++ buffered n p b'
              ≡ (log n p t ++ buffered n p b)
                ++ (if str_eq topic n && (partition_of k == p) then (k, v) ∷ [] else []))
  pub flush_lem :
      (b b' : Buffer) (t t' : Topics)
      → flush b t ≡ some (b', t')
      → given_up b' ≡ 0
      → (given_up b ≡ 0)
        × ((n : String) (p : ℕ)
            → (log n p t' ≡ log n p t ++ buffered n p b) × (buffered n p b' ≡ []))
  -- what is still in the buffer may be lost
  pub close_lem :
      (b b' : Buffer) (t t' : Topics)
      → close b t ≡ some (b', t')
      → given_up b' ≡ 0
      → (given_up b ≡ 0) × ((n : String) (p : ℕ) → buffered n p b ≡ [] → log n p t' ≡ log n p t)

-- A customer and an item.
abbrev pub Order : Type 0
Order = String × String

-- A `KafkaProducer`: its serializers and its buffer.
pub record Producer (K : Client) : Type 0 where
  pub key_serializer : String → K.Bytes
  pub value_serializer : String → K.Bytes
  pub buffer : K.Buffer

module _ (K : Client) where
  -- `lambda x: x.encode("utf-8")` for both, also in `produce_orders`
  abbrev pub create_producer : Producer K
  create_producer = record {
    key_serializer = K.encode;
    value_serializer = K.encode;
    buffer = K.connect;
  }

  -- The producer with the buffer that a call leaves.
  abbrev with_buffer : Producer K → Option (K.Buffer × K.Topics) → Option (Producer K × K.Topics)
  with_buffer producer o = Option.map (λ r. (record producer { buffer = r.0 }, r.1)) o

  -- `producer.send(topic, key=customer_id, value=item)`
  pub send : String → String → String → Producer K → K.Topics → Option (Producer K × K.Topics)
  send topic customer_id item producer t = with_buffer producer (
      K.send topic (producer.key_serializer customer_id) (producer.value_serializer item)
        producer.buffer t)

  -- `for customer_id, item in orders`, with its body
  pub for_each_order :
      (String → String → Producer K → K.Topics → Option (Producer K × K.Topics))
      → List Order
      → Producer K
      → K.Topics
      → Option (Producer K × K.Topics)
  for_each_order body [] producer t = some (producer, t)
  for_each_order body ((customer_id, item) ∷ orders) producer t =
      elim (body customer_id item producer t) [
        | none ↦ none
        | some (next, t') ↦ for_each_order body orders next t'
      ]

  -- `producer.flush(); producer.close()`
  pub flush_and_close : Producer K → K.Topics → Option (Producer K × K.Topics)
  flush_and_close producer t = elim (with_buffer producer (K.flush producer.buffer t)) [
    | none ↦ none
    | some (flushed, t') ↦ with_buffer flushed (K.close flushed.buffer t')
  ]

  -- A producer from its creation to its end.
  abbrev pub produce_with :
      (String → String → Producer K → K.Topics → Option (Producer K × K.Topics))
      → List Order
      → K.Topics
      → Option (Producer K × K.Topics)
  produce_with body orders t = elim (for_each_order body orders create_producer t) [
    | none ↦ none
    | some (producer, t') ↦ flush_and_close producer t'
  ]

  -- `produce_orders(topic)`, for any orders
  pub produce_orders : String → List Order → K.Topics → Option (Producer K × K.Topics)
  unfolding send for_each_order flush_and_close
  produce_orders topic orders t = produce_with (send topic) orders t

  -- `send_order` of kafka_producer.py
  abbrev send_order : String → String → Producer K → K.Topics → Option (Producer K × K.Topics)
  send_order customer_id description producer t = send "orders" customer_id description producer t

  -- The main part of kafka_producer.py, for any orders.
  pub send_orders : List Order → K.Topics → Option (Producer K × K.Topics)
  unfolding send for_each_order flush_and_close
  send_orders orders t = produce_with send_order orders t

  abbrev deserialize_value : String → Option String → Option Order
  deserialize_value key none = none
  deserialize_value key (some value) = some (key, value)

  -- The deserializers of the consumers; `none` is UnicodeDecodeError
  abbrev pub deserialize : Option String → Option String → Option Order
  deserialize none value = none
  deserialize (some key) value = deserialize_value key value

  -- What a consumer of a partition reads from its start.
  pub read_all : List (K.Bytes × K.Bytes) → Option (List Order)
  read_all [] = some []
  read_all ((k, v) ∷ rest) = elim (deserialize (K.decode k) (K.decode v)) [
    | none ↦ none
    | some order ↦ Option.map (◌∷◌ order) (read_all rest)
  ]

abbrev pub demo_orders : List Order
demo_orders =
    ("customer_1", "Laptop")
    ∷ ("customer_2", "Mouse")
    ∷ ("customer_1", "Charger")
    ∷ ("customer_3", "Keyboard")
    ∷ ("customer_2", "Monitor")
    ∷ ("customer_1", "USB Cable")
    ∷ []
