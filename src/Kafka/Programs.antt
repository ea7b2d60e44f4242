-- ===== src/Kafka/Programs.antt =====
-- The programs of task-delegation/kafka-example/kafka_producer.py and kafka_consumer.py, whose
-- main parts run on the topic "orders".
use the_grind.Prelude.{
  ℕ, String, ◌≡◌, refl, sym, ◌∙◌, Option, some, List, [], ◌∷◌, ◌++◌, append-nil, append_assoc, map,
  ap,
}
use the_grind.Kafka.{Client, Order, Producer, produce_orders, send_orders}
use the_grind.Kafka.Orders.{orders_of}
use the_grind.Kafka.Members.{Settings, create_consumer, Brokers, alone}
use the_grind.Kafka.Consumer.{Message}
use the_grind.Kafka.Delivery.{order_of, Delivers, delivered_items, if_true}

abbrev pub orders : List Order
orders =
    ("customer_1", "Laptop")
    ∷ ("customer_2", "Mouse")
    ∷ ("customer_1", "Charger")
    ∷ ("customer_3", "Keyboard")
    ∷ ("customer_2", "Monitor")
    ∷ ("customer_1", "USB Cable")
    ∷ []

-- The main part of kafka_producer.py.
unfoldable pub producer_main : (K : Client) → K.Topics → Option (Producer K × K.Topics)
unfolding send_orders
producer_main K t = send_orders K orders t

-- Both producers make the same calls on the topic "orders".
same_calls :
    (K : Client) (l : List Order) (t : K.Topics) → produce_orders K "orders" l t ≡ send_orders K l t
unfolding produce_orders send_orders
same_calls K l t = refl

-- What comes of `next` on the consumer: a message, or the KeyboardInterrupt or another exception,
-- such as that of a deserializer, that ends the loop.
pub data Arrival : Type 0 where
  message : Order → Arrival
  interrupt : Arrival
  failure : Arrival

pub data Ending : Type 0 where
  still_waiting : Ending
  shut_down : Ending  -- "Shutting down..."
  raised : Ending

pub record Consumer : Type 0 where
  pub printed : List Order
  pub closed : ℕ  -- the calls of `consumer.close()`
  pub ending : Ending

-- The `try` with its loop, `except` and `finally`.
pub consumer_main : List Arrival → List Order → Consumer
consumer_main [] printed = record { printed = printed; closed = 0; ending = still_waiting }
consumer_main (message m ∷ rest) printed = consumer_main rest (printed ++ m ∷ [])
consumer_main (interrupt ∷ rest) printed = record {
  printed = printed;
  closed = 1;
  ending = shut_down;
}
consumer_main (failure ∷ rest) printed = record { printed = printed; closed = 1; ending = raised }

-- The messages before the loop ends, and how it ends.
abbrev before_end : List Arrival → List Order
before_end [] = []
before_end (message m ∷ rest) = m ∷ before_end rest
before_end (interrupt ∷ rest) = []
before_end (failure ∷ rest) = []

abbrev first_end : List Arrival → Ending
first_end [] = still_waiting
first_end (message m ∷ rest) = first_end rest
first_end (interrupt ∷ rest) = shut_down
first_end (failure ∷ rest) = raised

abbrev closings : Ending → ℕ
closings still_waiting = 0
closings shut_down = 1
closings raised = 1

-- The consumer prints exactly the messages that come before the loop's end, in order, and is
-- closed exactly once however the loop ends; only a KeyboardInterrupt is swallowed.
consumer_main_lem :
    (arrivals : List Arrival) (printed : List Order)
    → let end = consumer_main arrivals printed in
      (end.printed ≡ printed ++ before_end arrivals)
      × (end.ending ≡ first_end arrivals)
      × (end.closed ≡ closings (first_end arrivals))
unfolding consumer_main
consumer_main_lem [] printed = (sym (append-nil printed), refl, refl)
consumer_main_lem (message m ∷ rest) printed =
    let (all, end, once) = consumer_main_lem rest (printed ++ m ∷ []) in
    (all ∙ append_assoc printed (m ∷ []) (before_end rest), end, once)
consumer_main_lem (interrupt ∷ rest) printed = (sym (append-nil printed), refl, refl)
consumer_main_lem (failure ∷ rest) printed = (sym (append-nil printed), refl, refl)

pub arrivals_of : List Message → List Arrival
arrivals_of [] = interrupt ∷ []
arrivals_of (m ∷ ms) = message (order_of m) ∷ arrivals_of ms

before_end-arrivals_of : (ms : List Message) → before_end (arrivals_of ms) ≡ map order_of ms
unfolding arrivals_of
before_end-arrivals_of [] = refl
before_end-arrivals_of (m ∷ ms) = ap (◌∷◌ (order_of m)) (before_end-arrivals_of ms)

-- The consumer of kafka_consumer.py, with its default group.
abbrev pub order_service : Settings
order_service = create_consumer "order-service"

-- The two programs together, on a new topic, with a producer that raises nothing and no record
-- given up by its client: a consumer that is alone in its group, gets everything that is on the
-- topic then and is interrupted has printed the orders of each customer exactly once, in the order
-- of the producer's list.
pub pipeline_order :
    (K : Client) (B : Brokers) (fresh t : K.Topics) (producer : Producer K) (ms : List Message)
    (c : String)
    → ((p : ℕ) → K.log "orders" p fresh ≡ [])
    → producer_main K fresh ≡ some (producer, t)
    → K.given_up producer.buffer ≡ 0
    → Delivers K B (order_service ∷ []) order_service 0 t ms
    → orders_of c (consumer_main (arrivals_of ms) []).printed ≡ orders_of c orders
pipeline_order K B fresh t producer ms c empty sent none_lost delivers =
    ap (orders_of c) ((consumer_main_lem (arrivals_of ms) []).0 ∙ before_end-arrivals_of ms)
    ∙ delivered_items K B (order_service ∷ []) order_service 0 orders fresh t producer ms c refl
        empty (same_calls K orders fresh ∙ unfold producer_main in sent) none_lost delivers
    ∙ if_true _ _ (alone B order_service (K.partition_of (K.encode c)))
