-- ===== src/Kafka/Tests.antt =====
-- The six orders of the demo, on a topic whose records are texts.
use the_grind.Prelude.{
  ℕ, String, ◌≡◌, refl, true, false, some, List, [], ◌∷◌, ◌++◌, map, inl, inr, arith,
}
use the_grind.Kafka.{Order, Producer, create_producer, produce_orders, read_all, demo_orders}
use the_grind.Kafka.Consumer.{
  Message, Pass, Line, line, lines_of, consume, run_consumer, run_consumer_lem, unstopped,
}
use the_grind.Kafka.Delivery.{items_of, Delivers}
use the_grind.Kafka.Samples.{texts, fresh, brokers, Records, with_record}
use the_grind.Kafka.Groups.{
  messages, lines_from, SingleGroup, neither, first, second, SingleGroup-consumes_once,
}
use the_grind.Kafka.Programs.{
  orders, consumer_main, producer_main, arrivals_of, order_service, pipeline_order,
}
use native.Mathlib.Decide.{ℕ_discrete}
use the_grind.Kafka.Orders.{orders_of}

-- The topics after a producer, and the producer then.
abbrev with_all : String → List Order → Records → Records
with_all topic [] r = r
with_all topic ((k, v) ∷ rest) r = with_all topic rest (with_record topic k v r)

abbrev topics_after : String → List Order → Records
topics_after topic l n p = fresh n p ++ with_all topic l fresh n p

abbrev done_producer : Producer texts
done_producer = create_producer texts

demo_sent :
    produce_orders texts "demo1-a" demo_orders fresh
    ≡ some (done_producer, topics_after "demo1-a" demo_orders)
unfolding produce_orders
demo_sent = refl

main_sent : producer_main texts fresh ≡ some (done_producer, topics_after "orders" orders)
unfolding producer_main
main_sent = refl

partition_two :
    read_all texts (topics_after "demo1-a" demo_orders "demo1-a" 1)
    ≡ some (("customer_2", "Mouse") ∷ ("customer_2", "Monitor") ∷ [])
unfolding read_all
partition_two = refl

abbrev message : ℕ → Message
message n = record { partition = 0; offset = n; key = "customer_1"; value = "Laptop" }

-- The event is set while the consumer handles the third message.
abbrev stopping : List Pass
stopping =
    record { is_set = false; messages = (message 0, false) ∷ (message 1, false) ∷ [] }
    ∷ record { is_set = false; messages = (message 2, true) ∷ (message 3, true) ∷ [] }
    ∷ record { is_set = true; messages = [] }
    ∷ []

stops_after_third :
    lines_of (run_consumer "consumer-A" "group-1" stopping [])
    ≡ map (line "consumer-A" "group-1") (message 0 ∷ message 1 ∷ message 2 ∷ [])
stops_after_third = run_consumer_lem "consumer-A" "group-1" stopping [] (
  inl refl,
  (inl refl, (inl refl, tt)),
  (inl refl, (inl refl, (inr refl, tt)), (inr refl, tt, tt)),
)

abbrev bought : ℕ → String → String → Message
bought p customer_id item = record { partition = p; offset = 0; key = customer_id; value = item }

-- consumer-A has partition 0 and consumer-B the others.
abbrev passes_a : List Pass
passes_a =
    record {
      is_set = false;
      messages =
          (bought 0 "customer_1" "Laptop", false)
          ∷ (bought 0 "customer_1" "Charger", false)
          ∷ (bought 0 "customer_3" "Keyboard", false)
          ∷ (bought 0 "customer_1" "USB Cable", false)
          ∷ [];
    }
    ∷ record { is_set = true; messages = [] }
    ∷ []

abbrev passes_b : List Pass
passes_b =
    record {
      is_set = false;
      messages =
          (bought 1 "customer_2" "Mouse", false) ∷ (bought 1 "customer_2" "Monitor", false) ∷ [];
    }
    ∷ record { is_set = true; messages = [] }
    ∷ []

abbrev shared_results : List Line
shared_results =
    lines_from "consumer-A" "group-1" passes_a ++ lines_from "consumer-B" "group-1" passes_b

demo_one :
    SingleGroup texts brokers "demo1-a"
      (topics_after "demo1-a" demo_orders)
      passes_a
      passes_b
      shared_results
unfolding read_all run_consumer consume
demo_one = record {
  to_a = λ p. elim (ℕ_discrete p 0) [
    | yes e ↦ rw e (inl (refl, refl))
    | no other ↦ inr (ground arith, ground arith)
  ];
  to_b = λ p. elim (ℕ_discrete p 0) [
    | yes e ↦ rw e (inr (refl, refl))
    | no other ↦
        inl (ground arith, elim (ℕ_discrete p 1) [ yes e ↦ rw e refl | no more ↦ ground arith ])
  ];
  shared = first (first (first (first (second (second neither)))));
}

SingleGroup-consumes_once_example :
    items_of "customer_1" (messages shared_results) ≡ "Laptop" ∷ "Charger" ∷ "USB Cable" ∷ []
unfolding orders_of
SingleGroup-consumes_once_example =
    SingleGroup-consumes_once texts brokers "demo1-a" fresh (topics_after "demo1-a" demo_orders)
      done_producer passes_a passes_b shared_results "customer_1" (λ p. refl) demo_sent refl
      (inl refl, (inl refl, (inl refl, (inl refl, (inl refl, tt)))), (inl refl, tt, tt))
      (inl refl, (inl refl, (inl refl, tt)), (inl refl, tt, tt)) demo_one

-- In the second demo both get both partitions, each in an order of its own.
abbrev passes_x : List Pass
passes_x =
    record {
      is_set = false;
      messages =
          (bought 0 "customer_1" "Laptop", false)
          ∷ (bought 1 "customer_2" "Mouse", false)
          ∷ (bought 0 "customer_1" "Charger", false)
          ∷ (bought 0 "customer_3" "Keyboard", false)
          ∷ (bought 0 "customer_1" "USB Cable", false)
          ∷ (bought 1 "customer_2" "Monitor", true)
          ∷ [];
    }
    ∷ record { is_set = true; messages = [] }
    ∷ []

producer-Delivers :
    Delivers texts brokers
      (order_service ∷ [])
      order_service
      0
      (topics_after "orders" orders)
      (unstopped passes_x)
unfolding read_all
producer-Delivers p = elim (ℕ_discrete p 0) [
  | yes e ↦ rw e (inl (refl, refl))
  | no other ↦
      inl (ground arith, elim (ℕ_discrete p 1) [ yes e ↦ rw e refl | no more ↦ ground arith ])
]

pipeline_order_example :
    orders_of "customer_1" (consumer_main (arrivals_of (unstopped passes_x)) []).printed
    ≡ "Laptop" ∷ "Charger" ∷ "USB Cable" ∷ []
unfolding orders_of
pipeline_order_example =
    pipeline_order texts brokers fresh (topics_after "orders" orders) done_producer
      (unstopped passes_x) "customer_1" (λ p. refl) main_sent refl producer-Delivers
