-- ===== src/Kafka/Groups.antt =====
-- The two demos of task-delegation/kafka-example/run_demo.py: two consumers of one group that
-- share a list of results, and two groups with a consumer each.
use the_grind.Prelude.{
  ℕ, String, ◌≡◌, ◌≢◌, refl, ap, ◌∙◌, Bool, true, false, not, some, List, [], ◌∷◌, if◌then◌else◌,
  arith, map, eq_iff,
}
use the_grind.Kafka.{Client, Producer, produce_orders, demo_orders}
use the_grind.Kafka.Orders.{orders_of}
use the_grind.Kafka.Members.{
  Settings, demo_consumer, Brokers, has_partition, split, all_for_first, all_for_second,
}
use the_grind.Kafka.Consumer.{
  Message, Line, Pass, line, lines_of, run_consumer, run_consumer_lem, unstopped, StaysSet,
}
use the_grind.Kafka.Delivery.{items_of, Delivers, delivered_items, if_true}

-- Two threads that append to one list.
pub data Interleaves {ℓ} {A : Type ℓ} : List A → List A → List A → Type ℓ where
  neither : Interleaves [] [] []
  first : {x : A} {xs ys zs : List A} → Interleaves xs ys zs → Interleaves (x ∷ xs) ys (x ∷ zs)
  second : {y : A} {xs ys zs : List A} → Interleaves xs ys zs → Interleaves xs (y ∷ ys) (y ∷ zs)

-- The lines that a consumer appends to its list of results.
abbrev pub lines_from : String → String → List Pass → List Line
lines_from name group_id passes = lines_of (run_consumer name group_id passes [])

abbrev pub messages : List Line → List Message
messages = map (λ l. l.message)

abbrev both : String → List Settings
both topic = demo_consumer topic "group-1" ∷ demo_consumer topic "group-1" ∷ []

-- `demo_single_group`, from the topics `t` after `produce_orders`: both consumers have the same
-- settings, and `results` is the list that both append to.
pub record SingleGroup (K : Client) (B : Brokers) (topic : String) (t : K.Topics) (a b : List Pass)
    (results : List Line) : Type 0 where
  pub to_a : Delivers K B (both topic) (demo_consumer topic "group-1") 0 t (unstopped a)
  pub to_b : Delivers K B (both topic) (demo_consumer topic "group-1") 1 t (unstopped b)
  pub shared :
      Interleaves
        (lines_from "consumer-A" "group-1" a)
        (lines_from "consumer-B" "group-1" b)
        results

messages-lines :
    (name group_id : String) (ms : List Message) → messages (map (line name group_id) ms) ≡ ms
messages-lines name group_id [] = refl
messages-lines name group_id (m ∷ ms) = ap (◌∷◌ m) (messages-lines name group_id ms)

-- A consumer's lines tell the messages that it got.
messages-lines_from :
    (name group_id : String) (ps : List Pass)
    → StaysSet false ps
    → messages (lines_from name group_id ps) ≡ unstopped ps
messages-lines_from name group_id ps h =
    ap messages (run_consumer_lem name group_id ps [] h)
    ∙ messages-lines name group_id (unstopped ps)

module _ (c : String) where
  Interleaves-left :
      {xs ys zs : List Line}
      → Interleaves xs ys zs
      → items_of c (messages ys) ≡ []
      → items_of c (messages zs) ≡ items_of c (messages xs)
  unfolding orders_of
  Interleaves-left neither e = refl
  Interleaves-left (first {x} r) e = ground (arith, Interleaves-left r e)
  Interleaves-left (second {y} r) e = ground (arith, Interleaves-left r)

  Interleaves-right :
      {xs ys zs : List Line}
      → Interleaves xs ys zs
      → items_of c (messages xs) ≡ []
      → items_of c (messages zs) ≡ items_of c (messages ys)
  unfolding orders_of
  Interleaves-right neither e = refl
  Interleaves-right (first {x} r) e = ground (arith, Interleaves-right r)
  Interleaves-right (second {y} r) e = ground (arith, Interleaves-right r e)

-- In the first demo, with a new topic, a producer that raises nothing and no record given up by
-- its client, the shared list holds the orders of each customer exactly once and in the order in
-- which they were sent, however the partitions are split between the two consumers of the group
-- and however their threads interleave, if both get all of their partitions before they stop.
pub SingleGroup-consumes_once :
    (K : Client) (B : Brokers) (topic : String) (fresh t : K.Topics) (producer : Producer K)
    (a b : List Pass) (results : List Line) (c : String)
    → ((p : ℕ) → K.log topic p fresh ≡ [])
    → produce_orders K topic demo_orders fresh ≡ some (producer, t)
    → K.given_up producer.buffer ≡ 0
    → StaysSet false a
    → StaysSet false b
    → SingleGroup K B topic t a b results
    → items_of c (messages results) ≡ orders_of c demo_orders
SingleGroup-consumes_once K B topic fresh t producer a b results c empty sent none_lost set_a set_b
      demo =
    by_home (mine home) refl
  where
    home : ℕ
    home = K.partition_of (K.encode c)

    member : Settings
    member = demo_consumer topic "group-1"

    mine : ℕ → Bool
    mine p = has_partition B (both topic) member 0 p

    of_a :
        items_of c (messages (lines_from "consumer-A" "group-1" a))
        ≡ (if mine home then orders_of c demo_orders else [])
    of_a =
        ap (items_of c) (messages-lines_from "consumer-A" "group-1" a set_a)
        ∙ delivered_items K B (both topic) member 0 demo_orders fresh t producer (unstopped a) c
            refl empty sent none_lost demo.to_a

    of_b :
        items_of c (messages (lines_from "consumer-B" "group-1" b))
        ≡ (if not (mine home) then orders_of c demo_orders else [])
    of_b =
        ap (items_of c) (messages-lines_from "consumer-B" "group-1" b set_b)
        ∙ delivered_items K B (both topic) member 1 demo_orders fresh t producer (unstopped b) c
            refl empty sent none_lost demo.to_b
        ∙ ap (λ (h : Bool). if h then orders_of c demo_orders else []) (split B member home)

    by_home : (h : Bool) → mine home ≡ h → items_of c (messages results) ≡ orders_of c demo_orders
    by_home true e = Interleaves-left c demo.shared (rw e at of_b) ∙ (rw e at of_a)
    by_home false e = Interleaves-right c demo.shared (rw e at of_a) ∙ (rw e at of_b)

-- The consumers of the second demo, each in a group of its own.
abbrev one_each : String → List Settings
one_each topic = demo_consumer topic "analytics" ∷ demo_consumer topic "email-service" ∷ []

-- `demo_multiple_groups`, where each consumer has a list of its own.
pub record MultipleGroups (K : Client) (B : Brokers) (topic : String) (t : K.Topics)
    (x y : List Pass) : Type 0 where
  pub to_x : Delivers K B (one_each topic) (demo_consumer topic "analytics") 0 t (unstopped x)
  pub to_y : Delivers K B (one_each topic) (demo_consumer topic "email-service") 1 t (unstopped y)

-- In the second demo, with a new topic, a producer that raises nothing and no record given up by
-- its client, each of the two lists holds all orders of each customer in the order in which they
-- were sent, if both consumers get all of their partitions before they stop.
each_group_consumes_all :
    (K : Client) (B : Brokers) (topic : String) (fresh t : K.Topics) (producer : Producer K)
    (x y : List Pass) (c : String)
    → ((p : ℕ) → K.log topic p fresh ≡ [])
    → produce_orders K topic demo_orders fresh ≡ some (producer, t)
    → K.given_up producer.buffer ≡ 0
    → StaysSet false x
    → StaysSet false y
    → MultipleGroups K B topic t x y
    → (items_of c (messages (lines_from "consumer-X" "analytics" x)) ≡ orders_of c demo_orders)
      × (items_of c (messages (lines_from "consumer-Y" "email-service" y))
          ≡ orders_of c demo_orders)
each_group_consumes_all K B topic fresh t producer x y c empty sent none_lost set_x set_y demo = (
  ap (items_of c) (messages-lines_from "consumer-X" "analytics" x set_x)
      ∙ delivered_items K B (one_each topic) analytics 0 demo_orders fresh t producer (unstopped x)
          c refl empty sent none_lost demo.to_x
      ∙ if_true _ _ (all_for_first B analytics email_service home apart),
  ap (items_of c) (messages-lines_from "consumer-Y" "email-service" y set_y)
      ∙ delivered_items K B (one_each topic) email_service 1 demo_orders fresh t producer
          (unstopped y) c refl empty sent none_lost demo.to_y
      ∙ if_true _ _ (all_for_second B analytics email_service home apart),
)
  where
    home : ℕ
    home = K.partition_of (K.encode c)

    analytics : Settings
    analytics = demo_consumer topic "analytics"

    email_service : Settings
    email_service = demo_consumer topic "email-service"

    apart : analytics.group_id ≢ email_service.group_id
    apart e = ground (arith, eq_iff analytics.group_id email_service.group_id, e)
