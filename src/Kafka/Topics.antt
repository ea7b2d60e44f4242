-- ===== src/Kafka/Topics.antt =====
-- `create_topic` of task-delegation/kafka-example/run_demo.py, over the topics of the cluster, a
-- parameter with the documented behaviour of `KafkaAdminClient.create_topics`.
use the_grind.Prelude.{ℕ, String, ◌≡◌, refl, inl, inr, Option, none, some, Option-cases}

pub record Cluster : Type 1 where
  pub Topics : Type 0
  pub partitions : String → Topics → Option ℕ  -- `none`: no such topic
  -- `none` is TopicAlreadyExistsError
  pub create_topics : String → ℕ → Topics → Option Topics
  pub create_topics-none :
      (name : String) (n m : ℕ) (t : Topics)
      → partitions name t ≡ some m
      → create_topics name n t ≡ none
  pub create_topics-some :
      (name : String) (n : ℕ) (t : Topics)
      → partitions name t ≡ none
      → (made : Topics) × (create_topics name n t ≡ some made) × (partitions name made ≡ some n)

-- The `try` with its `except`; the name is returned in both cases. Other exceptions are left out.
unfoldable create_topic : (K : Cluster) → String → ℕ → K.Topics → K.Topics × String
create_topic K name partitions t = elim (K.create_topics name partitions t) [
  | none ↦ (t, name)
  | some made ↦ (made, name)
]

create_topic_new :
    (K : Cluster) (name : String) (n : ℕ) (t made : K.Topics)
    → K.create_topics name n t ≡ some made
    → create_topic K name n t ≡ (made, name)
unfolding create_topic
create_topic_new K name n t made e = rw (e, create_topic) refl

create_topic_there :
    (K : Cluster) (name : String) (n m : ℕ) (t : K.Topics)
    → K.partitions name t ≡ some m
    → create_topic K name n t ≡ (t, name)
unfolding create_topic
create_topic_there K name n m t there =
    rw (K.create_topics-none name n m t there, create_topic) refl

-- After `create_topic` the topic is there, and a second call, with any number of partitions,
-- changes nothing.
create_topic_twice :
    (K : Cluster) (name : String) (n m : ℕ) (t : K.Topics)
    → ((p : ℕ) × (K.partitions name (create_topic K name n t).0 ≡ some p))
      × (create_topic K name m (create_topic K name n t).0 ≡ create_topic K name n t)
create_topic_twice K name n m t = elim (Option-cases (K.partitions name t)) [
  | inl new ↦
      let (made, e, there) = K.create_topics-some name n t new in
      rw (create_topic_new K name n t made e) ((n, there), create_topic_there K name m n made there)
  | inr (p, there) ↦
      rw (create_topic_there K name n p t there) ((p, there), create_topic_there K name m p t there)
]
