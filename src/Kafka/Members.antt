-- ===== src/Kafka/Members.antt =====
-- The consumers of task-delegation/kafka-example by their settings, and which partitions of a
-- topic each of them has: the brokers assign them, and are a parameter with their documented
-- behaviour.
use the_grind.Prelude.{
  ℕ, zero, suc, String, ◌≡◌, ◌≢◌, refl, ◌⊎◌, inl, inr, Bool, true, false, not, ◌&&◌, Option, none,
  some, List, [], ◌∷◌, ◌==◌, str_eq, eq_refl, eq_iff, get_elem?, arith,
}

-- Where a group without a committed offset starts.
pub data Reset : Type 0 where
  earliest : Reset
  latest : Reset

-- What `KafkaConsumer` gets, but for the brokers' address, the timeout and the deserializers.
pub record Settings : Type 0 where
  pub topic : String
  pub group_id : String
  pub auto_offset_reset : Reset

-- `create_consumer` of kafka_consumer.py
abbrev pub create_consumer : String → Settings
create_consumer group_id = record {
  topic = "orders";
  group_id = group_id;
  auto_offset_reset = earliest;
}

-- The consumer of `run_consumer`
abbrev pub demo_consumer : String → String → Settings
demo_consumer topic group_id = record {
  topic = topic;
  group_id = group_id;
  auto_offset_reset = earliest;
}

-- Consumer `i` of a list subscribes to the topic as a member of the group.
abbrev pub matches : String → String → Option Settings → Bool
matches topic group_id none = false
matches topic group_id (some s) = str_eq s.topic topic && str_eq s.group_id group_id

abbrev pub is_member : List Settings → String → String → ℕ → Bool
is_member consumers topic group_id i = matches topic group_id (get_elem? consumers i)

pub record Brokers : Type 0 where
  -- the consumer that has a partition of a topic in a group
  pub owner : List Settings → String → String → ℕ → ℕ
  -- "each partition to exactly one consumer in the group"
  pub owner-is_member :
      (consumers : List Settings) (topic group_id : String) (p i : ℕ)
      → is_member consumers topic group_id i ≡ true
      → is_member consumers topic group_id (owner consumers topic group_id p) ≡ true
  -- the offset where a group without a committed one starts, in a partition with so many records
  pub first_offset : Reset → ℕ → ℕ
  -- "earliest" = start from the beginning (offset 0)
  pub first_offset-earliest : (records : ℕ) → first_offset earliest records ≡ 0

module _ (B : Brokers) where
  -- Whether consumer `i`, with the settings `s`, has a partition of its topic.
  abbrev pub has_partition : List Settings → Settings → ℕ → ℕ → Bool
  has_partition consumers s i p = B.owner consumers s.topic s.group_id p == i

  pub alone : (s : Settings) (p : ℕ) → has_partition (s ∷ []) s 0 p ≡ true
  alone s p = only (B.owner (s ∷ []) s.topic s.group_id p) (
      B.owner-is_member (s ∷ []) s.topic s.group_id p 0
        (ground (arith, eq_refl s.topic, eq_refl s.group_id)))
    where
      only : (i : ℕ) → is_member (s ∷ []) s.topic s.group_id i ≡ true → (i == 0) ≡ true
      only zero m = refl
      only (suc i) m = absurd (ground arith)

  one_of_two :
      (s s' : Settings) (topic group_id : String) (i : ℕ)
      → is_member (s ∷ s' ∷ []) topic group_id i ≡ true
      → (i ≡ 0) ⊎ (i ≡ 1)
  one_of_two s s' topic group_id zero m = inl refl
  one_of_two s s' topic group_id (suc zero) m = inr refl
  one_of_two s s' topic group_id (suc (suc i)) m = absurd (ground arith)

  -- Two members of one group split the partitions.
  pub split :
      (s : Settings) (p : ℕ)
      → has_partition (s ∷ s ∷ []) s 1 p ≡ not (has_partition (s ∷ s ∷ []) s 0 p)
  split s p =
      elim (one_of_two s s s.topic s.group_id (B.owner both s.topic s.group_id p) (
        B.owner-is_member both s.topic s.group_id p 0
          (ground (arith, eq_refl s.topic, eq_refl s.group_id)))) [
            | inl e ↦ rw e refl
            | inr e ↦ rw e refl
          ]
    where
      both : List Settings
      both = s ∷ s ∷ []

  module _ (s s' : Settings) (p : ℕ) (other : s.group_id ≢ s'.group_id) where
    -- Two members of different groups have all of them.
    pub all_for_first : has_partition (s ∷ s' ∷ []) s 0 p ≡ true
    all_for_first =
        let m =
          B.owner-is_member (s ∷ s' ∷ []) s.topic s.group_id p 0
            (ground (arith, eq_refl s.topic, eq_refl s.group_id)) in
        elim (one_of_two s s' s.topic s.group_id (B.owner (s ∷ s' ∷ []) s.topic s.group_id p) m) [
          | inl e ↦ rw e refl
          | inr e ↦ absurd (ground (arith, rw e at m, eq_iff s'.group_id s.group_id, other))
        ]

    pub all_for_second : has_partition (s ∷ s' ∷ []) s' 1 p ≡ true
    all_for_second =
        let m =
          B.owner-is_member (s ∷ s' ∷ []) s'.topic s'.group_id p 1
            (ground (arith, eq_refl s'.topic, eq_refl s'.group_id)) in
        elim (one_of_two s s' s'.topic s'.group_id (B.owner (s ∷ s' ∷ []) s'.topic s'.group_id p)
          m) [
            | inl e ↦ absurd (ground (arith, rw e at m, eq_iff s.group_id s'.group_id, other))
            | inr e ↦ rw e refl
          ]
