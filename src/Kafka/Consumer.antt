-- ===== src/Kafka/Consumer.antt =====
-- The loop of `run_consumer` of run_demo.py. The readings of `stop_event.is_set()` and the
-- messages of each iteration over the consumer, until its timeout, are the input.
use the_grind.Prelude.{
  ℕ, String, ◌≡◌, ◌⊎◌, refl, ap, sym, ◌∙◌, Bool, true, false, List, [], ◌∷◌, ◌++◌, if◌then◌else◌,
  arith, map, map-append, inl, inr, Bool-cases, append-nil, append_assoc,
}

pub record Message : Type 0 where
  pub partition : ℕ
  pub offset : ℕ
  pub key : String
  pub value : String

-- The text that is printed and stored, by its parts.
pub record Line : Type 0 where
  pub name : String
  pub group_id : String
  pub message : Message

-- One pass of the outer loop: the reading of its test, and each message of the inner loop with the
-- reading that follows it.
pub record Pass : Type 0 where
  pub is_set : Bool
  pub messages : List (Message × Bool)

pub data Consuming : Type 0 where
  polling : List Line → Consuming  -- it goes on after the given passes
  closed : List Line → Consuming  -- `consumer.close()`

module _ (name group_id : String) where
  abbrev pub line : Message → Line
  line message = record { name = name; group_id = group_id; message = message }

  -- `for message in consumer`
  unfoldable pub consume : List (Message × Bool) → List Line → List Line
  consume [] results = results
  consume ((message, is_set) ∷ rest) results =
      let more = consume rest (results ++ line message ∷ []) in
      if is_set then results ++ line message ∷ [] else more

  unfoldable pub run_consumer : List Pass → List Line → Consuming
  unfolding consume
  run_consumer [] results = polling results
  run_consumer (p ∷ ps) results =
      let go_on = run_consumer ps (consume p.messages results) in
      if p.is_set then closed results else go_on

-- The messages before which the last reading was false, where `is_set` is the reading before the
-- first.
abbrev unstopped_in : Bool → List (Message × Bool) → List Message
unstopped_in is_set [] = []
unstopped_in is_set ((message, next) ∷ rest) =
    let later = unstopped_in next rest in if is_set then later else message ∷ later

abbrev pub unstopped : List Pass → List Message
unstopped [] = []
unstopped (p ∷ ps) = unstopped_in p.is_set p.messages ++ unstopped ps

-- The reading after some messages.
abbrev reading_after : Bool → List (Message × Bool) → Bool
reading_after is_set [] = is_set
reading_after is_set ((message, next) ∷ rest) = reading_after next rest

-- An event that is set stays set: `before` is the last reading.
abbrev StaysSetIn : Bool → List (Message × Bool) → Type 0
StaysSetIn before [] = Unit
StaysSetIn before ((message, next) ∷ rest) =
    ((before ≡ false) ⊎ (next ≡ true)) × StaysSetIn next rest

abbrev pub StaysSet : Bool → List Pass → Type 0
StaysSet before [] = Unit
StaysSet before (p ∷ ps) =
    ((before ≡ false) ⊎ (p.is_set ≡ true))
    × StaysSetIn p.is_set p.messages
    × StaysSet (reading_after p.is_set p.messages) ps

abbrev pub lines_of : Consuming → List Line
lines_of (polling results) = results
lines_of (closed results) = results

-- Once the event is set, no message counts.
none_in :
    (l : List (Message × Bool))
    → StaysSetIn true l
    → (unstopped_in true l ≡ []) × (reading_after true l ≡ true)
none_in [] h = (refl, refl)
none_in ((message, true) ∷ rest) h = none_in rest h.1
none_in ((message, false) ∷ rest) h = absurd (ground (arith, h.0))

none_within :
    (b : Bool) (l : List (Message × Bool))
    → b ≡ true
    → StaysSetIn b l
    → (unstopped_in b l ≡ []) × (reading_after b l ≡ true)
none_within true l e h = none_in l h
none_within false l e h = absurd (ground arith)

none_left : (ps : List Pass) → StaysSet true ps → unstopped ps ≡ []
none_left [] h = refl
none_left (p ∷ ps) (first, within, later) =
    let (here, set) = none_within p.is_set p.messages (ground (arith, first)) within in
    rw (here, none_left ps (rw set at later)) refl

module _ (name group_id : String) where
  consume_lem :
      (l : List (Message × Bool)) (results : List Line)
      → StaysSetIn false l
      → consume name group_id l results ≡ results ++ map (line name group_id) (unstopped_in false l)
  unfolding consume
  consume_lem [] results h = sym (append-nil results)
  consume_lem ((message, true) ∷ rest) results h = rw (none_in rest h.1).0 refl
  consume_lem ((message, false) ∷ rest) results h =
      consume_lem rest (results ++ line name group_id message ∷ []) h.1
      ∙ append_assoc results (line name group_id message ∷ [])
          (map (line name group_id) (unstopped_in false rest))

  passes :
      (before : Bool) (ps : List Pass) (results : List Line)
      → StaysSet before ps
      → lines_of (run_consumer name group_id ps results)
        ≡ results ++ map (line name group_id) (unstopped ps)
  unfolding run_consumer
  passes before [] results h = sym (append-nil results)
  passes before (p ∷ ps) results (first, within, later) = elim (Bool-cases p.is_set) [
    | inl set ↦
        let (here, on) = none_within p.is_set p.messages set within in
        rw (here, none_left ps (rw on at later), set, run_consumer) (sym (append-nil results))
    | inr clear ↦
        let consumed = consume_lem p.messages results (rw clear at within) in
        rw (clear, run_consumer)
          (passes (reading_after p.is_set p.messages) ps _ later
            ∙ ap (λ (l : List Line). l ++ map (line name group_id) (unstopped ps)) consumed
            ∙ append_assoc results (map (line name group_id) (unstopped_in false p.messages))
                (map (line name group_id) (unstopped ps))
            ∙ ap (◌++◌ results) (
                sym
                  (map-append (line name group_id) (unstopped_in false p.messages) (unstopped ps))))
  ]

  -- If an event that is set stays set, `run_consumer` stores a line for each message that comes
  -- before the event is first seen set, the one after which it is seen included, in order, and for
  -- no other.
  pub run_consumer_lem :
      (ps : List Pass) (results : List Line)
      → StaysSet false ps
      → lines_of (run_consumer name group_id ps results)
        ≡ results ++ map (line name group_id) (unstopped ps)
  run_consumer_lem ps results h = passes false ps results h
