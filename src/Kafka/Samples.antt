-- ===== src/Kafka/Samples.antt =====
-- A client library whose records are texts, and brokers that assign partition 0 to the first
-- member of a group, for the tests.
use the_grind.Prelude.{
  ℕ, String, ◌≡◌, refl, sym, subst, append_assoc, ◌&&◌, true, Option, some, List, [], ◌∷◌, ◌++◌,
  ◌==◌, str_eq, if◌then◌else◌, inl, inr, arith, zero, suc, Bool-cases,
}
use the_grind.Kafka.{Client}
use the_grind.Kafka.Members.{Reset, earliest, latest, Settings, matches, is_member, Brokers}

abbrev pub partition : String → ℕ
partition k = if str_eq k "customer_2" then 1 else 0

-- What is on each partition of a topic, or waits for it.
abbrev pub Records : Type 0
Records = String → ℕ → List (String × String)

abbrev pub with_record : String → String → String → Records → Records
with_record topic k v r n p =
    r n p ++ (if str_eq topic n && (partition k == p) then (k, v) ∷ [] else [])

abbrev pub fresh : Records
fresh n p = []

pub same_result :
    (P : Records × Records → Type 0) (r r' : Records × Records)
    → ◌≡◌ {A = Option (Records × Records)} (some r) (some r')
    → P r
    → P r'
same_result P r r' e h = let it : r ≡ r' = cc in subst P it h

-- Nothing of the buffer reaches the topics before `flush`, and `close` drops it.
abbrev pub texts : Client
texts = record {
  Bytes = String;
  Topics = Records;
  Buffer = Records;
  encode = λ x. x;
  decode = λ b. some b;
  decode-encode = λ x. refl;
  partition_of = partition;
  log = λ n p t. t n p;
  buffered = λ n p b. b n p;
  given_up = λ b. 0;
  connect = fresh;
  send = λ topic k v b t. some (with_record topic k v b, t);
  flush = λ b t. some (fresh, λ n p. t n p ++ b n p);
  close = λ b t. some (fresh, t);
  buffered-connect = λ n p. refl;
  send_lem = λ topic k v b b' t t' e none_lost. (
    refl,
    λ n p.
        same_result
          (λ r.
            r.1 n p ++ r.0 n p
            ≡ (t n p ++ b n p)
              ++ (if str_eq topic n && (partition k == p) then (k, v) ∷ [] else []))
          (with_record topic k v b, t) (b', t') e (sym (append_assoc (t n p) (b n p) _)),
  );
  flush_lem = λ b b' t t' e none_lost. (
    refl,
    λ n p.
        same_result (λ r. (r.1 n p ≡ t n p ++ b n p) × (r.0 n p ≡ []))
          (fresh, λ n p. t n p ++ b n p) (b', t') e (refl, refl),
  );
  close_lem = λ b b' t t' e none_lost.
      (refl, λ n p none_left. same_result (λ r. r.1 n p ≡ t n p) (fresh, t) (b', t') e refl);
}

abbrev pub first_member : List Settings → String → String → ℕ
first_member [] topic group_id = 0
first_member (s ∷ consumers) topic group_id =
    let later = first_member consumers topic group_id in
    if matches topic group_id (some s) then 0 else suc later

first_member-is_member :
    (consumers : List Settings) (topic group_id : String) (i : ℕ)
    → is_member consumers topic group_id i ≡ true
    → is_member consumers topic group_id (first_member consumers topic group_id) ≡ true
first_member-is_member [] topic group_id i m = absurd (ground arith)
first_member-is_member (s ∷ consumers) topic group_id zero m = rw m m
first_member-is_member (s ∷ consumers) topic group_id (suc i) m =
    elim (Bool-cases (matches topic group_id (some s))) [
      | inl e ↦ rw e e
      | inr e ↦ rw e (first_member-is_member consumers topic group_id i m)
    ]

-- Partition 0 goes to the first member, and the others to consumer 1 if it is one.
abbrev pub owner : List Settings → String → String → ℕ → ℕ
owner consumers topic group_id p =
    let first = first_member consumers topic group_id in
    if p == 0 then first else if is_member consumers topic group_id 1 then 1 else first

abbrev pub first_offset : Reset → ℕ → ℕ
first_offset earliest records = 0
first_offset latest records = records

pub brokers_owner :
    (consumers : List Settings) (topic group_id : String) (p i : ℕ)
    → is_member consumers topic group_id i ≡ true
    → is_member consumers topic group_id (owner consumers topic group_id p) ≡ true
brokers_owner consumers topic group_id p i m = elim (Bool-cases (p == 0)) [
  | inl e ↦ rw e (first_member-is_member consumers topic group_id i m)
  | inr e ↦ elim (Bool-cases (is_member consumers topic group_id 1)) [
    | inl h ↦ rw (e, h) h
    | inr h ↦ rw (e, h) (first_member-is_member consumers topic group_id i m)
  ]
]

abbrev pub brokers : Brokers
brokers = record {
  owner = owner;
  owner-is_member = brokers_owner;
  first_offset = first_offset;
  first_offset-earliest = λ records. refl;
}
