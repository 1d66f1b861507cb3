-- ===== src/Ingest/Acked.antt =====
-- What storing the events of a batch leaves pending (src/app/workers/normalizer.py).
use sentraxis.Prelude.{
  ℕ, zero, suc, ◌≡◌, refl, subst, sym, ap, ◌⊎◌, inl, inr, Bool, true, false, not, ◌||◌, ◌&&◌,
  Option, some, List, [], ◌∷◌, ◌++◌, Text, ◌==◌, ==_iff, keep, none, take, any, all, arith,
  Bool-cases,
}
use sentraxis.Ingest.Keys.{store_batch-total}
use sentraxis.Ingest.Repository.{
  CanonicalEvent, Parsed, Db, InsertReport, is_storable, are_storable, fields_fit, insert_events,
  extract_entity_refs, upsert_entities, store_batch,
}
use sentraxis.Ingest.Normalizer.{
  transient_db_error, nonretryable, Fault, healthy, operational, integrity, refusing, Pipe, Attempt,
  committed, operational_error, nonretryable_error, other_error, inline_retry_attempts, is_in, ack,
  next_fault, later_faults, persist_batch, attempt_of, attempted, with_error, with_report,
  dead_letter, settle_event, persist_per_event, msg_ids, events_of, persist_and_ack,
}

-- The entry is acknowledged.
abbrev pub Gone : Pipe → ℕ → Type 0
Gone p i = is_in i p.pending ≡ false

pub keep_gone :
    (i : ℕ) (ids xs : List ℕ)
    → is_in i xs ≡ false
    → is_in i (keep (λ j. not (is_in j ids)) xs) ≡ false
unfolding is_in
keep_gone i ids [] h = refl
keep_gone i ids (x ∷ xs) h = ground (arith, keep_gone i ids xs)

pub keep_acked :
    (i : ℕ) (ids xs : List ℕ)
    → is_in i ids ≡ true
    → is_in i (keep (λ j. not (is_in j ids)) xs) ≡ false
unfolding is_in
keep_acked i ids [] h = refl
keep_acked i ids (x ∷ xs) h = elim (Bool-cases (x == i)) [
  | inl e ↦
      rw (subst (λ y. not (is_in y ids) ≡ false) (sym ((==_iff x i).0 e)) (ap not h))
        (keep_acked i ids xs h)
  | inr e ↦ ground (arith, keep_acked i ids xs h)
]

ack-Gone : (p : Pipe) (ids : List ℕ) (i : ℕ) → Gone p i → Gone (ack ids p) i
unfolding ack
ack-Gone p ids i g = keep_gone i ids p.pending g

ack-acked : (p : Pipe) (ids : List ℕ) (i : ℕ) → is_in i ids ≡ true → Gone (ack ids p) i
unfolding ack
ack-acked p ids i h = keep_acked i ids p.pending h

pub is_in-head : (i : ℕ) (ids : List ℕ) → is_in i (i ∷ ids) ≡ true
unfolding is_in
is_in-head i ids = ground arith

-- The database refuses a value.
unfoldable pub is_refusing : Fault → Bool
is_refusing refusing = true
is_refusing f = false

store_batch-refuses :
    (now : ℕ) (events : List CanonicalEvent) (db : Db)
    → are_storable events ≡ false
    → store_batch now events db ≡ none
unfolding store_batch upsert_entities insert_events
store_batch-refuses now events db bad =
    elim (Bool-cases (all is_storable (extract_entity_refs events))) [
      | inr bad' ↦ rw (bad', store_batch) refl
      | inl fits ↦
          let texts : all (λ (e : CanonicalEvent). fields_fit e.features) events ≡ false =
            right fits bad in
          rw (fits, store_batch) (rw (texts, insert_events) refl)
    ]
  where
    right : {a b : Bool} → a ≡ true → (a && b) ≡ false → b ≡ false
    right {a = a} {b = b} e h = ground arith

module _ (parse_event_payload : Text → Parsed) (dump : CanonicalEvent → Text) (now : ℕ) where
  -- An event that is settled alone is acknowledged, and acknowledged entries stay so.
  settle_event-Gone :
      (id : ℕ) (e : CanonicalEvent) (a : Attempt) (p : Pipe)
      → ((i : ℕ) → Gone p i → Gone (settle_event parse_event_payload dump now id e a p) i)
        × Gone (settle_event parse_event_payload dump now id e a p) id
  unfolding settle_event dead_letter with_error with_report
  settle_event-Gone id e (committed db report) p =
      (λ i g. ack-Gone _ (id ∷ []) i g, ack-acked _ (id ∷ []) id (is_in-head id []))
  settle_event-Gone id e operational_error p =
      (λ i g. ack-Gone _ (id ∷ []) i g, ack-acked _ (id ∷ []) id (is_in-head id []))
  settle_event-Gone id e nonretryable_error p =
      (λ i g. ack-Gone _ (id ∷ []) i g, ack-acked _ (id ∷ []) id (is_in-head id []))
  settle_event-Gone id e other_error p =
      (λ i g. ack-Gone _ (id ∷ []) i g, ack-acked _ (id ∷ []) id (is_in-head id []))

  persist_per_event-Gone :
      (valid : List (ℕ × CanonicalEvent)) (p : Pipe) (i : ℕ)
      → (Gone p i) ⊎ (is_in i (msg_ids parse_event_payload dump now valid) ≡ true)
      → Gone (persist_per_event parse_event_payload dump now valid p) i
  unfolding persist_per_event msg_ids attempted is_in
  persist_per_event-Gone [] p i (inl g) = g
  persist_per_event-Gone [] p i (inr h) = cc
  persist_per_event-Gone ((id, e) ∷ rest) p i o =
      let a = persist_batch now (next_fault p.faults) (e ∷ []) p.db in
      let s = settle_event-Gone id e a (attempted p) in
      persist_per_event-Gone rest (settle_event parse_event_payload dump now id e a (attempted p)) i
        (elim o [
          | inl g ↦ inl (s.0 i g)
          | inr h ↦ elim (Bool-cases (id == i)) [
            | inl same ↦ inl (
                subst (λ j. Gone (settle_event parse_event_payload dump now id e a (attempted p)) j)
                  ((==_iff id i).0 same) s.1)
            | inr other ↦ inr (or_right other h)
          ]
        ])
    where
      or_right : {a b : Bool} → a ≡ false → (a || b) ≡ true → b ≡ true
      or_right {a = a} {b = b} e h = ground arith

  -- An exception that no handler catches: within the attempts the database refused a value, or a
  -- text does not fit its column.
  abbrev pub Refused : ℕ → List Fault → List CanonicalEvent → Type 0
  Refused left faults events =
      (any is_refusing (take left faults) ≡ true) ⊎ (are_storable events ≡ false)

  -- What one attempt to store can be.
  persist_batch-cases :
      (f : Fault) (events : List CanonicalEvent) (db : Db)
      → (persist_batch now f events db ≡ operational_error)
        ⊎ ((persist_batch now f events db ≡ nonretryable_error)
            ⊎ (((db' : Db) × (report : InsertReport) × (persist_batch now f events db
                    ≡ committed db' report))
                ⊎ ((persist_batch now f events db ≡ other_error)
                    × ((is_refusing f ≡ true) ⊎ (are_storable events ≡ false)))))
  unfolding persist_batch attempt_of is_refusing
  persist_batch-cases operational events db = inl refl
  persist_batch-cases integrity events db = inr (inl refl)
  persist_batch-cases refusing events db = inr (inr (inr (refl, inl refl)))
  persist_batch-cases healthy events db = elim (Bool-cases (are_storable events)) [
    | inl fits ↦
        let (_, _, e) = store_batch-total now events db fits in
        inr (inr (inl (_, _, ap attempt_of e)))
    | inr bad ↦ inr (inr (inr (ap attempt_of (store_batch-refuses now events db bad), inr bad)))
  ]

  pub record Stored (valid : List (ℕ × CanonicalEvent)) (p : Pipe) (r : Option Pipe) : Type 0 where
    pub pipe : Pipe
    pub returns : r ≡ some pipe
    pub settles :
        ((i : ℕ)
          → (Gone p i) ⊎ (is_in i (msg_ids parse_event_payload dump now valid) ≡ true)
          → Gone pipe i)
        ⊎ (((i : ℕ) → Gone p i → Gone pipe i)
            × (pipe.result.errors
                ≡ p.result.errors ++ (transient_db_error inline_retry_attempts ∷ [])))

  -- It returns with the entries settled, or an exception escapes for one of the two reasons.
  abbrev pub Persisted : ℕ → List (ℕ × CanonicalEvent) → Pipe → Option Pipe → Type 0
  Persisted left valid p r =
      Stored valid p r
      ⊎ ((r ≡ none) × Refused left p.faults (events_of parse_event_payload dump now valid))

  Refused-later :
      (left : ℕ) (faults : List Fault) (events : List CanonicalEvent)
      → Refused left (later_faults faults) events
      → Refused (suc left) faults events
  unfolding later_faults
  Refused-later zero [] events (inl h) = inl h
  Refused-later (suc left) [] events (inl h) = inl h
  Refused-later left (f ∷ fs) events (inl h) = inl (ground arith)
  Refused-later left faults events (inr h) = inr h

  Refused-now :
      (left : ℕ) (faults : List Fault) (events : List CanonicalEvent)
      → (is_refusing (next_fault faults) ≡ true) ⊎ (are_storable events ≡ false)
      → Refused (suc left) faults events
  unfolding next_fault is_refusing
  Refused-now left [] events (inl h) = cc
  Refused-now left (f ∷ fs) events (inl h) = inl (ground arith)
  Refused-now left faults events (inr h) = inr h

  pub persist_and_ack-Persisted :
      (left : ℕ) (valid : List (ℕ × CanonicalEvent)) (p : Pipe)
      → Persisted left valid p (persist_and_ack parse_event_payload dump now left valid p)
  unfolding persist_and_ack with_error with_report attempted
  persist_and_ack-Persisted zero valid p =
      inl (record { pipe = _; returns = refl; settles = inr (λ i g. g, refl) })
  persist_and_ack-Persisted (suc left) valid p =
      elim (persist_batch-cases (next_fault p.faults) (events_of parse_event_payload dump now valid)
        p.db) [
          | inl e ↦ elim (persist_and_ack-Persisted left valid (attempted p)) [
            | inl s ↦ inl (record {
              pipe = s.pipe;
              returns = rw (e, persist_and_ack) s.returns;
              settles = s.settles;
            })
            | inr (out, why) ↦ inr (rw (e, persist_and_ack) out, Refused-later left p.faults _ why)
          ]
          | inr (inl e) ↦ inl (record {
            pipe =
                persist_per_event parse_event_payload dump now valid
                  (with_error nonretryable (attempted p));
            returns = rw (e, persist_and_ack) refl;
            settles =
                inl
                  (λ i o. persist_per_event-Gone valid (with_error nonretryable (attempted p)) i o);
          })
          | inr (inr (inl (db', report, e))) ↦ inl (record {
            pipe =
                ack (msg_ids parse_event_payload dump now valid)
                  (with_report db' report (attempted p));
            returns = rw (e, persist_and_ack) refl;
            settles = inl (λ i o. elim o [
              | inl g ↦ ack-Gone (with_report db' report (attempted p)) _ i g
              | inr h ↦ ack-acked (with_report db' report (attempted p)) _ i h
            ]);
          })
          | inr (inr (inr (e, why))) ↦
              inr (rw (e, persist_and_ack) refl, Refused-now left p.faults _ why)
        ]
