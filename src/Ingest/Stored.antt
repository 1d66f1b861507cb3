-- ===== src/Ingest/Stored.antt =====
-- Storing a batch, and storing it again (src/app/persistence/repository.py).
use sentraxis.Prelude.{
  ℕ, ◌-◌, ◌≡◌, refl, subst, sym, ◌∙◌, ap, inl, inr, true, false, some, List, [], ◌∷◌, ◌++◌, length,
  map, All, arith, Bool-cases,
}
use mathlib.Core.List.{nil≢cons, head-eq_of_cons-eq, tail-eq_of_cons-eq}
use sentraxis.Ingest.Keys.{store_batch-total}
use sentraxis.Ingest.Repository.{
  EntityRef, CanonicalEvent, EventRow, Db, InsertReport, has_event, insert_rows, store_batch,
  upsert_rows, extract_entity_refs, are_storable,
}

has_event-append :
    (i : ℕ) (xs : List EventRow) (v : EventRow)
    → has_event i xs ≡ true
    → has_event i (xs ++ (v ∷ [])) ≡ true
unfolding has_event
has_event-append i [] v h = cc
has_event-append i (x ∷ xs) v h = ground (arith, has_event-append i xs v)

has_event-last : (xs : List EventRow) (v : EventRow) → has_event v.event_id (xs ++ (v ∷ [])) ≡ true
unfolding has_event
has_event-last [] v = ground arith
has_event-last (x ∷ xs) v = ground (arith, has_event-last xs v)

insert_rows_keeps :
    (i : ℕ) (vs xs : List EventRow)
    → has_event i xs ≡ true
    → has_event i ((insert_rows vs xs).0) ≡ true
unfolding insert_rows
insert_rows_keeps i [] xs h = h
insert_rows_keeps i (v ∷ vs) xs h = elim (Bool-cases (has_event v.event_id xs)) [
  | inl old ↦ rw old (insert_rows_keeps i vs xs h)
  | inr new ↦ rw new (insert_rows_keeps i vs (xs ++ (v ∷ [])) (has_event-append i xs v h))
]

insert_rows-old :
    (v : EventRow) (vs xs : List EventRow)
    → has_event v.event_id xs ≡ true
    → insert_rows (v ∷ vs) xs ≡ insert_rows vs xs
unfolding insert_rows
insert_rows-old v vs xs h = rw h refl

insert_rows-new :
    (v : EventRow) (vs xs : List EventRow)
    → has_event v.event_id xs ≡ false
    → (insert_rows (v ∷ vs) xs).0 ≡ (insert_rows vs (xs ++ (v ∷ []))).0
unfolding insert_rows
insert_rows-new v vs xs h = rw h refl

-- Every row of the values is in the table afterwards.
insert_rows-All :
    (vs xs : List EventRow) → All (λ v. has_event v.event_id ((insert_rows vs xs).0) ≡ true) vs
insert_rows-All [] xs = tt
insert_rows-All (v ∷ vs) xs = elim (Bool-cases (has_event v.event_id xs)) [
  | inl old ↦
      subst (λ t. All (λ w. has_event w.event_id t ≡ true) (v ∷ vs))
        (sym (ap (λ (r : List EventRow × ℕ). r.0) (insert_rows-old v vs xs old)))
        (insert_rows_keeps v.event_id vs xs old, insert_rows-All vs xs)
  | inr new ↦
      subst (λ t. All (λ w. has_event w.event_id t ≡ true) (v ∷ vs))
        (sym (insert_rows-new v vs xs new))
        (
          insert_rows_keeps v.event_id vs (xs ++ (v ∷ [])) (has_event-last xs v),
          insert_rows-All vs (xs ++ (v ∷ [])),
        )
]

insert_rows_known :
    (vs xs : List EventRow)
    → All (λ v. has_event v.event_id xs ≡ true) vs
    → insert_rows vs xs ≡ (xs, 0)
unfolding insert_rows
insert_rows_known [] xs h = refl
insert_rows_known (v ∷ vs) xs (h, hs) = rw h (insert_rows_known vs xs hs)

transfer :
    (vs ws xs : List EventRow)
    → map (λ (v : EventRow). v.event_id) vs ≡ map (λ (v : EventRow). v.event_id) ws
    → All (λ v. has_event v.event_id xs ≡ true) vs
    → All (λ v. has_event v.event_id xs ≡ true) ws
transfer [] [] xs e h = tt
transfer [] (w ∷ ws) xs e h = absurd (nil≢cons e)
transfer (v ∷ vs) [] xs e h = tt
transfer (v ∷ vs) (w ∷ ws) xs e (h, hs) = (
  subst (λ i. has_event i xs ≡ true) (head-eq_of_cons-eq e) h,
  transfer vs ws xs (tail-eq_of_cons-eq e) hs,
)

-- Rows with the ids of rows that were inserted before are all skipped.
insert_rows_again :
    (vs ws xs : List EventRow)
    → map (λ (v : EventRow). v.event_id) vs ≡ map (λ (v : EventRow). v.event_id) ws
    → insert_rows ws ((insert_rows vs xs).0) ≡ ((insert_rows vs xs).0, 0)
insert_rows_again vs ws xs e =
    insert_rows_known ws ((insert_rows vs xs).0)
      (transfer vs ws ((insert_rows vs xs).0) e (insert_rows-All vs xs))

upsert_rows-events :
    (now : ℕ) (refs : List EntityRef) (db : Db) → (upsert_rows now refs db).events ≡ db.events
unfolding upsert_rows
upsert_rows-events now [] db = refl
upsert_rows-events now (ref ∷ refs) db = upsert_rows-events now refs _

-- Storing a batch whose texts fit their columns succeeds while the database answers, and storing
-- it a second time, at any later moment, succeeds too, reports no inserted event and all events as duplicates, and leaves
-- the event rows as the first time left them.
pub store_batch_again :
    (now later : ℕ) (events : List CanonicalEvent) (db : Db)
    → are_storable events ≡ true
    → (db' : Db) × (report : InsertReport) × (db'' : Db) × (report' : InsertReport) × (store_batch
          now events db
        ≡ some (db', report))
      × (store_batch later events db' ≡ some (db'', report'))
      × (db''.events ≡ db'.events)
      × (report'.inserted ≡ 0)
      × (report'.duplicates ≡ length events)
store_batch_again now later events db fits =
    let (vs, ids, e) = store_batch-total now events db fits in
    let first = upsert_rows now (extract_entity_refs events) db in
    let db' : Db = record first { events = (insert_rows vs first.events).0 } in
    let (ws, ids', e') = store_batch-total later events db' fits in
    let again : insert_rows ws (upsert_rows later (extract_entity_refs events) db').events
        ≡ (db'.events, 0) =
      ap (λ xs. insert_rows ws xs) (upsert_rows-events later (extract_entity_refs events) db')
      ∙ insert_rows_again vs ws first.events (ids ∙ sym ids') in
    (
      db',
      _,
      _,
      _,
      e,
      e',
      ap (λ (r : List EventRow × ℕ). r.0) again,
      ap (λ (r : List EventRow × ℕ). r.1) again,
      ap (λ (r : List EventRow × ℕ). length events - r.1) again ∙ omega arith,
    )
