-- ===== src/Ingest/Repository.antt =====
-- src/app/persistence/repository.py with its rows of src/app/persistence/models.py and the event
-- type of src/app/domain/events.py. The ids of event rows are the database's and are left out.
use sentraxis.Prelude.{
  ℕ, suc, ◌-◌, max, Bool, true, false, ◌&&◌, ◌||◌, Option, none, some, List, [], ◌∷◌, ◌++◌, Text,
  text_eq, ◌==◌, ltb, leb, length, any, all, not, if◌then◌else◌,
}
use sentraxis.Audit.{Json, null, bool, num, txt, obj, Fields, end, field}

pub data EntityType : Type 0 where
  host user subnet : EntityType

pub record EntityRef : Type 0 where
  pub type' : EntityType
  pub identifier : Text

pub record CanonicalEvent : Type 0 where
  pub event_id : ℕ
  pub ts : ℕ
  pub source : Text
  pub src_entity : EntityRef
  pub dst_entity : Option EntityRef
  pub ground_truth_label : Option Bool
  pub features : Fields

-- What `parse_event_payload` comes to: its ValueError, another exception, or the event.
pub data Parsed : Type 0 where
  malformed overflowing : Parsed
  parsed : CanonicalEvent → Parsed

pub record EntityRow : Type 0 where
  pub id : ℕ
  pub ref : EntityRef
  pub last_seen_at : ℕ

pub record EventRow : Type 0 where
  pub event_id : ℕ
  pub ts : ℕ
  pub source : Text
  pub src_entity_id : ℕ
  pub dst_entity_id : Option ℕ
  pub ground_truth_label : Option Bool
  pub features : Fields

pub record Db : Type 0 where
  pub entities : List EntityRow
  pub next_entity_id : ℕ
  pub events : List EventRow

pub record InsertReport : Type 0 where
  pub inserted : ℕ
  pub duplicates : ℕ

-- The place of a type's value among the values' texts.
unfoldable pub type_rank : EntityType → ℕ
type_rank host = 0
type_rank subnet = 1
type_rank user = 2

unfoldable pub text_ltb : Text → Text → Bool
text_ltb xs [] = false
text_ltb [] (y ∷ ys) = true
text_ltb (x ∷ xs) (y ∷ ys) = ltb x y || x == y && text_ltb xs ys

unfoldable pub same_key : EntityRef → EntityRef → Bool
same_key a b = type_rank a.type' == type_rank b.type' && text_eq a.identifier b.identifier

unfoldable pub key_ltb : EntityRef → EntityRef → Bool
key_ltb a b =
    ltb (type_rank a.type') (type_rank b.type')
    || type_rank a.type' == type_rank b.type' && text_ltb a.identifier b.identifier

-- `sorted(set(refs), key=_ref_key)`, one reference at a time.
unfoldable pub insert_ref : EntityRef → List EntityRef → List EntityRef
insert_ref r [] = r ∷ []
insert_ref r (x ∷ xs) =
    let rest = insert_ref r xs in
    if key_ltb r x then r ∷ x ∷ xs else if same_key r x then x ∷ xs else x ∷ rest

unfoldable pub insert_dst : Option EntityRef → List EntityRef → List EntityRef
insert_dst none refs = refs
insert_dst (some r) refs = insert_ref r refs

unfoldable pub extract_entity_refs : List CanonicalEvent → List EntityRef
extract_entity_refs [] = []
extract_entity_refs (e ∷ es) =
    insert_ref e.src_entity (insert_dst e.dst_entity (extract_entity_refs es))

-- `ON CONFLICT (type, identifier) DO UPDATE` for one row.
unfoldable pub upsert_row : ℕ → ℕ → EntityRef → List EntityRow → List EntityRow
upsert_row now id ref [] = record { id = id; ref = ref; last_seen_at = now } ∷ []
upsert_row now id ref (x ∷ xs) =
    let rest = upsert_row now id ref xs in
    if same_key x.ref ref then record x { last_seen_at = max x.last_seen_at now } ∷ xs else x ∷ rest

unfoldable pub upsert_rows : ℕ → List EntityRef → Db → Db
upsert_rows now [] db = db
upsert_rows now (ref ∷ refs) db = upsert_rows now refs (record db {
  entities = upsert_row now db.next_entity_id ref db.entities;
  next_entity_id = suc db.next_entity_id;
})

-- A text that the column `identifier`, of type String(255), takes: a text of PostgreSQL has no NUL.
unfoldable pub is_storable : EntityRef → Bool
is_storable r = leb (length r.identifier) 255 && all (λ c. not (c == 0)) r.identifier

-- `none` is the DataError of the statement.
unfoldable pub upsert_entities : ℕ → List EntityRef → Db → Option Db
upsert_entities now refs db = if all is_storable refs then some (upsert_rows now refs db) else none

-- `entity_ids[_ref_key(ref)]`; `none` is the KeyError.
unfoldable pub find_id : EntityRef → List EntityRow → Option ℕ
find_id ref [] = none
find_id ref (x ∷ xs) = let rest = find_id ref xs in if same_key x.ref ref then some x.id else rest

unfoldable pub find_dst : Option EntityRef → List EntityRow → Option (Option ℕ)
find_dst none rows = some none
find_dst (some ref) rows = elim (find_id ref rows) [ none ↦ none | some id ↦ some (some id) ]

unfoldable pub event_row : CanonicalEvent → ℕ → Option ℕ → EventRow
event_row e src dst = record {
  event_id = e.event_id;
  ts = e.ts;
  source = e.source;
  src_entity_id = src;
  dst_entity_id = dst;
  ground_truth_label = e.ground_truth_label;
  features = e.features;
}

unfoldable pub values_of : List EntityRow → List CanonicalEvent → Option (List EventRow)
values_of rows [] = some []
values_of rows (e ∷ es) =
    let rest = values_of rows es in
    elim (find_id e.src_entity rows) [
      | none ↦ none
      | some src ↦ elim (find_dst e.dst_entity rows) [
        | none ↦ none
        | some dst ↦ elim rest [ none ↦ none | some values ↦ some (event_row e src dst ∷ values) ]
      ]
    ]

unfoldable pub has_event : ℕ → List EventRow → Bool
has_event event_id rows = any (λ r. r.event_id == event_id) rows

-- `ON CONFLICT (event_id) DO NOTHING`, with the number of rows that `RETURNING` yields.
unfoldable pub insert_rows : List EventRow → List EventRow → List EventRow × ℕ
insert_rows [] events = (events, 0)
insert_rows (v ∷ vs) events =
    let skipped = insert_rows vs events in
    let added = insert_rows vs (events ++ (v ∷ [])) in
    if has_event v.event_id events then skipped else (added.0, suc added.1)

-- A text of PostgreSQL has no NUL, also in a JSONB column.
unfoldable mutual
  pub json_fits : Json → Bool
  json_fits null = true
  json_fits (bool b) = true
  json_fits (num n) = true
  json_fits (txt t) = all (λ c. not (c == 0)) t
  json_fits (obj fs) = fields_fit fs

  pub fields_fit : Fields → Bool
  fields_fit end = true
  fields_fit (field k v fs) = json_fits v && fields_fit fs

unfoldable pub stored_values : List CanonicalEvent → Db → Option (Db × InsertReport)
stored_values events with_entities = elim (values_of with_entities.entities events) [
  | none ↦ none
  | some values ↦
      let done = insert_rows values with_entities.events in
      some (
        record with_entities { events = done.0 },
        record { inserted = done.1; duplicates = length events - done.1 },
      )
]

-- `none` is the DataError of the statement or the KeyError.
unfoldable pub insert_events : List CanonicalEvent → Db → Option (Db × InsertReport)
insert_events events with_entities =
    let done = stored_values events with_entities in
    if all (λ e. fields_fit e.features) events then done else none

-- Every identifier and every text of the features fits its column.
abbrev pub are_storable : List CanonicalEvent → Bool
are_storable events =
    all is_storable (extract_entity_refs events) && all (λ e. fields_fit e.features) events

-- The transaction of `persist_batch`; `none` is a DataError or the KeyError.
unfoldable pub store_batch : ℕ → List CanonicalEvent → Db → Option (Db × InsertReport)
store_batch now events db = elim (upsert_entities now (extract_entity_refs events) db) [
  | none ↦ none
  | some with_entities ↦ insert_events events with_entities
]
