-- ===== src/Ingest/Keys.antt =====
-- The entities of a batch and the look-ups of their ids in src/app/persistence/repository.py.
use sentraxis.Prelude.{
  ℕ, ◌≡◌, refl, subst, sym, ◌∙◌, ap, inl, inr, Bool, true, false, ◌&&◌, Option, none, some, List,
  [], ◌∷◌, text_eq_refl, text_eq_sound, ◌==◌, length, map, ◌-◌, all, All, arith, Bool-cases,
  if◌then◌else◌,
}
use sentraxis.Ingest.Repository.{
  EntityType, host, user, subnet, EntityRef, CanonicalEvent, EntityRow, EventRow, Db, type_rank,
  same_key, key_ltb, insert_ref, insert_dst, extract_entity_refs, upsert_row, upsert_rows, find_id,
  find_dst, event_row, values_of, insert_rows, store_batch, upsert_entities, insert_events,
  are_storable, is_storable, fields_fit, stored_values,
}

type_rank_inj : (a b : EntityType) → type_rank a == type_rank b ≡ true → a ≡ b
unfolding type_rank
type_rank_inj host host e = refl
type_rank_inj host user e = absurd (ground arith)
type_rank_inj host subnet e = absurd (ground arith)
type_rank_inj user host e = absurd (ground arith)
type_rank_inj user user e = refl
type_rank_inj user subnet e = absurd (ground arith)
type_rank_inj subnet host e = absurd (ground arith)
type_rank_inj subnet user e = absurd (ground arith)
type_rank_inj subnet subnet e = refl

same_key_refl : (a : EntityRef) → same_key a a ≡ true
unfolding same_key
same_key_refl a = ground (arith, text_eq_refl a.identifier)

both : (a b : Bool) → (a && b) ≡ true → (a ≡ true) × (b ≡ true)
both true true e = (refl, refl)
both true false e = cc
both false b e = cc

make_ref : EntityType → List ℕ → EntityRef
make_ref t i = record { type' = t; identifier = i }

same_key_sound : (a b : EntityRef) → same_key a b ≡ true → a ≡ b
unfolding same_key make_ref
same_key_sound a b e =
    let (t, i) = both _ _ e in
    ap (λ x. make_ref x a.identifier) (type_rank_inj a.type' b.type' t)
    ∙ ap (λ x. make_ref b.type' x) (text_eq_sound a.identifier b.identifier i)

abbrev Found : List EntityRow → EntityRef → Type 0
Found rows ref = (id : ℕ) × (find_id ref rows ≡ some id)

if_true : {A : Type 0} {b : Bool} (s t : A) → b ≡ true → (if b then s else t) ≡ s
if_true s t e = rw e refl

if_false : {A : Type 0} {b : Bool} (s t : A) → b ≡ false → (if b then s else t) ≡ t
if_false s t e = rw e refl

upsert_row-finds :
    (now id : ℕ) (ref : EntityRef) (rows : List EntityRow) → Found (upsert_row now id ref rows) ref
unfolding upsert_row find_id
upsert_row-finds now id ref [] = (id, rw (same_key_refl ref) refl)
upsert_row-finds now id ref (x ∷ xs) = elim (Bool-cases (same_key x.ref ref)) [
  | inl e ↦ (x.id, rw (e, find_id) (rw e refl))
  | inr e ↦ let (i, q) = upsert_row-finds now id ref xs in (i, rw (e, find_id) (rw e q))
]

upsert_row-keeps :
    (now id : ℕ) (ref r : EntityRef) (rows : List EntityRow)
    → Found rows r
    → Found (upsert_row now id ref rows) r
unfolding upsert_row find_id
upsert_row-keeps now id ref r [] (i, q) = cc
upsert_row-keeps now id ref r (x ∷ xs) (i, q) = elim (Bool-cases (same_key x.ref ref)) [
  | inl e ↦ (i, rw (e, find_id) q)
  | inr e ↦ elim (Bool-cases (same_key x.ref r)) [
    | inl hit ↦ (x.id, rw (e, find_id) (rw hit refl))
    | inr miss ↦
        let (k, q') = upsert_row-keeps now id ref r xs (i, sym (if_false _ _ miss) ∙ q) in
        (k, rw (e, find_id) (rw miss q'))
  ]
]

upsert_rows-keeps :
    (now : ℕ) (refs : List EntityRef) (db : Db) (r : EntityRef)
    → Found db.entities r
    → Found (upsert_rows now refs db).entities r
unfolding upsert_rows
upsert_rows-keeps now [] db r found = found
upsert_rows-keeps now (ref ∷ refs) db r found =
    upsert_rows-keeps now refs _ r (upsert_row-keeps now db.next_entity_id ref r db.entities found)

upsert_rows-finds :
    (now : ℕ) (refs : List EntityRef) (db : Db)
    → All (λ r. Found (upsert_rows now refs db).entities r) refs
unfolding upsert_rows
upsert_rows-finds now [] db = tt
upsert_rows-finds now (ref ∷ refs) db = (
  upsert_rows-keeps now refs _ ref (upsert_row-finds now db.next_entity_id ref db.entities),
  upsert_rows-finds now refs _,
)

All-insert_ref :
    (P : EntityRef → Type 0) (r : EntityRef) (xs : List EntityRef)
    → All P (insert_ref r xs)
    → P r × All P xs
unfolding insert_ref
All-insert_ref P r [] h = h
All-insert_ref P r (x ∷ xs) h = elim (Bool-cases (key_ltb r x)) [
  | inl less ↦ subst (λ l. All P l) (if_true _ _ less) h
  | inr more ↦ elim (Bool-cases (same_key r x)) [
    | inl same ↦
        let h' = subst (λ l. All P l) (if_false _ _ more ∙ if_true _ _ same) h in
        (subst P (sym (same_key_sound r x same)) h'.0, h')
    | inr other' ↦
        let h' = subst (λ l. All P l) (if_false _ _ more ∙ if_false _ _ other') h in
        let (a, b) = All-insert_ref P r xs h'.1 in (a, (h'.0, b))
  ]
]

abbrev FoundDst : List EntityRow → Option EntityRef → Type 0
FoundDst rows none = Unit
FoundDst rows (some r) = Found rows r

All-insert_dst :
    (rows : List EntityRow) (o : Option EntityRef) (xs : List EntityRef)
    → All (Found rows) (insert_dst o xs)
    → FoundDst rows o × All (Found rows) xs
unfolding insert_dst
All-insert_dst rows none xs h = (tt, h)
All-insert_dst rows (some r) xs h = All-insert_ref (Found rows) r xs h

find_dst-total :
    (rows : List EntityRow) (o : Option EntityRef)
    → FoundDst rows o
    → (dst : Option ℕ) × (find_dst o rows ≡ some dst)
unfolding find_dst
find_dst-total rows none h = (none, refl)
find_dst-total rows (some r) (i, q) = (some i, rw (q, find_dst) refl)

values_of-total :
    (rows : List EntityRow) (events : List CanonicalEvent)
    → All (Found rows) (extract_entity_refs events)
    → (values : List EventRow) × (values_of rows events ≡ some values)
      × (map (λ (v : EventRow). v.event_id) values
          ≡ map (λ (e : CanonicalEvent). e.event_id) events)
unfolding values_of extract_entity_refs event_row
values_of-total rows [] h = ([], refl, refl)
values_of-total rows (e ∷ es) h =
    let ((src, a), h') =
      All-insert_ref (Found rows) e.src_entity (insert_dst e.dst_entity (extract_entity_refs es))
        h in
    let (b, h'') = All-insert_dst rows e.dst_entity (extract_entity_refs es) h' in
    let (dst, c) = find_dst-total rows e.dst_entity b in
    let (values, q, ids) = values_of-total rows es h'' in
    (
      event_row e src dst ∷ values,
      rw (a, c, q, values_of) refl,
      ap (λ (l : List ℕ). e.event_id ∷ l) ids,
    )

-- What storing a batch comes to.
pub store_batch-total :
    (now : ℕ) (events : List CanonicalEvent) (db : Db)
    → are_storable events ≡ true
    → (values : List EventRow) × (map (λ (v : EventRow). v.event_id) values
        ≡ map (λ (e : CanonicalEvent). e.event_id) events)
      × (store_batch now events db
          ≡ some (
            record (upsert_rows now (extract_entity_refs events) db) {
              events =
                  (insert_rows values (upsert_rows now (extract_entity_refs events) db).events).0;
            },
            record {
              inserted =
                  (insert_rows values (upsert_rows now (extract_entity_refs events) db).events).1;
              duplicates =
                  length events
                  - (insert_rows values (upsert_rows now (extract_entity_refs events) db).events).1;
            },
          ))
unfolding store_batch upsert_entities insert_events stored_values
store_batch-total now events db fits =
    let (values, q, ids) =
      values_of-total (upsert_rows now (extract_entity_refs events) db).entities events
        (upsert_rows-finds now (extract_entity_refs events) db) in
    let refs : all is_storable (extract_entity_refs events) ≡ true = fst _ fits in
    let texts : all (λ (e : CanonicalEvent). fields_fit e.features) events ≡ true =
      snd (all is_storable (extract_entity_refs events)) fits in
    (values, ids, rw (refs, store_batch) (rw (texts, insert_events) (rw (q, stored_values) refl)))
  where
    fst : {a : Bool} (b : Bool) → (a && b) ≡ true → a ≡ true
    fst {a = a} b e = ground arith

    snd : (a : Bool) {b : Bool} → (a && b) ≡ true → b ≡ true
    snd a {b = b} e = ground arith
