-- ===== src/Detect/Worker.antt =====
-- src/app/workers/detector.py: one tick reads a batch of events behind the cursor, runs the
-- detectors over it, stores their detections once each, and moves the cursor. A detector is a
-- function on the events and the stored states that may raise; a raise loses its detections, and
-- what it wrote before stays. `accepts` is whether PostgreSQL takes the row of a detection: its JSONB
-- refuses the infinite score deviation of a history without variance.
use sentraxis.Prelude.{
  ℕ, suc, ◌-◌, Bool, Option, none, some, List, [], ◌∷◌, ◌++◌, ◌&&◌, str_eq, ltb, max, ◌==◌, keep,
  any, take, all, length, if◌then◌else◌,
}
use sentraxis.Detect.Float.{Float}
use sentraxis.Detect.Base.{EventView, Detection}

pub record InsertReport : Type 0 where
  pub inserted : ℕ
  pub duplicates : ℕ

module _ (fl : Float) (S : Type 0) where
  -- The events stand in the order of their ids.
  pub record Db : Type 0 where
    pub events : List EventView
    pub detections : List (Detection fl)
    pub cursor : Option ℕ
    pub states : S

  abbrev pub Detector : Type 0
  Detector = List EventView → S → Option (List (Detection fl)) × S

  pub data Summary : Type 0 where
    idle : Summary
    processed : (count through_id : ℕ) → InsertReport → (emitted : ℕ) → Summary

  unfoldable pub get_cursor : Db → ℕ
  get_cursor db = elim db.cursor [ none ↦ 0 | some n ↦ n ]

  unfoldable pub set_cursor : ℕ → Db → Db
  set_cursor value db = record db { cursor = some value }

  -- The columns of the unique constraint of `detections`.
  unfoldable pub same_key : Detection fl → Detection fl → Bool
  same_key d e =
      d.event_id == e.event_id
      && (str_eq d.detector e.detector && d.detector_version == e.detector_version)

  unfoldable pub has_detection : Detection fl → List (Detection fl) → Bool
  has_detection d rows = any (λ r. same_key r d) rows

  -- `ON CONFLICT DO NOTHING`, with the number of rows that `RETURNING` yields.
  unfoldable pub insert_detections :
      List (Detection fl) → List (Detection fl) → List (Detection fl) × ℕ
  insert_detections [] rows = (rows, 0)
  insert_detections (d ∷ ds) rows =
      let skipped = insert_detections ds rows in
      let added = insert_detections ds (rows ++ (d ∷ [])) in
      if has_detection d rows then skipped else (added.0, suc added.1)

  unfoldable pub inserted_all : List (Detection fl) → Db → Db × InsertReport
  inserted_all ds db =
      let done = insert_detections ds db.detections in
      (
        record db { detections = done.0 },
        record { inserted = done.1; duplicates = length ds - done.1 },
      )

  -- `none` is the DataError of the statement.
  unfoldable pub record_detections :
      (Detection fl → Bool) → List (Detection fl) → Db → Option (Db × InsertReport)
  record_detections accepts ds db = if all accepts ds then some (inserted_all ds db) else none

  unfoldable pub fetch_batch : ℕ → Db → List EventView
  fetch_batch batch_size db = take batch_size (keep (λ e. ltb (get_cursor db) e.id) db.events)

  unfoldable pub run_detectors : List Detector → List EventView → S → List (Detection fl) × S
  run_detectors [] views s = ([], s)
  run_detectors (d ∷ ds) views s =
      let ran = d views s in
      let rest = run_detectors ds views ran.1 in
      elim ran.0 [ none ↦ rest | some found ↦ (found ++ rest.0, rest.1) ]

  unfoldable pub max_id : List EventView → ℕ
  max_id [] = 0
  max_id (e ∷ es) = max e.id (max_id es)

  -- The writes behind the stored detections.
  unfoldable pub finish_tick : List EventView → ℕ → Db × InsertReport → Summary × Db
  finish_tick views emitted (stored, report) =
      (processed (length views) (max_id views) report emitted, set_cursor (max_id views) stored)

  -- `none` is the exception that leaves the transaction without a commit.
  unfoldable pub process_views :
      (Detection fl → Bool) → List Detector → List EventView → Db → Option (Summary × Db)
  process_views accepts detectors [] db = some (idle, db)
  process_views accepts detectors (v ∷ vs) db =
      let (found, states) = run_detectors detectors (v ∷ vs) db.states in
      elim (record_detections accepts found (record db { states = states })) [
        | none ↦ none
        | some stored ↦ some (finish_tick (v ∷ vs) (length found) stored)
      ]

  unfoldable pub tick : (Detection fl → Bool) → List Detector → ℕ → Db → Option (Summary × Db)
  tick accepts detectors batch_size db =
      process_views accepts detectors (fetch_batch batch_size db) db
