-- ===== src/Orchestrator/Seed.antt =====
-- seed_playbooks of src/app/workers/orchestrator.py with its default playbooks: each is inserted
-- unless its name and version are there. `next` is the id that the database gives to the next row.
use sentraxis.Prelude.{
  ℕ, suc, ◌≡◌, refl, subst, ap, Option, none, some, length, sym, ◌∙◌, inl, inr, Bool, true, false,
  ◌&&◌, ◌||◌, not, all, leb, codes, String, List, [], ◌∷◌, ◌++◌, str_eq, eq_iff, ◌==◌, any, All,
  arith, Bool-cases, if◌then◌else◌,
}
use mathlib.Core.List.{append_assoc, append-nil}
use sentraxis.Policy.{Blast, low, high, other, PlaybookDef}
use sentraxis.Orchestrator.Store.{PlaybookRow}

abbrev pub default_playbooks : List PlaybookDef
default_playbooks =
    record {
      name = "isolate_compromised_host";
      description =
          "Quarantine an external host exhibiting active reconnaissance behavior. Requires analyst approval (high blast radius).";
      trigger_detectors = "port_velocity" ∷ "rate_deviation" ∷ [];
      requires_external_source = true;
      min_risk = 5000;
      blast_radius = high;
      action_type = "quarantine_host";
      version = 1;
    }
    ∷ record {
      name = "throttle_flood_source";
      description =
          "Rate-limit a flooding source at the perimeter. Low blast radius: reversible, auto-executes on high-confidence floods.";
      trigger_detectors = "rate_deviation" ∷ [];
      requires_external_source = true;
      min_risk = 8000;
      blast_radius = low;
      action_type = "block_ip";
      version = 1;
    }
    ∷ []

unfoldable pub has_playbook : PlaybookDef → List PlaybookRow → Bool
has_playbook d rows =
    any (λ r. str_eq r.definition.name d.name && r.definition.version == d.version) rows

unfoldable pub playbook_row : ℕ → PlaybookDef → PlaybookRow
playbook_row next d = record { id = next; definition = d; enabled = true }

-- The rows that the session holds in the end: the session does not flush them before the commit, so
-- that each query sees the table as it was.
unfoldable pub new_rows : ℕ → List PlaybookDef → List PlaybookRow → List PlaybookRow
new_rows next [] rows = []
new_rows next (d ∷ ds) rows =
    let skipped = new_rows next ds rows in
    let added = new_rows (suc next) ds rows in
    if has_playbook d rows then skipped else playbook_row next d ∷ added

-- A text of PostgreSQL has no NUL.
unfoldable pub is_text : String → Bool
is_text s = all (λ c. not (c == 0)) (codes s)

unfoldable pub fits_blast_radius : Blast → Bool
fits_blast_radius low = true
fits_blast_radius high = true
fits_blast_radius (other t) = is_text t && leb (length (codes t)) 8

-- The columns of `playbooks` take the values.
unfoldable pub fits_columns : PlaybookDef → Bool
fits_columns d =
    (is_text d.name && leb (length (codes d.name)) 64)
    && (is_text d.description
        && (all is_text d.trigger_detectors
            && (fits_blast_radius d.blast_radius
                && ((is_text d.action_type && leb (length (codes d.action_type)) 48)
                    && leb d.version 2_147_483_647))))

-- The commit: a column or the unique constraint on name and version may refuse a row, which is
-- `none`.
unfoldable pub commit : List PlaybookRow → List PlaybookRow → Option (List PlaybookRow)
commit rows [] = some rows
commit rows (r ∷ rs) =
    let rest = commit (rows ++ (r ∷ [])) rs in
    if not (fits_columns r.definition) || has_playbook r.definition rows then none else rest

-- The table after the commit, and how many rows were added.
unfoldable pub seed_playbooks :
    ℕ → List PlaybookDef → List PlaybookRow → Option (List PlaybookRow) × ℕ
seed_playbooks next ds rows = let added = new_rows next ds rows in (commit rows added, length added)

has_playbook-append :
    (d : PlaybookDef) (xs ys : List PlaybookRow)
    → has_playbook d xs ≡ true
    → has_playbook d (xs ++ ys) ≡ true
unfolding has_playbook
has_playbook-append d [] ys h = cc
has_playbook-append d (x ∷ xs) ys h = ground (arith, has_playbook-append d xs ys)

has_playbook-last :
    (next : ℕ) (d : PlaybookDef) (xs : List PlaybookRow)
    → has_playbook d (xs ++ (playbook_row next d ∷ [])) ≡ true
unfolding has_playbook playbook_row
has_playbook-last next d [] = ground (arith, eq_iff d.name d.name)
has_playbook-last next d (x ∷ xs) = ground (arith, has_playbook-last next d xs)

abbrev same_playbook : PlaybookDef → PlaybookDef → Bool
same_playbook d e = str_eq e.name d.name && e.version == d.version

-- No two definitions have the same name and version.
abbrev pub AreDistinct : List PlaybookDef → Type 0
AreDistinct [] = Unit
AreDistinct (d ∷ ds) = All (λ e. same_playbook d e ≡ false) ds × AreDistinct ds

has_playbook-no_more :
    (e d : PlaybookDef) (next : ℕ) (rows : List PlaybookRow)
    → has_playbook e rows ≡ false
    → same_playbook d e ≡ false
    → has_playbook e (rows ++ (playbook_row next d ∷ [])) ≡ false
unfolding has_playbook playbook_row
has_playbook-no_more e d next [] h q = ground (arith, eq_iff d.name e.name, eq_iff e.name d.name)
has_playbook-no_more e d next (r ∷ rows) h q = ground (arith, has_playbook-no_more e d next rows)

-- A definition that is new against the table and not among the rows before it is new to both.
abbrev Agree : List PlaybookDef → List PlaybookRow → List PlaybookRow → Type 0
Agree ds rows now = All (λ e. has_playbook e now ≡ has_playbook e rows) ds

Agree-next :
    (d : PlaybookDef) (next : ℕ) (ds : List PlaybookDef) (rows now : List PlaybookRow)
    → All (λ e. same_playbook d e ≡ false) ds
    → Agree ds rows now
    → Agree ds rows (now ++ (playbook_row next d ∷ []))
Agree-next d next [] rows now a g = tt
Agree-next d next (e ∷ ds) rows now (q, a) (h, g) = (
  elim (Bool-cases (has_playbook e now)) [
    | inl old ↦ has_playbook-append e now _ old ∙ sym old ∙ h
    | inr new ↦ has_playbook-no_more e d next now new q ∙ sym new ∙ h
  ],
  Agree-next d next ds rows now a g,
)

-- Committing the new rows appends them, and leaves a row for each definition.
abbrev Seeded : List PlaybookDef → List PlaybookRow → List PlaybookRow → List PlaybookRow → Type 0
Seeded ds now added after =
    (commit now added ≡ some after)
    × (after ≡ now ++ added)
    × All (λ d. has_playbook d after ≡ true) ds

new_rows-Seeded :
    (next : ℕ) (ds : List PlaybookDef) (rows now : List PlaybookRow)
    → AreDistinct ds
    → All (λ d. fits_columns d ≡ true) ds
    → Agree ds rows now
    → (after : List PlaybookRow) × Seeded ds now (new_rows next ds rows) after
unfolding new_rows commit playbook_row
new_rows-Seeded next [] rows now u fs g = (now, (refl, sym (append-nil now), tt))
new_rows-Seeded next (d ∷ ds) rows now (a, u) (f, fs) (h, g) =
    elim (Bool-cases (has_playbook d rows)) [
      | inl old ↦
          let (after, (c, e, all)) = new_rows-Seeded next ds rows now u fs g in
          rw old (after, (c, e, (rw e (has_playbook-append d now _ (h ∙ old)), all)))
      | inr new ↦
          let now' = now ++ (playbook_row next d ∷ []) in
          let (after, (c, e, all)) =
            new_rows-Seeded (suc next) ds rows now' u fs (Agree-next d next ds rows now a g) in
          rw new (
            after,
            (
              rw (f, h ∙ new) c,
              e ∙ append_assoc now (playbook_row next d ∷ []) (new_rows (suc next) ds rows),
              (rw e (has_playbook-append d now' _ (has_playbook-last next d now)), all),
            ),
          )
    ]

new_rows_known :
    (next : ℕ) (ds : List PlaybookDef) (rows : List PlaybookRow)
    → All (λ d. has_playbook d rows ≡ true) ds
    → new_rows next ds rows ≡ []
unfolding new_rows
new_rows_known next [] rows h = refl
new_rows_known next (d ∷ ds) rows (h, hs) = rw h (new_rows_known next ds rows hs)

agree : (ds : List PlaybookDef) (rows : List PlaybookRow) → Agree ds rows rows
agree [] rows = tt
agree (d ∷ ds) rows = (refl, agree ds rows)

-- Seeding definitions that fit the columns and of which no two have the same name and version
-- succeeds: it keeps the rows that
-- are there in front of the new ones, as many as it reports, and leaves a row for each definition;
-- seeding the same definitions again adds nothing and leaves the table as it is.
pub seed_playbooks_lem :
    (next later : ℕ) (ds : List PlaybookDef) (rows : List PlaybookRow)
    → AreDistinct ds
    → All (λ d. fits_columns d ≡ true) ds
    → (more : List PlaybookRow) × (seed_playbooks next ds rows ≡ (some (rows ++ more), length more))
      × All (λ d. has_playbook d (rows ++ more) ≡ true) ds
      × (seed_playbooks later ds (rows ++ more) ≡ (some (rows ++ more), 0))
unfolding seed_playbooks commit
seed_playbooks_lem next later ds rows u fits =
    let (after, (c, e, all)) = new_rows-Seeded next ds rows rows u fits (agree ds rows) in
    let known = subst (λ t. All (λ d. has_playbook d t ≡ true) ds) e all in
    let added = new_rows next ds rows in
    (
      added,
      ap (λ t. (t, length added)) (c ∙ ap (λ t. some t) e),
      known,
      rw (new_rows_known later ds (rows ++ added) known) refl,
    )

-- Two definitions of one name and version that the table does not hold make the commit fail.
pub seed_playbooks-twice :
    (next : ℕ) (d : PlaybookDef) (rows : List PlaybookRow)
    → fits_columns d ≡ true
    → has_playbook d rows ≡ false
    → seed_playbooks next (d ∷ d ∷ []) rows ≡ (none, 2)
unfolding seed_playbooks new_rows commit playbook_row
seed_playbooks-twice next d rows fits new =
    rw (new, fits, has_playbook-last next d rows) (rw new refl)
