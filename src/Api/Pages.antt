-- ===== src/Api/Pages.antt =====
-- The listings of src/app/api/incidents.py and src/app/api/actions.py: a filter, the newest first,
-- and one page. Rows of one time stand in the order of the table, where the database is free.
use sentraxis.Prelude.{
  ℕ, zero, suc, Bool, true, Option, none, some, List, [], ◌∷◌, Text, codes, text_eq, ltb, leb, ◌&&◌,
  keep, take, length, if◌then◌else◌,
}
use sentraxis.Orchestrator.Store.{ActionRow}
use sentraxis.Orchestrator.Transition.{state_name}
use sentraxis.Correlate.Worker.{IncidentRow}
use sentraxis.Api.Auth.{
  UserRow, Libraries, Checked, granted, refused, get_current_user, require_roles, ◌>>=◌,
}

unfoldable pub drop : {A : Type 0} → ℕ → List A → List A
drop zero xs = xs
drop (suc n) [] = []
drop (suc n) (x ∷ xs) = drop n xs

-- `ORDER BY ... DESC`
unfoldable pub insert_newest : {A : Type 0} → (A → ℕ) → A → List A → List A
insert_newest stamp x [] = x ∷ []
insert_newest stamp x (y ∷ ys) =
    let rest = insert_newest stamp x ys in if ltb (stamp x) (stamp y) then y ∷ rest else x ∷ y ∷ ys

unfoldable pub newest_first : {A : Type 0} → (A → ℕ) → List A → List A
newest_first stamp [] = []
newest_first stamp (x ∷ xs) = insert_newest stamp x (newest_first stamp xs)

-- `if status_filter:` passes over a filter that is absent or empty.
unfoldable pub passes : {A : Type 0} → (A → Text) → Option Text → A → Bool
passes field none x = true
passes field (some []) x = true
passes field (some (c ∷ cs)) x = text_eq (field x) (c ∷ cs)

pub record Page (A : Type 0) : Type 0 where
  pub items : List A
  pub total : ℕ
  pub limit : ℕ
  pub offset : ℕ

unfoldable pub page_of :
    {A : Type 0} → (A → Text) → (A → ℕ) → Option Text → (limit offset : ℕ) → List A → Page A
page_of field stamp filter limit offset rows =
    let query = keep (passes field filter) rows in
    record {
      items = take limit (drop offset (newest_first stamp query));
      total = length query;
      limit = limit;
      offset = offset;
    }

-- `Query(ge=1, le=100)`
unfoldable pub check_limit : ℕ → Checked (Unit {0})
check_limit limit =
    if leb 1 limit && leb limit 100
    then granted tt
    else refused (record { status = 422; detail = "limit out of range" })

-- A query string and the header, at a time.
pub record ListRequest : Type 0 where
  pub seconds : ℕ
  pub authorization : Text
  pub filter : Option Text
  pub limit : ℕ
  pub offset : ℕ

-- The rows stand for what `_to_out` copies of them.
module _ (lib : Libraries) (users : List UserRow) where
  unfoldable pub list_incidents : ListRequest → List IncidentRow → Checked (Page IncidentRow)
  list_incidents r rows = do
    user ← get_current_user lib r.seconds users r.authorization
    done ← check_limit r.limit
    granted (
        page_of (λ (i : IncidentRow). codes i.status) (λ (i : IncidentRow). i.last_seen_at) r.filter
          r.limit r.offset rows)

  unfoldable pub list_actions : ListRequest → List ActionRow → Checked (Page ActionRow)
  list_actions r rows = do
    user ← get_current_user lib r.seconds users r.authorization
    allowed ← require_roles ("admin" ∷ "analyst" ∷ "approver" ∷ []) user
    done ← check_limit r.limit
    granted (
        page_of (λ (a : ActionRow). codes (state_name a.state)) (λ (a : ActionRow). a.created_at)
          r.filter r.limit r.offset rows)
