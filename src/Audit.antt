-- ===== src/Audit.antt =====
-- src/app/orchestration/audit.py: the hash-chained audit ledger, with its row type of
-- src/app/persistence/models.py. A JSON payload is a value of `Fields`; sha256 in hexadecimal,
-- datetime.isoformat and json.dumps are the fields of `Hashing`.
pub mod Chain
pub mod Tamper
pub mod Race
mod Tests
use sentraxis.Prelude.{
  ℕ, ◌+◌, Bool, not, ◌||◌, Option, none, some, List, [], ◌∷◌, ◌++◌, String, Text, codes, text_eq,
  take, if◌then◌else◌,
}

mutual
  pub data Json : Type 0 where
    null : Json
    bool : Bool → Json
    num : ℕ → Json
    txt : Text → Json
    obj : Fields → Json

  pub data Fields : Type 0 where
    end : Fields
    field : String → Json → Fields → Fields

pub record Hashing : Type 0 where
  pub sha256_hex : Text → Text
  pub isoformat : ℕ → Text
  pub dumps : Fields → Text

pub record AuditLogRow : Type 0 where
  pub seq : ℕ
  pub ts : ℕ
  pub actor : Text
  pub event_type : Text
  pub ref_type : Option String
  pub ref_id : Option ℕ
  pub payload : Fields
  pub prev_hash : Text
  pub hash : Text

-- The table in the order of `seq`, and the next value of the identity column.
pub record AuditLog : Type 0 where
  pub rows : List AuditLogRow
  pub next_seq : ℕ

-- 64 zeros.
abbrev pub genesis : Text
genesis = codes "0000000000000000000000000000000000000000000000000000000000000000"

abbrev pub bar : ℕ
bar = b'|'

module _ (h : Hashing) where
  unfoldable pub canonical_payload : Fields → Text
  canonical_payload payload = h.dumps payload

  unfoldable pub material : Text → Text → Text → Text → Text → Text
  material prev_hash ts_iso actor event_type payload_canonical =
      prev_hash ++ bar ∷ (ts_iso ++ bar ∷ (actor ++ bar ∷ (event_type ++ bar ∷ payload_canonical)))

  unfoldable pub compute_entry_hash : Text → Text → Text → Text → Text → Text
  compute_entry_hash prev_hash ts_iso actor event_type payload_canonical =
      h.sha256_hex (material prev_hash ts_iso actor event_type payload_canonical)

  -- The hash that both `append_entry` and `verify_chain` compute from a row and its predecessor's.
  unfoldable pub row_hash : Text → AuditLogRow → Text
  unfolding compute_entry_hash canonical_payload
  row_hash prev row =
      compute_entry_hash prev (h.isoformat row.ts) row.actor row.event_type
        (canonical_payload row.payload)

  -- `last.hash if last else GENESIS`
  unfoldable pub last_hash : Text → List AuditLogRow → Text
  last_hash prev [] = prev
  last_hash prev (row ∷ rows) = last_hash row.hash rows

  unfoldable pub new_row :
      ℕ → AuditLog → Text → Text → Fields → Option String → Option ℕ → AuditLogRow
  unfolding row_hash last_hash
  new_row now log actor event_type payload ref_type ref_id =
      let prev_hash = last_hash genesis log.rows in
      let row : AuditLogRow = record {
        seq = log.next_seq;
        ts = now;
        actor = take 96 actor;
        event_type = take 48 event_type;
        ref_type = ref_type;
        ref_id = ref_id;
        payload = payload;
        prev_hash = prev_hash;
        hash = [];
      } in
      record row { hash = row_hash prev_hash row }

  unfoldable pub append_entry :
      ℕ → AuditLog → Text → Text → Fields → Option String → Option ℕ → AuditLog
  unfolding new_row
  append_entry now log actor event_type payload ref_type ref_id = record {
    rows = log.rows ++ new_row now log actor event_type payload ref_type ref_id ∷ [];
    next_seq = log.next_seq + 1;
  }

  unfoldable pub verify_from : Text → ℕ → List AuditLogRow → ℕ × Option ℕ
  unfolding row_hash text_eq
  verify_from expected_prev checked [] = (checked, none)
  verify_from expected_prev checked (row ∷ rows) =
      let rest = verify_from row.hash (checked + 1) rows in
      if not (text_eq row.prev_hash expected_prev)
        || not (text_eq row.hash (row_hash expected_prev row))
      then (checked, some row.seq)
      else rest

  unfoldable pub verify_chain : AuditLog → ℕ × Option ℕ
  unfolding verify_from
  verify_chain log = verify_from genesis 0 log.rows
