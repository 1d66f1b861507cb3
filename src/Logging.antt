-- ===== src/Logging.antt =====
-- src/app/observability/logging.py: the redaction of log events. A dict is its items in order, with
-- distinct keys that are texts; `str.lower` is a parameter.
pub mod Redacted
mod Tests
use sentraxis.Prelude.{
  ℕ, Bool, Option, none, some, List, [], ◌∷◌, Text, codes, text_eq, any, if◌then◌else◌,
}

-- Any other object is told apart by a number.
mutual
  pub data Value : Type 0 where
    dict : EventDict → Value
    list tuple : Values → Value
    text : Text → Value
    object : ℕ → Value

  pub data EventDict : Type 0 where
    end : EventDict
    item : Text → Value → EventDict → EventDict

  pub data Values : Type 0 where
    nil : Values
    cons : Value → Values → Values

abbrev pub sensitive_keys : List Text
sensitive_keys =
    codes "authorization"
    ∷ codes "proxy-authorization"
    ∷ codes "api_key"
    ∷ codes "apikey"
    ∷ codes "password"
    ∷ codes "secret"
    ∷ codes "token"
    ∷ codes "database_url"
    ∷ []

abbrev pub redacted : Value
redacted = text (codes "***REDACTED***")

-- `list(event_dict.keys())`
unfoldable pub keys : EventDict → List Text
keys end = []
keys (item k v rest) = k ∷ keys rest

-- `event_dict[key]`, `none` for a KeyError.
unfoldable pub get_item : Text → EventDict → Option Value
get_item k end = none
get_item k (item k' v rest) = if text_eq k k' then some v else get_item k rest

-- `event_dict[key] = value`
unfoldable pub set_item : Text → Value → EventDict → EventDict
set_item k v end = item k v end
set_item k v (item k' v' rest) =
    if text_eq k k' then item k' v rest else item k' v' (set_item k v rest)

module _ (lower : Text → Text) where
  unfoldable pub is_sensitive : Text → Bool
  is_sensitive k = any (text_eq (lower k)) sensitive_keys

  unfoldable mutual
    pub redact_value : Value → Value
    redact_value (dict d) = dict (redact_items d)
    redact_value (list vs) = list (redact_each vs)
    redact_value (tuple vs) = list (redact_each vs)
    redact_value (text t) = text t
    redact_value (object n) = object n

    -- The dict comprehension of `_redact_value`.
    pub redact_items : EventDict → EventDict
    redact_items end = end
    redact_items (item k v rest) =
        item k (if is_sensitive k then redacted else redact_value v) (redact_items rest)

    pub redact_each : Values → Values
    redact_each nil = nil
    redact_each (cons v vs) = cons (redact_value v) (redact_each vs)

  unfoldable pub replace_with : Text → EventDict → Option Value → Option EventDict
  replace_with k d none = none
  replace_with k d (some v) = some (set_item k (redact_value v) d)

  -- The body of the loop of `redact_sensitive`.
  unfoldable pub redact_key : Text → EventDict → Option EventDict
  redact_key k d =
      if is_sensitive k then some (set_item k redacted d) else replace_with k d (get_item k d)

  unfoldable pub redact_next : Text → Option EventDict → Option EventDict
  redact_next k none = none
  redact_next k (some d) = redact_key k d

  -- The loop of `redact_sensitive`, `none` once it has raised.
  unfoldable pub redact_keys : List Text → Option EventDict → Option EventDict
  redact_keys [] o = o
  redact_keys (k ∷ ks) o = redact_keys ks (redact_next k o)

  unfoldable pub redact_sensitive : EventDict → Option EventDict
  redact_sensitive d = redact_keys (keys d) (some d)
