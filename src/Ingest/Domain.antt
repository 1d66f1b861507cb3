-- ===== src/Ingest/Domain.antt =====
-- The validation of src/app/domain/events.py, behind pydantic's reading of the JSON by the types of
-- the fields. A raw stamp is a local time in microseconds from the first that a datetime can be,
-- with its offset to UTC, if it has one.
use sentraxis.Prelude.{
  ℕ, ◌+◌, ◌-◌, Bool, true, false, ◌&&◌, Option, none, some, [], ◌∷◌, Text, ℤ, pos, negsuc, leb, ltb,
  if◌then◌else◌, length,
}
use sentraxis.Audit.{Fields}
use sentraxis.Ingest.Repository.{
  EntityType, host, user, subnet, EntityRef, Parsed, malformed, overflowing, parsed,
}

pub data Protocol : Type 0 where
  tcp udp icmp : Protocol

pub data Offset : Type 0 where
  east west : ℕ → Offset

pub record RawRef : Type 0 where
  pub type' : EntityType
  pub identifier : Text

-- A duration is an integer number of microseconds.
pub record NetworkFlowFeatures : Type 0 where
  pub protocol : Protocol
  pub src_port : ℤ
  pub dst_port : ℤ
  pub duration_s : ℤ
  pub src_bytes : ℤ
  pub dst_bytes : ℤ
  pub src_pkts : ℤ
  pub dst_pkts : ℤ
  pub conn_state : Text

pub record RawEvent : Type 0 where
  pub event_id : ℕ
  pub source : Text
  pub local_ts : ℕ
  pub tzinfo : Option Offset
  pub src_entity : RawRef
  pub dst_entity : Option RawRef
  pub ground_truth_label : Option Bool
  pub features : NetworkFlowFeatures

-- `datetime.max`
abbrev pub max_stamp : ℕ
max_stamp = 315_537_897_599_999_999

-- `_to_utc`; `none` is the OverflowError of `astimezone`.
unfoldable pub to_utc : ℕ → Option Offset → Option ℕ
to_utc value none = some value
to_utc value (some (east n)) = if ltb value n then none else some (value - n)
to_utc value (some (west n)) = if ltb max_stamp (value + n) then none else some (value + n)

-- `Field(ge=0)` and `Field(ge=0, le=65535)`
unfoldable pub is_nonneg : ℤ → Bool
is_nonneg (pos n) = true
is_nonneg (negsuc n) = false

unfoldable pub is_port : ℤ → Bool
is_port (pos n) = leb n 65535
is_port (negsuc n) = false

unfoldable pub are_valid : NetworkFlowFeatures → Bool
are_valid f =
    is_port f.src_port
    && (is_port f.dst_port
        && (is_nonneg f.duration_s
            && (is_nonneg f.src_bytes
                && (is_nonneg f.dst_bytes
                    && (is_nonneg f.src_pkts
                        && (is_nonneg f.dst_pkts
                            && (leb 1 (length f.conn_state) && leb (length f.conn_state) 16)))))))

-- `str.strip`, `str.lower`, and `str(ipaddress.ip_address(value))`, which is `none` where it raises;
-- `dump` gives the features as the event's fields.
module _ (strip lower : Text → Text) (ip_address : Text → Option Text)
    (dump : NetworkFlowFeatures → Fields) where
  unfoldable pub host_name : Text → Option Text → Text
  host_name value none = lower value
  host_name value (some canonical) = canonical

  unfoldable pub normalize_host_identifier : Text → Option Text
  normalize_host_identifier raw = elim (strip raw) [
    | [] ↦ none
    | ◌∷◌ c cs ↦ some (host_name (c ∷ cs) (ip_address (c ∷ cs)))
  ]

  unfoldable pub normalize_name : Text → Option Text
  normalize_name raw = elim (strip raw) [ [] ↦ none | ◌∷◌ c cs ↦ some (lower (c ∷ cs)) ]

  -- `EntityRef._normalize`
  unfoldable pub normalize : EntityType → Text → Option Text
  normalize host value = normalize_host_identifier value
  normalize user value = normalize_name value
  normalize subnet value = normalize_name value

  unfoldable pub validate_ref : RawRef → Option EntityRef
  validate_ref r = elim (normalize r.type' r.identifier) [
    | none ↦ none
    | some name ↦ some (record { type' = r.type'; identifier = name })
  ]

  -- `EntityRef | None`: the outer option tells of a failure.
  unfoldable pub validate_dst : Option RawRef → Option (Option EntityRef)
  validate_dst none = some none
  validate_dst (some r) = elim (validate_ref r) [ none ↦ none | some ref ↦ some (some ref) ]

  unfoldable pub event_of :
      RawEvent → ℕ → Option EntityRef → Option (Option EntityRef) → Bool → Parsed
  event_of raw ts (some src) (some dst) true = parsed (record {
    event_id = raw.event_id;
    ts = ts;
    source = raw.source;
    src_entity = src;
    dst_entity = dst;
    ground_truth_label = raw.ground_truth_label;
    features = dump raw.features;
  })
  event_of raw ts _ _ _ = malformed

  -- `CanonicalEvent.model_validate_json`, as `parse_event_payload` uses it: any error that pydantic
  -- collects is one refusal; an OverflowError is none of them and escapes.
  unfoldable pub parse_event_payload : RawEvent → Parsed
  parse_event_payload raw = elim (to_utc raw.local_ts raw.tzinfo) [
    | none ↦ overflowing
    | some ts ↦
        event_of raw ts (validate_ref raw.src_entity) (validate_dst raw.dst_entity)
          (are_valid raw.features)
  ]
