-- ===== src/Ingest/Normal.antt =====
-- Normal forms of identifiers, and what src/app/domain/events.py accepts.
use sentraxis.Prelude.{
  ℕ, ◌+◌, ◌≤◌, ◌≡◌, ◌≢◌, refl, ◌∙◌, inl, inr, sym, subst, ap, Bool, true, false, Option, none, some,
  [], ◌∷◌, Text, ℤ, pos, negsuc, length, arith, Option-cases,
}
use sentraxis.Audit.{Fields}
use sentraxis.Ingest.Repository.{
  EntityType, host, user, subnet, EntityRef, CanonicalEvent, parsed, overflowing,
}
use sentraxis.Ingest.Domain.{
  Offset, east, west, max_stamp, RawRef, NetworkFlowFeatures, RawEvent, to_utc, is_port, are_valid,
  host_name, normalize_host_identifier, normalize_name, normalize, validate_ref, validate_dst,
  event_of, parse_event_payload,
}

-- A port number.
abbrev pub IsPort : ℤ → Type 0
IsPort z = (n : ℕ) × (z ≡ pos n) × (n ≤ 65535)

is_port-IsPort : (z : ℤ) → is_port z ≡ true → IsPort z
unfolding is_port
is_port-IsPort (pos n) h = (n, refl, ground arith)
is_port-IsPort (negsuc n) h = cc

are_valid-ports :
    (f : NetworkFlowFeatures)
    → are_valid f ≡ true
    → IsPort f.src_port × IsPort f.dst_port × (1 ≤ length f.conn_state) × (length f.conn_state ≤ 16)
unfolding are_valid
are_valid-ports f h = (
  is_port-IsPort f.src_port (ground arith),
  is_port-IsPort f.dst_port (ground arith),
  ground arith,
  ground arith,
)

-- The time in UTC and the offset add up to the local time.
abbrev pub Names : ℕ → Option Offset → ℕ → Type 0
Names local none utc = utc ≡ local
Names local (some (east n)) utc = utc + n ≡ local
Names local (some (west n)) utc = utc ≡ local + n

to_utc-Names :
    (local : ℕ) (tz : Option Offset) (utc : ℕ)
    → local ≤ max_stamp
    → to_utc local tz ≡ some utc
    → Names local tz utc × (utc ≤ max_stamp)
unfolding to_utc
to_utc-Names local none utc l e = (ground arith, ground arith)
to_utc-Names local (some (east n)) utc l e = (ground arith, ground arith)
to_utc-Names local (some (west n)) utc l e = (ground arith, ground arith)

equal : {a b : Text} → some a ≡ some b → a ≡ b
equal e = cc

nothing : {o : Option Text} {s : Text} → o ≡ none → o ≡ some s → ⊥
nothing e h = cc

-- The texts: stripping and lowering twice is doing it once, lowering adds no blanks at the ends and
-- no address, and is empty only for the empty text; of an address without blanks at its ends the
-- canonical form is one too, has no such blanks, and is its own canonical form.
module _ (strip lower : Text → Text) (ip_address : Text → Option Text)
    (dump : NetworkFlowFeatures → Fields) (strip-strip : (t : Text) → strip (strip t) ≡ strip t)
    (strip-lower : (t : Text) → strip t ≡ t → strip (lower t) ≡ lower t)
    (lower-lower : (t : Text) → lower (lower t) ≡ lower t)
    (lower_some : (t : Text) → lower t ≡ [] → t ≡ [])
    (ip_address-lower : (t : Text) → ip_address t ≡ none → ip_address (lower t) ≡ none)
    (ip_address-canonical : (t s : Text)
      → strip t ≡ t
      → ip_address t ≡ some s
      → (strip s ≡ s) × (s ≢ []) × (ip_address s ≡ some s)) where
  normalize_host_identifier-eq :
      (t v : Text)
      → strip t ≡ v
      → v ≢ []
      → normalize_host_identifier strip lower ip_address dump t
        ≡ some (host_name strip lower ip_address dump v (ip_address v))
  unfolding normalize_host_identifier
  normalize_host_identifier-eq t [] e some' = absurd (some' refl)
  normalize_host_identifier-eq t (c ∷ cs) e some' = rw (e, normalize_host_identifier) refl

  normalize_name-eq :
      (t v : Text)
      → strip t ≡ v
      → v ≢ []
      → normalize_name strip lower ip_address dump t ≡ some (lower v)
  unfolding normalize_name
  normalize_name-eq t [] e some' = absurd (some' refl)
  normalize_name-eq t (c ∷ cs) e some' = rw (e, normalize_name) refl

  -- An identifier that normalization leaves as it is.
  abbrev pub IsNormal : EntityRef → Type 0
  IsNormal r = normalize strip lower ip_address dump r.type' r.identifier ≡ some r.identifier

  lower-normal : (v : Text) → v ≢ [] → lower v ≢ []
  lower-normal v some' e = some' (lower_some v e)

  host-again :
      (v : Text) (o : Option Text)
      → ip_address v ≡ o
      → strip v ≡ v
      → v ≢ []
      → let s = host_name strip lower ip_address dump v o in
        normalize_host_identifier strip lower ip_address dump s ≡ some s
  unfolding host_name
  host-again v none e stripped some' =
      normalize_host_identifier-eq (lower v) (lower v) (strip-lower v stripped)
        (lower-normal v some')
      ∙ ap (λ o. some (host_name strip lower ip_address dump (lower v) o)) (ip_address-lower v e)
      ∙ ap some (lower-lower v)
  host-again v (some s) e stripped some' =
      let (a, b, c) = ip_address-canonical v s stripped e in
      normalize_host_identifier-eq s s a b
      ∙ ap (λ o. some (host_name strip lower ip_address dump s o)) c

  name-again :
      (v : Text)
      → strip v ≡ v
      → v ≢ []
      → normalize_name strip lower ip_address dump (lower v) ≡ some (lower v)
  name-again v stripped some' =
      normalize_name-eq (lower v) (lower v) (strip-lower v stripped) (lower-normal v some')
      ∙ ap some (lower-lower v)

  some-same : (t v : Text) → strip t ≡ v → strip v ≡ v
  some-same t v e = subst (λ x. strip x ≡ x) e (strip-strip t)

  host-IsNormal :
      (t v s : Text)
      → strip t ≡ v
      → normalize_host_identifier strip lower ip_address dump t ≡ some s
      → normalize_host_identifier strip lower ip_address dump s ≡ some s
  unfolding normalize_host_identifier
  host-IsNormal t [] s e h = absurd (nothing (rw (e, normalize_host_identifier) refl) h)
  host-IsNormal t (c ∷ cs) s e h =
      let v = c ∷ cs in
      let same = normalize_host_identifier-eq t v e (λ q. cc) in
      subst (λ x. normalize_host_identifier strip lower ip_address dump x ≡ some x)
        (equal (sym same ∙ h)) (host-again v (ip_address v) refl (some-same t v e) (λ q. cc))

  name-IsNormal :
      (t v s : Text)
      → strip t ≡ v
      → normalize_name strip lower ip_address dump t ≡ some s
      → normalize_name strip lower ip_address dump s ≡ some s
  unfolding normalize_name
  name-IsNormal t [] s e h = absurd (nothing (rw (e, normalize_name) refl) h)
  name-IsNormal t (c ∷ cs) s e h =
      let v = c ∷ cs in
      let same = normalize_name-eq t v e (λ q. cc) in
      subst (λ x. normalize_name strip lower ip_address dump x ≡ some x) (equal (sym same ∙ h))
        (name-again v (some-same t v e) (λ q. cc))

  normalize-again :
      (k : EntityType) (t s : Text)
      → normalize strip lower ip_address dump k t ≡ some s
      → normalize strip lower ip_address dump k s ≡ some s
  unfolding normalize
  normalize-again host t s h = host-IsNormal t (strip t) s refl h
  normalize-again user t s h = name-IsNormal t (strip t) s refl h
  normalize-again subnet t s h = name-IsNormal t (strip t) s refl h

  validate_ref-IsNormal :
      (r : RawRef) (e : EntityRef)
      → validate_ref strip lower ip_address dump r ≡ some e
      → IsNormal e
  unfolding validate_ref
  validate_ref-IsNormal r e h =
      elim (Option-cases (normalize strip lower ip_address dump r.type' r.identifier)) [
        | inl q ↦ absurd (ground arith)
        | inr (name, q) ↦
            subst IsNormal (same name q h) (normalize-again r.type' r.identifier name q)
      ]
    where
      same :
          (name : Text)
          → normalize strip lower ip_address dump r.type' r.identifier ≡ some name
          → validate_ref strip lower ip_address dump r ≡ some e
          → record { type' = r.type'; identifier = name } ≡ e
      same name q p = cc

  abbrev pub AreNormal : Option EntityRef → Type 0
  AreNormal none = Unit
  AreNormal (some r) = IsNormal r

  validate_dst-AreNormal :
      (r : Option RawRef) (d : Option EntityRef)
      → validate_dst strip lower ip_address dump r ≡ some d
      → AreNormal d
  unfolding validate_dst
  validate_dst-AreNormal none d h = subst AreNormal (inner none d h) tt
    where
      inner : (a b : Option EntityRef) → some a ≡ some b → a ≡ b
      inner a b p = cc
  validate_dst-AreNormal (some r) d h =
      elim (Option-cases (validate_ref strip lower ip_address dump r)) [
        | inl q ↦ absurd (ground arith)
        | inr (e, q) ↦ subst AreNormal (same e q h) (validate_ref-IsNormal r e q)
      ]
    where
      same :
          (e : EntityRef)
          → validate_ref strip lower ip_address dump r ≡ some e
          → validate_dst strip lower ip_address dump (some r) ≡ some d
          → some e ≡ d
      same e q p = cc

  -- An accepted event has a stamp of at most datetime.max that its local time and offset name, normal identifiers at both ends, so that normalizing them
  -- again changes nothing, port numbers up to 65535, and a connection state of 1 to 16 characters.
  abbrev pub IsCanonical : RawEvent → CanonicalEvent → Type 0
  IsCanonical raw e =
      Names raw.local_ts raw.tzinfo e.ts
      × (e.ts ≤ max_stamp)
      × IsNormal e.src_entity
      × AreNormal e.dst_entity
      × IsPort raw.features.src_port
      × IsPort raw.features.dst_port
      × (1 ≤ length raw.features.conn_state)
      × (length raw.features.conn_state ≤ 16)

  event_of-IsCanonical :
      (raw : RawEvent) (ts : ℕ) (src : Option EntityRef) (dst : Option (Option EntityRef))
      (ok : Bool) (e : CanonicalEvent)
      → ((r : EntityRef) → src ≡ some r → IsNormal r)
      → ((d : Option EntityRef) → dst ≡ some d → AreNormal d)
      → are_valid raw.features ≡ ok
      → Names raw.local_ts raw.tzinfo ts
      → ts ≤ max_stamp
      → event_of strip lower ip_address dump raw ts src dst ok ≡ parsed e
      → IsCanonical raw e
  unfolding event_of
  event_of-IsCanonical raw ts none dst ok e s d v n m h = cc
  event_of-IsCanonical raw ts (some src) none ok e s d v n m h = cc
  event_of-IsCanonical raw ts (some src) (some dst) false e s d v n m h = cc
  event_of-IsCanonical raw ts (some src) (some dst) true e s d v n m h =
      let (a, b, c, l) = are_valid-ports raw.features v in
      subst (IsCanonical raw) (same h) (n, m, s src refl, d dst refl, a, b, c, l)
    where
      same : {x y : CanonicalEvent} → parsed x ≡ parsed y → x ≡ y
      same p = cc

  -- An event that is accepted has as its stamp the time in UTC that the local time and the offset name,
  -- at most datetime.max, identifiers at both ends that normalizing again leaves as they are, port
  -- numbers up to 65535 and a connection state of 1 to 16 characters, if the local time is at most
  -- datetime.max and strip, lower and ip_address obey their laws.
  pub parse_event_payload-IsCanonical :
      (raw : RawEvent) (e : CanonicalEvent)
      → raw.local_ts ≤ max_stamp
      → parse_event_payload strip lower ip_address dump raw ≡ parsed e
      → IsCanonical raw e
  unfolding parse_event_payload
  parse_event_payload-IsCanonical raw e local h =
      elim (Option-cases (to_utc raw.local_ts raw.tzinfo)) [
        | inl late ↦ absurd (escaped (rw (late, parse_event_payload) at h))
        | inr (ts, utc) ↦
            let (n, m) = to_utc-Names raw.local_ts raw.tzinfo ts local utc in
            event_of-IsCanonical raw ts (validate_ref strip lower ip_address dump raw.src_entity)
              (validate_dst strip lower ip_address dump raw.dst_entity) (are_valid raw.features) e
              (validate_ref-IsNormal raw.src_entity) (validate_dst-AreNormal raw.dst_entity) refl n
              m (rw (utc, parse_event_payload) at h)
      ]
    where
      escaped : overflowing ≡ parsed e → ⊥
      escaped q = cc
