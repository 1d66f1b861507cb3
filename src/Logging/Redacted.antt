-- ===== src/Logging/Redacted.antt =====
-- src/app/observability/logging.py: what redaction does to a log event.
use sentraxis.Prelude.{
  ◌≡◌, refl, ap, ◌∙◌, sym, subst, inl, inr, Bool, true, false, Option, none, some, List, [], ◌∷◌,
  Text, text_eq, text_eq_refl, All, Bool-cases, if◌then◌else◌,
}
use mathlib.Core.Option
use sentraxis.Logging.{
  Value, dict, list, tuple, text, object, EventDict, end, item, Values, nil, cons, redacted, keys,
  get_item, set_item, is_sensitive, redact_value, redact_items, redact_each, replace_with,
  redact_key, redact_next, redact_keys, redact_sensitive,
}

if_true : {A : Type 0} {b : Bool} (s t : A) → b ≡ true → (if b then s else t) ≡ s
if_true s t e = rw e refl

if_false : {A : Type 0} {b : Bool} (s t : A) → b ≡ false → (if b then s else t) ≡ t
if_false s t e = rw e refl

abbrev pub IsAbsent : Text → List Text → Type 0
IsAbsent k ks = All (λ k'. text_eq k' k ≡ false) ks

-- The keys of a Python dict.
abbrev pub AreDistinct : List Text → Type 0
AreDistinct [] = Unit
AreDistinct (k ∷ ks) = IsAbsent k ks × AreDistinct ks

module _ (lower : Text → Text) where
  -- No sensitive key, at any depth, has another value than the replacement.
  abbrev mutual
    pub IsClean : EventDict → Type 0
    IsClean end = Unit
    IsClean (item k v rest) =
        (is_sensitive lower k ≡ true → v ≡ redacted) × IsCleanValue v × IsClean rest

    pub IsCleanValue : Value → Type 0
    IsCleanValue (dict d) = IsClean d
    IsCleanValue (list vs) = AreClean vs
    IsCleanValue (tuple vs) = AreClean vs
    IsCleanValue (text t) = Unit
    IsCleanValue (object n) = Unit

    pub AreClean : Values → Type 0
    AreClean nil = Unit
    AreClean (cons v vs) = IsCleanValue v × AreClean vs

  item-IsClean :
      (s b : Bool) (v : Value)
      → s ≡ b
      → IsCleanValue v
      → (s ≡ true → (if b then redacted else v) ≡ redacted)
        × IsCleanValue (if b then redacted else v)
  item-IsClean s true v e c = (λ _. refl, _)
  item-IsClean s false v e c = (λ t. cc, c)

  item-again :
      (b : Bool) (v : Value)
      → redact_value lower v ≡ v
      → (if b then redacted else redact_value lower (if b then redacted else v))
        ≡ (if b then redacted else v)
  item-again true v e = refl
  item-again false v e = e

  mutual
    unfolding redact_value

    redact_value-IsClean : (v : Value) → IsCleanValue (redact_value lower v)
    redact_value-IsClean (dict d) = redact_items-IsClean d
    redact_value-IsClean (list vs) = redact_each-IsClean vs
    redact_value-IsClean (tuple vs) = redact_each-IsClean vs
    redact_value-IsClean (text t) = _
    redact_value-IsClean (object n) = _

    redact_items-IsClean : (d : EventDict) → IsClean (redact_items lower d)
    redact_items-IsClean end = _
    redact_items-IsClean (item k v rest) =
        let (a, b) =
          item-IsClean (is_sensitive lower k) (is_sensitive lower k) (redact_value lower v) refl
            (redact_value-IsClean v) in
        (a, b, redact_items-IsClean rest)

    redact_each-IsClean : (vs : Values) → AreClean (redact_each lower vs)
    redact_each-IsClean nil = _
    redact_each-IsClean (cons v vs) = (redact_value-IsClean v, redact_each-IsClean vs)

  mutual
    unfolding redact_value

    redact_value-redact_value :
        (v : Value) → redact_value lower (redact_value lower v) ≡ redact_value lower v
    redact_value-redact_value (dict d) = ap dict (redact_items-redact_items d)
    redact_value-redact_value (list vs) = ap list (redact_each-redact_each vs)
    redact_value-redact_value (tuple vs) = ap list (redact_each-redact_each vs)
    redact_value-redact_value (text t) = refl
    redact_value-redact_value (object n) = refl

    redact_items-redact_items :
        (d : EventDict) → redact_items lower (redact_items lower d) ≡ redact_items lower d
    redact_items-redact_items end = refl
    redact_items-redact_items (item k v rest) = rw (redact_items-redact_items rest) (
        ap (λ w. item k w (redact_items lower rest))
          (item-again (is_sensitive lower k) (redact_value lower v) (redact_value-redact_value v)))

    redact_each-redact_each :
        (vs : Values) → redact_each lower (redact_each lower vs) ≡ redact_each lower vs
    redact_each-redact_each nil = refl
    redact_each-redact_each (cons v vs) =
        rw (redact_value-redact_value v, redact_each-redact_each vs) refl

  keys-redact_items : (d : EventDict) → keys (redact_items lower d) ≡ keys d
  unfolding keys redact_value
  keys-redact_items end = refl
  keys-redact_items (item k v rest) = ap (λ ks. k ∷ ks) (keys-redact_items rest)

  replace_with-skips :
      (k k' : Text) (v : Value) (d : EventDict) (o : Option Value)
      → text_eq k k' ≡ false
      → replace_with lower k (item k' v d) o ≡ Option.map (item k' v) (replace_with lower k d o)
  unfolding replace_with set_item
  replace_with-skips k k' v d none e = refl
  replace_with-skips k k' v d (some w) e = ap some (if_false _ _ e)

  redact_key-skips :
      (k k' : Text) (v : Value) (d : EventDict)
      → text_eq k k' ≡ false
      → redact_key lower k (item k' v d) ≡ Option.map (item k' v) (redact_key lower k d)
  unfolding redact_key get_item set_item
  redact_key-skips k k' v d e = elim (Bool-cases (is_sensitive lower k)) [
    | inl s ↦ rw s (ap some (if_false _ _ e))
    | inr s ↦ rw s (
        ap (replace_with lower k (item k' v d)) (if_false (some v) (get_item k d) e)
        ∙ replace_with-skips k k' v d (get_item k d) e)
  ]

  redact_keys-skips :
      (ks : List Text) (k' : Text) (v : Value) (o : Option EventDict)
      → All (λ k. text_eq k k' ≡ false) ks
      → redact_keys lower ks (Option.map (item k' v) o)
        ≡ Option.map (item k' v) (redact_keys lower ks o)
  unfolding redact_keys redact_next
  redact_keys-skips [] k' v o a = refl
  redact_keys-skips (k ∷ ks) k' v none (e, a) = redact_keys-skips ks k' v none a
  redact_keys-skips (k ∷ ks) k' v (some d) (e, a) =
      ap (redact_keys lower ks) (redact_key-skips k k' v d e)
      ∙ redact_keys-skips ks k' v (redact_key lower k d) a

  redact_key-first :
      (k : Text) (v : Value) (d : EventDict)
      → redact_key lower k (item k v d)
        ≡ some (item k (if is_sensitive lower k then redacted else redact_value lower v) d)
  unfolding redact_key get_item set_item replace_with
  redact_key-first k v d = elim (Bool-cases (is_sensitive lower k)) [
    | inl s ↦ rw (s, text_eq_refl k) refl
    | inr s ↦ rw (s, text_eq_refl k) (ap some (if_true _ _ (text_eq_refl k)))
  ]

  -- On distinct keys the loop does what the comprehension does.
  redact_keys-eq-redact_items :
      (d : EventDict)
      → AreDistinct (keys d)
      → redact_keys lower (keys d) (some d) ≡ some (redact_items lower d)
  unfolding keys redact_keys redact_next redact_value
  redact_keys-eq-redact_items end a = refl
  redact_keys-eq-redact_items (item k v rest) (e, a) =
      let w = if is_sensitive lower k then redacted else redact_value lower v in
      ap (redact_keys lower (keys rest)) (redact_key-first k v rest)
      ∙ redact_keys-skips (keys rest) k w (some rest) e
      ∙ ap (Option.map (item k w)) (redact_keys-eq-redact_items rest a)

  -- Redacting an event with distinct keys does not raise: it answers an event with the same keys in
  -- order, in which no sensitive key has, at any depth, another value than the replacement, and which
  -- redacting again leaves as it is.
  pub redact_sensitive-IsClean :
      (d : EventDict)
      → AreDistinct (keys d)
      → (out : EventDict) × (redact_sensitive lower d ≡ some out)
        × (keys out ≡ keys d)
        × IsClean out
        × (redact_sensitive lower out ≡ some out)
  unfolding redact_sensitive
  redact_sensitive-IsClean d a =
      let out = redact_items lower d in
      (
        out,
        redact_keys-eq-redact_items d a,
        keys-redact_items d,
        redact_items-IsClean d,
        redact_keys-eq-redact_items out (subst AreDistinct (sym (keys-redact_items d)) a)
            ∙ ap some (redact_items-redact_items d),
      )
