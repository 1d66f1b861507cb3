-- ===== src/Logging/Tests.antt =====
-- A log event with secrets at two depths, and the theorem at it.
use sentraxis.Prelude.{◌≡◌, refl, some, [], ◌∷◌, codes, text_eq}
use sentraxis.Api.Auth.{lower_all}
use sentraxis.Logging.{
  dict, tuple, text, object, EventDict, end, item, nil, cons, keys, redact_sensitive,
}
use sentraxis.Logging.Redacted.{IsClean, redact_sensitive-IsClean}

abbrev credentials : EventDict
credentials =
    item (codes "user") (text (codes "ada")) (item (codes "PASSWORD") (text (codes "hunter2")) end)

abbrev login_event : EventDict
login_event = item (codes "event") (text (codes "login")) (
    item (codes "Token") (object 7) (item (codes "args") (tuple (cons (dict credentials) nil)) end))

redact_sensitive-IsClean_example :
    (out : EventDict) × (redact_sensitive lower_all login_event ≡ some out)
    × (keys out ≡ codes "event" ∷ codes "Token" ∷ codes "args" ∷ [])
    × IsClean lower_all out
    × (redact_sensitive lower_all out ≡ some out)
unfolding keys text_eq
redact_sensitive-IsClean_example =
    redact_sensitive-IsClean lower_all login_event ((refl, (refl, _)), ((refl, _), (_, _)))
