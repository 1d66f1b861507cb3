-- ===== src/Api/Auth.antt =====
-- src/app/api/deps.py, src/app/api/auth.py and src/app/security.py: who a request is from. PyJWT,
-- argon2 and str.strip are the fields of `Libraries`; a stamp is a number of seconds.
use sentraxis.Prelude.{
  ℕ, ◌+◌, ◌*◌, Bool, not, ◌&&◌, Option, none, some, List, [], ◌∷◌, String, Text, codes, take, any,
  find_first, leb, text_eq, ◌==◌, str_eq, if◌then◌else◌,
}

pub record UserRow : Type 0 where
  pub id : ℕ
  pub email : String
  pub password_hash : String
  pub role : String
  pub disabled : Bool

-- The payload of a token; `sub` is `none` where it is missing or no text.
pub record Claims : Type 0 where
  pub sub : Option String
  pub role : String
  pub iat : ℕ
  pub exp : ℕ

pub record Libraries : Type 0 where
  -- `jwt.encode` with the configured secret
  pub encode : Claims → Text
  -- `jwt.decode` at a time; `none` is any PyJWTError
  pub decode : ℕ → Text → Option Claims
  -- argon2's `verify`, with the two exceptions read as false
  pub verify_password : String → String → Bool
  pub strip : Text → Text

-- An HTTPException with its status and detail.
pub record HttpError : Type 0 where
  pub status : ℕ
  pub detail : String

pub data Checked {ℓ} (A : Type ℓ) : Type ℓ where
  granted : A → Checked A
  refused : HttpError → Checked A

infixl 5 ◌>>=◌ ◌>>◌
abbrev pub ◌>>=◌ {ℓ κ} : {A : Type ℓ} {B : Type κ} → Checked A → (A → Checked B) → Checked B
granted a >>= f = f a
refused e >>= f = refused e

abbrev pub ◌>>◌ {ℓ} : {B : Type ℓ} → Checked (Unit {0}) → Checked B → Checked B
m >> k = m >>= λ _. k

unfoldable pub unauthorized : String → HttpError
unauthorized detail = record { status = 401; detail = detail }

-- `str.lower` on an ASCII character.
unfoldable pub lower : ℕ → ℕ
lower c = if leb b'A' c && leb c b'Z' then c + 32 else c

abbrev pub lower_all : Text → Text
lower_all [] = []
lower_all (c ∷ cs) = lower c ∷ lower_all cs

-- `.lower().startswith("bearer ")`
unfoldable pub has_bearer : Text → Bool
has_bearer header = text_eq (lower_all (take 7 header)) (codes "bearer ")

-- `.split(" ", 1)[1]`
unfoldable pub after_space : Text → Text
after_space [] = []
after_space (c ∷ cs) = if c == b' ' then cs else after_space cs

-- `UserRow.email == email, UserRow.disabled.is_(False)`, `.first()`
unfoldable pub find_user : String → List UserRow → Option UserRow
find_user email users = find_first (λ u. str_eq u.email email && not u.disabled) users

unfoldable pub or_refuse {ℓ} : {A : Type ℓ} → Option A → String → Checked A
unfolding unauthorized
or_refuse none detail = refused (unauthorized detail)
or_refuse (some a) detail = granted a

-- The detail is kept without the list of roles.
unfoldable pub require_roles : List String → UserRow → Checked UserRow
require_roles allowed user =
    if any (str_eq user.role) allowed
    then granted user
    else refused (record { status = 403; detail = "Requires one of roles" })

abbrev pub approver_or_admin : List String
approver_or_admin = "admin" ∷ "approver" ∷ []

module _ (lib : Libraries) where
  -- `authorization` is the header's text, "" where it is missing.
  unfoldable pub get_current_user : ℕ → List UserRow → Text → Checked UserRow
  get_current_user now users authorization =
      if has_bearer authorization
      then (do
        payload ←
            or_refuse (lib.decode now (lib.strip (after_space authorization)))
              "Invalid or expired token"
        email ← or_refuse payload.sub "Invalid token subject"
        or_refuse (find_user email users) "Unknown user")
      else refused (unauthorized "Not authenticated")

  unfoldable pub create_access_token : ℕ → ℕ → String → String → Text
  create_access_token now expire_minutes subject role =
      lib.encode
        (record { sub = some subject; role = role; iat = now; exp = now + expire_minutes * 60 })

  -- `POST /auth/token`: the token and the role.
  unfoldable pub login : ℕ → ℕ → List UserRow → String → String → Checked (Text × String)
  login now expire_minutes users username password = do
    user ← or_refuse (find_user username users) "Incorrect email or password"
    (if lib.verify_password password user.password_hash
        then granted (create_access_token now expire_minutes user.email user.role, user.role)
        else refused (unauthorized "Incorrect email or password"))
