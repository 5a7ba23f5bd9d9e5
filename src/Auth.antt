-- ===== src/Auth.antt =====
-- apps/pkg/utils/jwt.go and crypto.go, with the check of the token in Handler of
-- apps/gateway/ws/handler.go. Signing and bcrypt are interfaces, with what their documentation says.
-- Clocks read nanoseconds; the times in a token are whole seconds.
use go_im_system.Prelude.{
  ◌-◌, ℕ, ◌+◌, ◌*◌, ◌/◌, ◌%◌, ◌^◌, ◌<◌, ◌≡◌, refl, Bool, true, false, not, List, [], ◌∷◌, ◌++◌,
  Option, none, some, ℤ, ltb, if◌then◌else◌,
}
use go_im_system.Text.{Text, codes}
use go_im_system.Logic.Users.{Accounts}
use go_im_system.Logic.Messages.{Messages}
use go_im_system.Gateway.Pool.{Pool}
use go_im_system.Gateway.Session
use go_im_system.Gateway.Session.{OpenFaults, Opened}
pub mod Expiry

pub record CustomClaims : Type 0 where
  pub user_id : ℤ
  pub expires_at : ℕ
  pub issued_at : ℕ
  pub issuer : Text

-- What reading a token gives: its claims, or an error, of which one is told apart.
pub data Parsed : Type 0 where
  valid : CustomClaims → Parsed
  expired : Parsed
  malformed : Parsed

abbrev pub second : ℕ
second = 10 ^ 9

-- A token is expired once the clock has reached its time.
abbrev pub verified : ℕ → CustomClaims → Parsed
verified now c = if ltb now (c.expires_at * second) then valid c else expired

-- Tokens signed under a secret are read under it.
pub record Jwt : Type 0 where
  pub sign : CustomClaims → Text → Option Text
  pub parse : Text → Text → ℕ → Parsed
  pub parse-sign :
      (c : CustomClaims) (secret token : Text) (now : ℕ)
      → sign c secret ≡ some token
      → parse token secret now ≡ verified now c

-- `compare` says whether the hash is one of the password.
pub record Bcrypt : Type 0 where
  pub generate_from_password : Text → Option Text
  pub compare : Text → Text → Bool
  pub compare-generate : (p h : Text) → generate_from_password p ≡ some h → compare h p ≡ true

abbrev pub jwt_secret : Text
jwt_secret = codes "go-im-system-super-secret-key-2026"

abbrev pub lifetime : ℕ
lifetime = 7 * 24 * 3600 * second

abbrev pub claims_at : ℕ → ℤ → CustomClaims
claims_at now user = record {
  user_id = user;
  expires_at = (now + lifetime) / second;
  issued_at = now / second;
  issuer = codes "go-im-gateway";
}

-- The user, or an error.
pub data Identity : Type 0 where
  user : ℤ → Identity
  refused : Text → Identity

abbrev pub identity_of : Parsed → Identity
identity_of (valid c) = user c.user_id
identity_of expired = refused (codes "token 已过期，请重新登录")
identity_of malformed = refused (codes "无效的 token")

module _ (j : Jwt) where
  -- One reading of the clock stands for both; they agree up to the time of the call.
  unfoldable pub generate_token : ℕ → ℤ → Option Text
  generate_token now id = j.sign (claims_at now id) jwt_secret

  unfoldable pub parse_token : ℕ → Text → Identity
  parse_token now token = identity_of (j.parse token jwt_secret now)

  abbrev pub identified : Identity → Option ℤ
  identified (user id) = some id
  identified (refused e) = none

  -- The user that a query's token names, if there is one; an empty token is a missing one.
  unfoldable pub token_user : ℕ → Text → Option ℤ
  unfolding parse_token
  token_user now [] = none
  token_user now (c ∷ t) = identified (parse_token now (c ∷ t))

  -- `Handler`, from the token on.
  unfoldable pub open_session : OpenFaults → Text → ℕ → ℕ → Text → Pool → List Messages → Opened
  open_session f gateway now clock token p t =
      Session.handler f gateway now (token_user clock token) p t

module _ (b : Bcrypt) where
  abbrev pub hash_password : Text → Option Text
  hash_password p = b.generate_from_password p

  abbrev pub check_password_hash : Text → Text → Bool
  check_password_hash p h = b.compare h p

-- The interface that registration and login use, at a reading of the clock.
abbrev pub accounts_at :
    (j : Jwt) (b : Bcrypt) (same : Text → Text → Bool)
    → ((t : Text) → same t t ≡ true)
    → ℕ
    → Accounts
accounts_at j b same same_refl now = record {
  Token = Text;
  hash_password = hash_password b;
  check_password_hash = check_password_hash b;
  generate_token = generate_token j now;
  same_name = same;
  check-hash = b.compare-generate;
  same_refl = same_refl;
}

-- `hex.EncodeToString`.
abbrev pub hex_digit : ℕ → ℕ
hex_digit n = if ltb n 10 then b'0' + n else b'a' + n - 10

unfoldable pub hex : List ℕ → Text
hex [] = []
hex (b ∷ bs) = hex_digit (b / 16 % 16) ∷ (hex_digit (b % 16) ∷ hex bs)

-- `digest` is the sum of the md5 package.
unfoldable pub md5 : (Text → List ℕ) → Text → Text
unfolding hex
md5 digest t = hex (digest t)
