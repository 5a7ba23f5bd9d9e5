-- ===== src/Tests/Logins.antt =====
-- A login, and a connection opened with its token.
use go_im_system.Prelude.{
  ◌*◌, subst, subst, zero, suc, ℕ, ◌+◌, ◌≤◌, ◌<◌, ◌≡◌, refl, true, false, [], ◌∷◌, some, ℤ, pos,
  negsuc, list_eq, list_eq_iff, list_Eq, nat_eq, arith, ltb, if◌then◌else◌,
}
use mathlib.Core.Option.{some_inj}
use go_im_system.Text.{Text, codes}
use go_im_system.Logic.Users.{User, user_login, find_user_by_name, find_row, logged_in}
use go_im_system.Gateway.Pool.{Pool}
use go_im_system.Gateway.Client.{new_client}
use go_im_system.Gateway.Session
use go_im_system.Gateway.Session.{OpenFaults, unauthorized}
use go_im_system.Auth.{
  Jwt, Bcrypt, CustomClaims, Parsed, verified, malformed, accounts_at, generate_token, open_session,
  lifetime, second, md5, hex,
}
use go_im_system.Auth.Expiry.{expiry, login-open}

-- Tokens that are not encrypted, and hashes with a salt before the password.
abbrev write_claims : ℤ → ℕ → ℕ → Text → Text
write_claims (pos n) e i t = 0 ∷ (n ∷ (e ∷ (i ∷ t)))
write_claims (negsuc n) e i t = 1 ∷ (n ∷ (e ∷ (i ∷ t)))

abbrev claims : ℤ → ℕ → ℕ → Text → CustomClaims
claims id e i t = record { user_id = id; expires_at = e; issued_at = i; issuer = t }

abbrev read_claims : ℕ → Text → Parsed
read_claims now (zero ∷ (n ∷ (e ∷ (i ∷ t)))) = verified now (claims (pos n) e i t)
read_claims now (suc k ∷ (n ∷ (e ∷ (i ∷ t)))) = verified now (claims (negsuc n) e i t)
read_claims now _ = malformed

read-written :
    (id : ℤ) (e i : ℕ) (t : Text) (now : ℕ)
    → read_claims now (write_claims id e i t) ≡ verified now (claims id e i t)
read-written (pos n) e i t now = refl
read-written (negsuc n) e i t now = refl

abbrev plain_jwt : Jwt
plain_jwt = record {
  sign = λ c k. some (write_claims c.user_id c.expires_at c.issued_at c.issuer);
  parse = λ token k now. read_claims now token;
  parse-sign = λ c k token now made.
      subst (λ t. read_claims now t ≡ verified now c) (some_inj.0 made)
        (read-written c.user_id c.expires_at c.issued_at c.issuer now);
}

some_salted : (p h : Text) → some (b'#' ∷ p) ≡ some h → list_eq h (b'#' ∷ p) ≡ true
some_salted p h e = ground (arith, e, list_eq_iff h (b'#' ∷ p))

abbrev salt : Bcrypt
salt = record {
  generate_from_password = λ p. some (b'#' ∷ p);
  compare = λ h p. list_eq h (b'#' ∷ p);
  compare-generate = some_salted;
}

same_refl : (t : Text) → list_eq t t ≡ true
same_refl t = (list_eq_iff t t).1 refl

abbrev ann : User
ann = record {
  user_id = pos 1;
  username = codes "ann";
  password = codes "#pw";
  nickname = codes "Ann";
  avatar = [];
}

abbrev ann_rest : Text
ann_rest = 1 ∷ (604850 ∷ (50 ∷ codes "go-im-gateway"))

ann_logged_in :
    user_login
      (accounts_at plain_jwt salt list_eq same_refl (50 * second))
      false
      (codes "ann")
      (codes "pw")
      (ann ∷ [])
    ≡ logged_in (pos 1) (0 ∷ ann_rest)
unfolding user_login find_user_by_name find_row generate_token
ann_logged_in = refl

abbrev works : OpenFaults
works = record { sync_fails = false; read_fails = false; redis_fails = false; take_closed = false }

abbrev nobody : Pool
nobody = record { clients = []; object = λ h. new_client (pos 0); next = 0; routes = [] }

login-open_example :
    (open_session plain_jwt works (codes "gw:8080") 90 (90 * second) (0 ∷ ann_rest) nobody [] ≡ (
      if ltb (90 * second) (expiry (50 * second))
      then Session.handler works (codes "gw:8080") 90 (some (pos 1)) nobody []
      else unauthorized))
    × (expiry (50 * second) ≤ 50 * second + lifetime)
    × (50 * second + lifetime < expiry (50 * second) + second)
login-open_example =
    login-open plain_jwt salt list_eq same_refl false (50 * second) (90 * second) 90 0 (pos 1)
      (codes "ann") (codes "pw") ann_rest (codes "gw:8080") (ann ∷ []) works nobody [] ann_logged_in

hexed : md5 (λ t. 0xd4 ∷ (0x1d ∷ [])) (codes "") ≡ codes "d41d"
unfolding md5 hex
hexed = refl
