-- ===== src/Auth/Expiry.antt =====
-- How long a login opens connections.
use go_im_system.Prelude.{
  subst, ℕ, ◌+◌, ◌*◌, ◌/◌, ◌≤◌, ◌<◌, ◌≡◌, refl, subst, Bool, true, List, ◌∷◌, Option, none, some, ℤ,
  ltb, if◌then◌else◌, arith, inl, inr, Bool-cases,
}
use go_im_system.Text.{Text}
use go_im_system.Logic.Users.{User, user_login, find_user_by_name, check_login, grant, logged_in}
use go_im_system.Logic.Messages.{Messages}
use go_im_system.Gateway.Pool.{Pool}
use go_im_system.Gateway.Session
use go_im_system.Gateway.Session.{OpenFaults, unauthorized}
use go_im_system.Auth.{
  Jwt, Bcrypt, accounts_at, generate_token, parse_token, token_user, claims_at, jwt_secret,
  open_session, lifetime, second,
}

-- When the token of a login expires.
abbrev pub expiry : ℕ → ℕ
expiry login = (login + lifetime) / second * second

expiry_lem :
    (login : ℕ) → (expiry login ≤ login + lifetime) × (login + lifetime < expiry login + second)
expiry_lem login = (omega arith, omega arith)

module _ (j : Jwt) (b : Bcrypt) (same : Text → Text → Bool)
    (same_refl : (t : Text) → same t t ≡ true) where
  granted :
      (login : ℕ) (id k : ℤ) (token : Text) (o : Option Text)
      → grant (accounts_at j b same same_refl login) k o ≡ logged_in id token
      → (k ≡ id) × (o ≡ some token)
  granted login id k token none e = absurd (ground (arith, e))
  granted login id k token (some t) e = ground (arith, e)

  -- Who logs in gets a token for the id of the row.
  login-token :
      (login : ℕ) (id : ℤ) (token password : Text) (o : Option User)
      → check_login (accounts_at j b same same_refl login) password o ≡ logged_in id token
      → generate_token j login id ≡ some token
  login-token login id token password none e = absurd (ground (arith, e))
  login-token login id token password (some u) e =
      elim (Bool-cases
        ((accounts_at j b same same_refl login).check_password_hash password u.password)) [
          | inl right ↦
              let (this, made) =
                granted login id u.user_id token (generate_token j login u.user_id)
                  (rw right at e) in
              subst (λ k. generate_token j login k ≡ some token) this made
          | inr wrong ↦ absurd (ground (arith, rw wrong at e))
        ]

  opens :
      (login clock : ℕ) (id : ℤ) (c : ℕ) (token : Text)
      → generate_token j login id ≡ some (c ∷ token)
      → token_user j clock (c ∷ token) ≡ (if ltb clock (expiry login) then some id else none)
  unfolding generate_token token_user parse_token
  opens login clock id c token made =
      let read = j.parse-sign (claims_at login id) jwt_secret (c ∷ token) clock made in
      elim (Bool-cases (ltb clock (expiry login))) [
        | inl live ↦ rw (live, read, live) refl
        | inr over ↦ rw (over, read, over) refl
      ]

  -- A user logs in at the time login, in nanoseconds, and gets a token that is not empty;
  -- signed tokens are read under the secret they were signed with, and hashes are those of
  -- their passwords. When the token opens a connection at the time clock, the connection is
  -- opened for just the user of the login if clock is before the token's expiry, and is
  -- refused with 401 otherwise; the expiry is at most seven days after the login, and less
  -- than a second before that.
  pub login-open :
      (fault : Bool) (login clock now c : ℕ) (id : ℤ) (name password token gateway : Text)
      (users : List User) (f : OpenFaults) (p : Pool) (t : List Messages)
      → user_login (accounts_at j b same same_refl login) fault name password users
        ≡ logged_in id (c ∷ token)
      → (open_session j f gateway now clock (c ∷ token) p t ≡ (
          if ltb clock (expiry login)
          then Session.handler f gateway now (some id) p t
          else unauthorized))
        × (expiry login ≤ login + lifetime)
        × (login + lifetime < expiry login + second)
  unfolding user_login open_session Session.handler
  login-open fault login clock now c id name password token gateway users f p t e =
      let a = accounts_at j b same same_refl login in
      let made =
        login-token login id (c ∷ token) password (find_user_by_name a fault name users) e in
      (
        elim (Bool-cases (ltb clock (expiry login))) [
          | inl live ↦ rw (live, opens login clock id c token made, live) refl
          | inr over ↦ rw (over, opens login clock id c token made, over) refl
        ],
        (expiry_lem login).0,
        (expiry_lem login).1,
      )
