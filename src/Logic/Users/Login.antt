-- ===== src/Logic/Users/Login.antt =====
-- Who can log in after a registration.
use go_im_system.Prelude.{
  ◌≡◌, refl, sym, ap, ◌∙◌, true, false, List, [], ◌∷◌, ◌++◌, none, some, ℤ, arith,
}
use go_im_system.Text.{Text}
use go_im_system.Logic.Users.{
  User, Accounts, UserRegisterArgs, new_user, stored_user, find_row, find_user_by_name, is_taken,
  insert_user, user_register, user_login, logged_in, check_login,
}

module _ (a : Accounts) where
  open a use {
    Token, hash_password, check_password_hash, generate_token, same_name, check-hash, same_refl,
  }

  find-new :
      (name : Text) (t : List User) (u : User)
      → find_row a name t ≡ none
      → same_name u.username name ≡ true
      → find_row a name (t ++ u ∷ []) ≡ some u
  unfolding find_row
  find-new name [] u missing same = ground arith
  find-new name (v ∷ t) u missing same = ground (arith, find-new name t u)

  find-other :
      (name : Text) (t : List User) (u : User)
      → same_name u.username name ≡ false
      → find_row a name (t ++ u ∷ []) ≡ find_row a name t
  unfolding find_row
  find-other name [] u other = ground arith
  find-other name (v ∷ t) u other = ground (arith, find-other name t u other)

  find-taken : (t : List User) (u : User) → is_taken a u t ≡ false → find_row a u.username t ≡ none
  unfolding find_row is_taken
  find-taken [] u free = refl
  find-taken (v ∷ t) u free = ground (arith, find-taken t u)

  register_lem :
      (auto : ℤ) (args : UserRegisterArgs) (h : Text) (t : List User)
      → hash_password args.password ≡ some h
      → let u =
          stored_user auto (new_user args.user_id args.user_name h args.nickname args.avatar) in
        is_taken a u t ≡ false → user_register a false auto args t ≡ (true, t ++ u ∷ [])
  unfolding user_register insert_user
  register_lem auto args h t hashed free = ground (arith, hashed, free)

  login_lem :
      (name password : Text) (t : List User)
      → user_login a false name password t ≡ check_login a password (find_row a name t)
  unfolding user_login find_user_by_name
  login_lem name password t = refl

  -- A registration under an id and a name that are free, where the password can be hashed and
  -- the user's token made, and no fault: it succeeds; the user can then log in with this name
  -- and password and gets that token; and a login under any name that the database does not
  -- take for this one has the result it had before.
  pub register-login :
      (auto : ℤ) (args : UserRegisterArgs) (h : Text) (token : Token) (t : List User)
      → hash_password args.password ≡ some h
      → let u =
          stored_user auto (new_user args.user_id args.user_name h args.nickname args.avatar) in
        is_taken a u t ≡ false
        → generate_token u.user_id ≡ some token
        → let (ok, t') = user_register a false auto args t in
          (ok ≡ true)
          × (user_login a false args.user_name args.password t' ≡ logged_in u.user_id token)
          × ((name password : Text)
              → same_name args.user_name name ≡ false
              → user_login a false name password t' ≡ user_login a false name password t)
  register-login auto args h token t hashed free granted =
      let u = stored_user auto (new_user args.user_id args.user_name h args.nickname args.avatar) in
      let registered = register_lem auto args h t hashed free in
      let found : find_row a args.user_name (t ++ u ∷ []) ≡ some u =
        find-new args.user_name t u (find-taken t u free) (same_refl args.user_name) in
      let checked = check-hash args.password h hashed in
      (
        ap (λ r. r.0) registered,
        ap (λ r. user_login a false args.user_name args.password r.1) registered
            ∙ login_lem args.user_name args.password (t ++ u ∷ [])
            ∙ ap (check_login a args.password) found
            ∙ ground (arith, checked, granted),
        λ name password other.
            ap (λ r. user_login a false name password r.1) registered
            ∙ login_lem name password (t ++ u ∷ [])
            ∙ ap (check_login a password) (find-other name t u other)
            ∙ sym (login_lem name password t),
      )
