-- ===== src/Logic/Users.antt =====
-- apps/logic/service/user_service.go with the data layer in apps/logic/dao/users.go and
-- apps/logic/models/users.go: registration and login. Hashing, tokens and the database's comparison of
-- names, which its collation gives, are an interface.
use go_im_system.Prelude.{
  ◌≡◌, Bool, true, false, ◌||◌, List, [], ◌∷◌, ◌++◌, Option, none, some, ℤ, pos, int_eq,
  if◌then◌else◌,
}
use go_im_system.Text.{Text, codes}
pub mod Login

pub record User : Type 0 where
  pub user_id : ℤ
  pub username : Text
  pub password : Text  -- hashed
  pub nickname : Text
  pub avatar : Text

abbrev pub new_user : ℤ → Text → Text → Text → Text → User
new_user id name password nickname avatar = record {
  user_id = id;
  username = name;
  password = password;
  nickname = nickname;
  avatar = avatar;
}

-- A password's hash passes the check for the password; a name is the same as itself.
pub record Accounts : Type 1 where
  pub Token : Type 0
  pub hash_password : Text → Option Text
  pub check_password_hash : Text → Text → Bool
  pub generate_token : ℤ → Option Token
  pub same_name : Text → Text → Bool
  pub check-hash : (p h : Text) → hash_password p ≡ some h → check_password_hash p h ≡ true
  pub same_refl : (t : Text) → same_name t t ≡ true

pub record UserRegisterArgs : Type 0 where
  pub user_id : ℤ
  pub user_name : Text
  pub password : Text
  pub nickname : Text
  pub avatar : Text

-- `Create` leaves a zero id to the database, which gives `auto`, and an empty nickname to the
-- column's default.
abbrev pub stored_user : ℤ → User → User
stored_user auto u = record u {
  user_id = if int_eq u.user_id (pos 0) then auto else u.user_id;
  nickname = elim u.nickname [ [] ↦ codes "用户" | c ∷ t ↦ c ∷ t ];
}

module _ (a : Accounts) where
  open a use {Token, hash_password, check_password_hash, generate_token, same_name}

  -- The first row with the name; the index keeps names unique.
  unfoldable pub find_row : Text → List User → Option User
  find_row name [] = none
  find_row name (u ∷ t) =
      let rest = find_row name t in if same_name u.username name then some u else rest

  -- `none` is an error of the database or a name that is not there.
  unfoldable pub find_user_by_name : Bool → Text → List User → Option User
  unfolding find_row
  find_user_by_name fault name t = if fault then none else find_row name t

  unfoldable pub is_taken : User → List User → Bool
  is_taken u [] = false
  is_taken u (v ∷ t) =
      let rest = is_taken u t in
      int_eq v.user_id u.user_id || (same_name v.username u.username || rest)

  -- The primary key and the unique index on the name.
  unfoldable pub insert_user : Bool → ℤ → User → List User → Option (List User)
  unfolding is_taken
  insert_user fault auto u t =
      if fault
      then none
      else if is_taken (stored_user auto u) t
      then none
      else some (t ++ stored_user auto u ∷ [])

  -- Whether it succeeds, and the table.
  unfoldable pub user_register : Bool → ℤ → UserRegisterArgs → List User → Bool × List User
  unfolding insert_user
  user_register fault auto args t = elim (hash_password args.password) [
    | none ↦ (false, t)
    | some h ↦
        elim (insert_user fault auto
          (new_user args.user_id args.user_name h args.nickname args.avatar) t) [
            | none ↦ (false, t)
            | some t' ↦ (true, t')
          ]
  ]

  pub data LoginReply : Type 0 where
    no_user wrong_password no_token : LoginReply
    logged_in : ℤ → Token → LoginReply

  abbrev pub grant : ℤ → Option Token → LoginReply
  grant id none = no_token
  grant id (some t) = logged_in id t

  abbrev pub check_login : Text → Option User → LoginReply
  check_login password none = no_user
  check_login password (some u) =
      if check_password_hash password u.password
      then grant u.user_id (generate_token u.user_id)
      else wrong_password

  unfoldable pub user_login : Bool → Text → Text → List User → LoginReply
  unfolding find_user_by_name
  user_login fault name password t = check_login password (find_user_by_name fault name t)
