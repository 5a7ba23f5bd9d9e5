-- ===== src/Tests/Accounts.antt =====
-- A registration and a login.
use go_im_system.Prelude.{
  ◌≡◌, refl, true, false, [], ◌∷◌, some, ℤ, pos, list_eq, list_eq_iff, list_Eq, nat_eq, arith,
  int_Eq,
}
use go_im_system.Text.{Text, codes}
use go_im_system.Logic.Users.{
  User, Accounts, UserRegisterArgs, is_taken, user_register, user_login, logged_in,
}
use go_im_system.Logic.Users.Login.{register-login}

-- The hash puts a salt before the password.
abbrev salted : Text → Text
salted p = b'#' ∷ p

some-salted : (p h : Text) → some (salted p) ≡ some h → list_eq (salted p) h ≡ true
some-salted p h e = ground (arith, list_eq_iff (salted p) h)

abbrev accounts : Accounts
accounts = record {
  Token = ℤ;
  hash_password = λ p. some (salted p);
  check_password_hash = λ p h. list_eq (salted p) h;
  generate_token = λ id. some id;
  same_name = λ s t. list_eq s t;
  check-hash = some-salted;
  same_refl = λ t. (list_eq_iff t t).1 refl;
}

abbrev ann : User
ann = record {
  user_id = pos 1;
  username = codes "ann";
  password = salted (codes "pw");
  nickname = codes "Ann";
  avatar = [];
}

abbrev ben : UserRegisterArgs
ben = record {
  user_id = pos 0;
  user_name = codes "ben";
  password = codes "secret";
  nickname = [];
  avatar = [];
}

register-login_example :
    let (ok, t') = user_register accounts false (pos 2) ben (ann ∷ []) in
    (ok ≡ true)
    × (user_login accounts false (codes "ben") (codes "secret") t' ≡ logged_in (pos 2) (pos 2))
    × ((name password : Text)
        → list_eq (codes "ben") name ≡ false
        → user_login accounts false name password t'
          ≡ user_login accounts false name password (ann ∷ []))
unfolding is_taken
register-login_example =
    register-login accounts (pos 2) ben (salted (codes "secret")) (pos 2) (ann ∷ []) refl refl refl
