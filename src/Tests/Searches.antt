-- ===== src/Tests/Searches.antt =====
-- The assistant's search of a conversation, and the users' login over HTTP.
use go_im_system.Prelude.{
  ℕ, ◌≤◌, ◌≡◌, refl, ◌⊎◌, List, [], ◌∷◌, none, some, ℤ, pos, true, false, length, All, In, ◌-◌,
}
use go_im_system.Text.{Text, codes}
use go_im_system.Logic.Messages.{Messages, new_messages}
use go_im_system.Logic.Users.{User}
use go_im_system.Agent.History.{
  result, limit_of, is_between, get_history_between_users, search_history_invoker, search_for,
  resolve_time,
}
use go_im_system.Agent.History.Newest.{Descending, history_lem}
use go_im_system.Agent.Engine.{get_assistant_from_events, streaming, whole}
use go_im_system.Gateway.UserApi.{call_error, status_of, user_login_handler}

abbrev row : ℕ → ℤ → ℤ → Text → ℕ → Messages
row id sender receiver content when =
    record (new_messages id sender receiver (pos 0) content false) { create_time = when }

abbrev older : Messages
older = row 1 (pos 7) (pos 8) (codes "the key?") 40

abbrev newer : Messages
newer = row 2 (pos 8) (pos 7) (codes "1234") 50

-- With one of a third user.
abbrev table : List Messages
table = older ∷ (row 3 (pos 9) (pos 7) (codes "hi") 45 ∷ (newer ∷ []))

found : get_history_between_users false (pos 7) (pos 8) 30 60 (pos 1) table ≡ some (newer ∷ [])
unfolding get_history_between_users
found = refl

history_lem_example :
    (length (newer ∷ []) ≤ 200)
    × Descending (newer ∷ [])
    × ((m : Messages)
        → In m (newer ∷ [])
        → In m table × (is_between (pos 7) (pos 8) 30 60 m ≡ true))
    × ((m : Messages)
        → In m table
        → is_between (pos 7) (pos 8) 30 60 m ≡ true
        → In m (newer ∷ [])
          ⊎ ((length (newer ∷ []) ≡ limit_of (pos 1))
              × All (λ n. m.create_time ≤ n.create_time) (newer ∷ [])))
history_lem_example = history_lem (pos 7) (pos 8) 30 60 (pos 1) table (newer ∷ []) found

abbrev friend : User
friend = record {
  user_id = pos 8;
  username = codes "bob";
  password = [];
  nickname = [];
  avatar = [];
}

-- A limit that is too high is lowered, and no time means the last week.
searched :
    search_history_invoker
      (λ t. none)
      60
      (λ n. n - 30)
      (λ n. n - 7)
      false
      []
      (record {
        target_user = codes "bob";
        start_time = [];
        end_time = codes "soon";
        keywords = [];
        limit = pos 300;
      })
      (some (pos 7))
      (some friend)
      (row 4 (pos 7) (pos 8) (codes "ok") 55 ∷ table)
    ≡ result (codes "以下是原始聊天记录，请根据用户的需求进行总结或提取:\n[你]: ok\n")
unfolding search_history_invoker search_for get_history_between_users resolve_time
searched = refl

wrong_password :
    status_of (
      user_login_handler {Token = Text}
        (λ key method args. call_error (codes "no"))
        (some (record { user_id = pos 0; user_name = codes "bob"; password = codes "x" })))
    ≡ 401
unfolding user_login_handler
wrong_password = refl

-- Empty frames and the messages of tools are left out.
answer_chunks :
    get_assistant_from_events (
      none
      ∷ (some (false, whole (some (codes "tool")))
          ∷ (some
                (true, streaming (some (codes "a") ∷ (none ∷ (some [] ∷ (some (codes "b") ∷ [])))))
              ∷ (some (true, whole (some (codes "c"))) ∷ []))))
    ≡ codes "a" ∷ (codes "b" ∷ (codes "c" ∷ []))
unfolding get_assistant_from_events
answer_chunks = refl
