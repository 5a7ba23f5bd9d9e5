-- ===== src/Agent/History.antt =====
-- apps/agent/dao/messages.go, apps/agent/tools/search_chat_history.go and apps/pkg/utils/resolveTime.go:
-- the assistant's search of the messages between its user and another. How a time is read, and what the
-- calendar subtracts, are arguments.
use go_im_system.Prelude.{
  ℕ, ◌≡◌, refl, Bool, ◌&&◌, ◌||◌, List, [], ◌∷◌, ◌++◌, Option, none, some, ℤ, pos, negsuc, int_eq,
  int_lt, ltb, leb, take, sort_by, if◌then◌else◌,
}
use go_im_system.Text.{Text, codes}
use go_im_system.Sql.{select_where}
use go_im_system.Logic.Messages.{Messages}
use go_im_system.Logic.Users.{User}
pub mod Newest

-- A limit that is not from 1 to 200 is 50.
abbrev pub limit_of : ℤ → ℕ
limit_of (negsuc n) = 50
limit_of (pos n) = if ltb 0 n && leb n 200 then n else 50

-- Sent by one of the two to the other, in the range of time.
abbrev pub is_between : ℤ → ℤ → ℕ → ℕ → Messages → Bool
is_between a b from until m =
    ((int_eq m.sender_id a && int_eq m.receiver_id b)
      || (int_eq m.sender_id b && int_eq m.receiver_id a))
    && (leb from m.create_time && leb m.create_time until)

-- `ORDER BY create_time DESC`; rows of the same time keep the table's order.
abbrev pub is_newer : Messages → Messages → Bool
is_newer m n = leb n.create_time m.create_time

unfoldable pub get_history_between_users :
    Bool → ℤ → ℤ → ℕ → ℕ → ℤ → List Messages → Option (List Messages)
get_history_between_users fault a b from until limit t =
    if fault
    then none
    else some
        (take (limit_of limit) (sort_by is_newer (select_where (is_between a b from until) t)))

module _ (parse : Text → Option ℕ) (now : ℕ) (month_before week_before : ℕ → ℕ) where
  abbrev pub end_of : Text → ℕ
  end_of [] = now
  end_of (c ∷ t) = elim (parse (c ∷ t)) [ none ↦ now | some e ↦ e ]

  abbrev pub start_of : Text → ℕ
  start_of [] = week_before now
  start_of (c ∷ t) = elim (parse (c ∷ t)) [ none ↦ month_before now | some s ↦ s ]

  unfoldable pub resolve_time : Text → Text → ℕ × ℕ
  resolve_time start end = (start_of start, end_of end)

pub record SearHistoryReq : Type 0 where
  pub target_user : Text
  pub start_time : Text
  pub end_time : Text
  pub keywords : Text  -- read by nothing
  pub limit : ℤ

pub data Answer : Type 0 where
  result : Text → Answer
  error : Text → Answer

abbrev pub line_of : User → Messages → Text
line_of target m =
    codes "["
    ++ ((if int_eq m.sender_id target.user_id then target.username else codes "你")
        ++ (codes "]: " ++ (m.content ++ codes "\n")))

abbrev pub lines_of : User → List Messages → Text
lines_of target [] = []
lines_of target (m ∷ ms) = line_of target m ++ lines_of target ms

abbrev pub told : User → Text → Option (List Messages) → Answer
told target db_error none = error (codes "查询数据库失败: " ++ db_error)
told target db_error (some []) = result (codes "未找到你和 " ++ (target.username ++ codes " 之间的聊天记录。"))
told target db_error (some (m ∷ ms)) =
    result (codes "以下是原始聊天记录，请根据用户的需求进行总结或提取:\n" ++ lines_of target (m ∷ ms))

-- `target` is what `FindUserByName` gives, `user` what the context holds.
module _ (parse : Text → Option ℕ) (now : ℕ) (month_before week_before : ℕ → ℕ) (fault : Bool)
    (db_error : Text) where
  unfoldable pub search_for : SearHistoryReq → ℕ × ℕ → Option ℤ → User → List Messages → Answer
  search_for req range none target t = error (codes "internal error: missing user context")
  search_for req range (some user) target t =
      told target db_error
        (get_history_between_users fault user target.user_id range.0 range.1 req.limit t)

  unfoldable pub search_history_invoker :
      SearHistoryReq → Option ℤ → Option User → List Messages → Answer
  search_history_invoker req user none t =
      result (codes "未找到名为 " ++ (req.target_user ++ codes " 的用户，请检查用户名拼写。"))
  search_history_invoker req user (some target) t =
      search_for req (resolve_time parse now month_before week_before req.start_time req.end_time)
        user target t
