-- ===== src/Agent/Schedule/Tool.antt =====
-- apps/agent/tools/schedule_message.go: the assistant's tool that schedules a message. How a time is
-- read and printed, and what the database answers, are arguments.
use go_im_system.Prelude.{ℕ, pos, Bool, List, [], ◌++◌, Option, none, some, ℤ, ltb, if◌then◌else◌}
use go_im_system.Text.{Text, codes, format_int}
use go_im_system.Logic.Users.{User}
use go_im_system.Agent.Schedule.Store.{ScheduledMessages, create_scheduled_message}

pub record SchMessageReq : Type 0 where
  pub target_user : Text
  pub send_time : Text
  pub message_content : Text

-- A result for the model to read, or an error.
pub data Answer : Type 0 where
  result : Text → Answer
  error : Text → Answer

-- The error of `time.Parse`, or the time.
pub data Parsed : Type 0 where
  unreadable : Text → Parsed
  time : ℕ → Parsed

abbrev pub new_task : ℤ → ℤ → Text → ℕ → ℕ → ScheduledMessages
new_task creator receiver content when now = record {
  sch_msg_id = pos 0;
  creator_id = creator;
  receiver_id = receiver;
  content = content;
  scheduled_send_time = when;
  status = 0;
  fail_reason = [];
  update_time = now;
}

abbrev pub set_text : (ℕ → Text) → ℤ → Text → ℕ → Text → Text
set_text print task name when content =
    codes "已为你设定好定时消息！\n任务ID: "
    ++ (format_int task
        ++ (codes "\n接收人: "
            ++ (name
                ++ (codes "\n发送时间: "
                    ++ (print when ++ (codes "\n内容: " ++ (content ++ codes "\n时间到了我会自动帮你发出去。")))))))

abbrev pub answered :
    (ℕ → Text)
    → Text
    → Text
    → ℕ
    → Text
    → List ScheduledMessages
    → Option (ℤ × List ScheduledMessages)
    → Answer × List ScheduledMessages
answered print db_error name when content t none = (error (codes "db error: " ++ db_error), t)
answered print db_error name when content t (some (task, t')) =
    (result (set_text print task name when content), t')

module _ (parse : Text → Parsed) (print : ℕ → Text) (now : ℕ) (fault : Bool) (db_error : Text)
    (auto : ℤ) where
  unfoldable pub for_target :
      SchMessageReq → ℕ → ℤ → Option User → List ScheduledMessages → Answer × List ScheduledMessages
  unfolding create_scheduled_message
  for_target req when user none t =
      (result (codes "未找到用户 '" ++ (req.target_user ++ codes "'，请检查用户名。")), t)
  for_target req when user (some u) t =
      answered print db_error u.username when req.message_content t (
        create_scheduled_message fault auto (new_task user u.user_id req.message_content when now)
          t)

  unfoldable pub for_user :
      SchMessageReq
      → ℕ
      → Option ℤ
      → Option User
      → List ScheduledMessages
      → Answer × List ScheduledMessages
  for_user req when none target t = (error (codes "internal error: missing user context"), t)
  for_user req when (some user) target t = for_target req when user target t

  unfoldable pub for_time :
      SchMessageReq
      → Parsed
      → Option ℤ
      → Option User
      → List ScheduledMessages
      → Answer × List ScheduledMessages
  for_time req (unreadable e) user target t =
      (result (codes "时间格式解析失败: " ++ (e ++ codes "，请告诉我发送的具体日期和时间，例如'明天早上9点'。")), t)
  for_time req (time when) user target t =
      if ltb when now
      then (result (codes "时间已经过去了，请设定一个未来的时间。"), t)
      else for_user req when user target t

  -- `user` is what the context holds, `target` what `FindUserByName` gives.
  unfoldable pub sch_message_invoker :
      SchMessageReq
      → Option ℤ
      → Option User
      → List ScheduledMessages
      → Answer × List ScheduledMessages
  sch_message_invoker req user target t = for_time req (parse req.send_time) user target t
