-- ===== src/Agent/Schedule.antt =====
-- apps/agent/task/schedule_msg.go, with the transaction of apps/agent/dao/scheduled_messages.go: scheduled
-- messages are looked for once a minute, by several agents on one database and by runs that overlap.
-- `step` is one statement on the database, with its fault, if there is one, and what follows it.
use go_im_system.Prelude.{
  ◌||◌, not, eq, list_Eq, nat_eq, ℕ, zero, suc, ◌≡◌, Bool, true, false, ◌&&◌, List, [], ◌∷◌, ◌++◌,
  Option, none, some, ℤ, pos, negsuc, int_eq, int_Eq, ◌==◌, leb, take, write_at, if◌then◌else◌,
}
use go_im_system.Text.{Text, codes, format_int}
use go_im_system.Sql.{select_where, update_where, affected, insert_row}
use go_im_system.Logic.Messages.{row_id, Messages, new_messages, insert_message}
use go_im_system.Agent.Schedule.Store.{
  ScheduledMessages, columns, declared, status_columns, failure_columns, Database, task_key,
  task_row, create_scheduled_message, is_due, get_pending_scheduled_tasks, is_at, claimed_row,
  claim_task, sent_row, failed_row,
}
pub mod Store
pub mod Tool
pub mod Claims

-- Where `SendSchMessages` stands: before the insertion of the message; before the update of the task,
-- in the same transaction; before the note that it failed; before the message to the creator; or at its
-- end. If the failure cannot be noted, the program ends.
pub data Stage : Type 0 where
  inserting : Stage
  marking : Stage
  failing : Text → Stage
  reporting : Text → Stage
  finished : Stage
  fatal : Stage

pub record Sender : Type 0 where
  pub task : ScheduledMessages
  pub stage : Stage

-- The tasks that each run of the job has still to claim are under the run's handle.
pub record Agents : Type 0 where
  pub tasks : List ScheduledMessages
  pub messages : List Messages
  pub todo : ℕ → List ScheduledMessages
  pub senders : List Sender  -- in the order of their starts

abbrev pub batch : ℕ
batch = 100

abbrev pub polled : ℕ → Option (List ScheduledMessages) → Agents → Agents
polled h none s = s
polled h (some ts) s = record s { todo = write_at h ts s.todo }

abbrev pub sender_of : ScheduledMessages → Sender
sender_of task = record { task = task; stage = inserting }

-- After a claim: an error ends the run, a task of another's is passed over.
abbrev pub claimed :
    ℕ
    → ScheduledMessages
    → List ScheduledMessages
    → Agents
    → Option ℕ × List ScheduledMessages
    → Agents
claimed h task rest s (none, t) = record s { tasks = t; todo = write_at h [] s.todo }
claimed h task rest s (some zero, t) = record s { tasks = t; todo = write_at h rest s.todo }
claimed h task rest s (some (suc n), t) = record s {
  tasks = t;
  todo = write_at h rest s.todo;
  senders = s.senders ++ sender_of task ∷ [];
}

unfoldable pub claim_next : ℕ → Bool → ℕ → List ScheduledMessages → Agents → Agents
unfolding claim_task
claim_next h fault now [] s = s
claim_next h fault now (task ∷ rest) s =
    claimed h task rest s (claim_task fault task.sch_msg_id now s.tasks)

abbrev pub failure_text : ScheduledMessages → Text → Text
failure_text task e =
    codes "❌ 抱歉，您预定发给 [" ++ (format_int task.receiver_id ++ (codes "] 的消息发送失败。原因：" ++ e))

abbrev pub success_text : ScheduledMessages → Text
success_text task = codes "✅ 任务完成！您预定的消息已成功为您发出：\n『" ++ (task.content ++ codes "』")

-- A goroutine's next statement, with its fault, the id and the time it draws: the stage and the two
-- tables after it. The insertion is not the transaction's own and stays.
abbrev pub inserted : Text → Option (List Messages) → List Messages → Stage × List Messages
inserted e none ms = (failing e, ms)
inserted e (some ms') ms = (marking, ms')

abbrev pub or_same : Option (List Messages) → List Messages → List Messages
or_same none ms = ms
or_same (some ms') ms = ms'

abbrev pub failed_by : Option Text → Text → List Text → Option Text
failed_by (some e) unknown cs = some e
failed_by none unknown cs = if declared cs then none else some unknown

-- The update in the transaction.
abbrev pub marked :
    Option Text → ℕ → ScheduledMessages → List ScheduledMessages → Stage × List ScheduledMessages
marked (some e) now task t = (failing e, t)
marked none now task t =
    (reporting (success_text task), update_where (is_at 1 task.sch_msg_id) (sent_row now) t)

-- `FailedTask`.
abbrev pub noted :
    Option Text
    → Text
    → ℕ
    → ScheduledMessages
    → List ScheduledMessages
    → Stage × List ScheduledMessages
noted (some x) e now task t = (fatal, t)
noted none e now task t =
    (reporting (failure_text task e), update_where (is_at 1 task.sch_msg_id) (failed_row e now) t)

unfoldable pub advance :
    Option Text
    → ℕ
    → ℕ
    → Database
    → ScheduledMessages
    → Stage
    → List ScheduledMessages
    → List Messages
    → Stage × List ScheduledMessages × List Messages
unfolding insert_message
advance (some e) id now d task inserting t ms = (failing e, t, ms)
advance none id now d task inserting t ms =
    let (stage, ms') =
      inserted d.duplicate
        (insert_message false d.assigned now
          (new_messages id task.creator_id task.receiver_id (pos 0) task.content false) ms)
        ms in
    (stage, t, ms')
advance fault id now d task marking t ms =
    let (stage, t') = marked (failed_by fault d.unknown status_columns) now task t in
    (stage, t', ms)
advance fault id now d task (failing e) t ms =
    let (stage, t') = noted (failed_by fault d.unknown failure_columns) e now task t in
    (stage, t', ms)
advance none id now d task (reporting text) t ms = (
  finished,
  t,
  or_same
      (insert_message false d.assigned now
        (new_messages id (negsuc 0) task.creator_id (pos 0) text false) ms)
      ms,
)
advance (some e) id now d task (reporting text) t ms = (finished, t, ms)
advance fault id now d task finished t ms = (finished, t, ms)
advance fault id now d task fatal t ms = (fatal, t, ms)

-- The sender under an index.
abbrev pub sender_at : ℕ → List Sender → Option Sender
sender_at j [] = none
sender_at zero (x ∷ xs) = some x
sender_at (suc j) (x ∷ xs) = sender_at j xs

abbrev pub staged : ℕ → Stage → List Sender → List Sender
staged j g [] = []
staged zero g (x ∷ xs) = record x { stage = g } ∷ xs
staged (suc j) g (x ∷ xs) = x ∷ staged j g xs

abbrev pub after_advance : ℕ → Agents → Stage × List ScheduledMessages × List Messages → Agents
after_advance j s (g, t, ms) = record s { tasks = t; messages = ms; senders = staged j g s.senders }

unfoldable pub advance_at : ℕ → Option Text → ℕ → ℕ → Database → Option Sender → Agents → Agents
unfolding advance
advance_at j fault id now d none s = s
advance_at j fault id now d (some x) s =
    after_advance j s (advance fault id now d x.task x.stage s.tasks s.messages)

-- A user's new task, with the id that the database gives to one without; a run's look for tasks; a run's next claim;
-- a goroutine's next statement.
pub data Turn : Type 0 where
  create : Bool → ℤ → ScheduledMessages → Turn
  poll : ℕ → Bool → ℕ → Turn
  claim : ℕ → Bool → ℕ → Turn
  go_on : ℕ → Option Text → ℕ → ℕ → Database → Turn

abbrev pub created : Agents → Option (ℤ × List ScheduledMessages) → Agents
created s none = s
created s (some (id, t)) = record s { tasks = t }

abbrev pub pending_task : ScheduledMessages → ScheduledMessages
pending_task m = record m { status = 0 }

unfoldable pub step : Turn → Agents → Agents
unfolding create_scheduled_message get_pending_scheduled_tasks claim_next advance_at
step (create fault assigned m) s =
    created s (create_scheduled_message fault assigned (pending_task m) s.tasks)
step (poll h fault now) s = polled h (get_pending_scheduled_tasks fault batch now s.tasks) s
step (claim h fault now) s = claim_next h fault now (s.todo h) s
step (go_on j fault id now d) s = advance_at j fault id now d (sender_at j s.senders) s

unfoldable pub run : List Turn → Agents → Agents
run [] s = s
run (t ∷ ts) s = run ts (step t s)

abbrev pub no_tasks : Agents
no_tasks = record { tasks = []; messages = []; todo = λ h. []; senders = [] }
