-- ===== src/Agent/Schedule/Store.antt =====
-- apps/agent/dao/scheduled_messages.go and the model in apps/agent/models/scheduled_messages.go: the table
-- of scheduled messages and its statements. One that names a column that the model does not declare fails.
use go_im_system.Prelude.{
  ◌||◌, not, eq, list_Eq, nat_eq, ℕ, Bool, true, false, ◌&&◌, List, [], ◌∷◌, Option, none, some, ℤ,
  int_eq, int_Eq, ◌==◌, leb, take, if◌then◌else◌,
}
use go_im_system.Text.{Text, codes}
use go_im_system.Sql.{select_where, update_where, affected, insert_row}
use go_im_system.Logic.Messages.{row_id}

-- The times of the creation and of the sending, which no code reads, are left out.
pub record ScheduledMessages : Type 0 where
  pub sch_msg_id : ℤ
  pub creator_id : ℤ
  pub receiver_id : ℤ
  pub content : Text
  pub scheduled_send_time : ℕ
  pub status : ℕ
  pub fail_reason : Text
  pub update_time : ℕ

-- The columns of the table, as the model names them.
abbrev pub columns : List Text
columns =
    codes "msg_id"
    ∷ codes "creator_id"
    ∷ codes "receiver_id"
    ∷ codes "content"
    ∷ codes "scheduled_send_time"
    ∷ codes "status"
    ∷ codes "actual_send_time"
    ∷ codes "fail_reason"
    ∷ codes "create_time"
    ∷ codes "update_time"
    ∷ []

abbrev is_column : Text → List Text → Bool
is_column c [] = false
is_column c (d ∷ ds) = eq c d || is_column c ds

-- Whether the table has all columns that a statement names.
abbrev pub declared : List Text → Bool
declared [] = true
declared (c ∷ cs) = is_column c columns && declared cs

-- The columns that the updates of a claim and of a sending name, and those of a failure.
abbrev pub status_columns : List Text
status_columns = codes "sch_msg_id" ∷ (codes "status" ∷ (codes "updated_time" ∷ []))

abbrev pub failure_columns : List Text
failure_columns = codes "fail_reason" ∷ status_columns

-- What the database sends besides its faults: the errors for a key that is there already and for a
-- column that is not, and the id of a row without one.
pub record Database : Type 0 where
  pub duplicate : Text
  pub unknown : Text
  pub assigned : ℤ

abbrev pub task_key : ScheduledMessages → ℤ
task_key m = m.sch_msg_id

-- A task without an id gets one from the database.
abbrev pub task_row : ℤ → ScheduledMessages → ScheduledMessages
task_row assigned m = record m { sch_msg_id = row_id assigned m.sch_msg_id }

-- The id that it returns is the creator's.
unfoldable pub create_scheduled_message :
    Bool → ℤ → ScheduledMessages → List ScheduledMessages → Option (ℤ × List ScheduledMessages)
create_scheduled_message fault assigned m t =
    elim (insert_row task_key fault (task_row assigned m) t) [
      | none ↦ none
      | some t' ↦ some (m.creator_id, t')
    ]

abbrev pub is_due : ℕ → ScheduledMessages → Bool
is_due now m = m.status == 0 && leb m.scheduled_send_time now

unfoldable pub get_pending_scheduled_tasks :
    Bool → ℕ → ℕ → List ScheduledMessages → Option (List ScheduledMessages)
get_pending_scheduled_tasks fault batch now t =
    if fault then none else some (take batch (select_where (is_due now) t))

abbrev pub is_at : ℕ → ℤ → ScheduledMessages → Bool
is_at status id m = int_eq m.sch_msg_id id && m.status == status

abbrev pub claimed_row : ℕ → ScheduledMessages → ScheduledMessages
claimed_row now m = record m { status = 1; update_time = now }

-- The number of rows affected.
unfoldable pub claim_task :
    Bool → ℤ → ℕ → List ScheduledMessages → Option ℕ × List ScheduledMessages
claim_task fault id now t =
    if fault || not (declared status_columns)
    then (none, t)
    else (some (affected (is_at 0 id) t), update_where (is_at 0 id) (claimed_row now) t)

abbrev pub sent_row : ℕ → ScheduledMessages → ScheduledMessages
sent_row now m = record m { status = 2; update_time = now }

abbrev pub failed_row : Text → ℕ → ScheduledMessages → ScheduledMessages
failed_row reason now m = record m { status = 3; fail_reason = reason; update_time = now }
