-- ===== src/Agent/Schedule/Claims.antt =====
-- What becomes of scheduled messages: the claim of apps/agent/dao/scheduled_messages.go names columns that
-- the model of apps/agent/models/scheduled_messages.go does not declare.
use go_im_system.Prelude.{
  ◌⊎◌, none, some, ap, All-append, ◌++◌, inr, inl, sym, keep, subst, ◌∙◌, ℕ, ℤ, ◌≡◌, refl, Bool,
  true, false, List, [], ◌∷◌, Option, int_Eq, arith, All,
}
use go_im_system.Agent.Schedule.{
  created, pending_task, no_tasks, run, Agents, claim_next, advance_at, Turn, create, poll, claim,
  go_on, step,
}
use go_im_system.Agent.Schedule.Store.{
  task_row, create_scheduled_message, ScheduledMessages, get_pending_scheduled_tasks, claim_task,
}

abbrev pub IsPending : ScheduledMessages → Type 0
IsPending m = m.status ≡ 0

-- Nothing is under way: no goroutine, no message, and all tasks are pending.
abbrev Idle : Agents → Type 0
Idle s = (s.senders ≡ []) × (s.messages ≡ []) × All IsPending s.tasks

abbrev pub is_create : Turn → Bool
is_create (create fault a m) = true
is_create (poll h fault now) = false
is_create (claim h fault now) = false
is_create (go_on j fault id now d) = false

claim_refused :
    (h : ℕ) (fault : Bool) (now : ℕ) (ts : List ScheduledMessages) (s : Agents)
    → let s' = claim_next h fault now ts s in
      (s'.tasks ≡ s.tasks) × (s'.messages ≡ s.messages) × (s'.senders ≡ s.senders)
unfolding claim_next claim_task
claim_refused h fault now [] s = (refl, refl, refl)
claim_refused h true now (task ∷ rest) s = (refl, refl, refl)
claim_refused h false now (task ∷ rest) s = (refl, refl, refl)

-- A turn that creates nothing leaves the two tables and the goroutines.
step-same :
    (e : Turn) (s : Agents)
    → is_create e ≡ false
    → s.senders ≡ []
    → let s' = step e s in
      (s'.tasks ≡ s.tasks) × (s'.messages ≡ s.messages) × (s'.senders ≡ s.senders)
unfolding step get_pending_scheduled_tasks advance_at
step-same (create fault a m) s other none_yet = absurd (ground arith)
step-same (poll h true now) s other none_yet = (refl, refl, refl)
step-same (poll h false now) s other none_yet = (refl, refl, refl)
step-same (claim h fault now) s other none_yet = claim_refused h fault now (s.todo h) s
step-same (go_on j fault id now d) s other none_yet = rw none_yet (refl, refl, refl)

create_outcome :
    (fault : Bool) (a : ℤ) (m : ScheduledMessages) (t : List ScheduledMessages)
    → (create_scheduled_message fault a m t ≡ none)
      ⊎ (create_scheduled_message fault a m t ≡ some (m.creator_id, t ++ task_row a m ∷ []))
unfolding create_scheduled_message
create_outcome true a m t = inl refl
create_outcome false a m t = ground arith

step-create :
    (fault : Bool) (a : ℤ) (m : ScheduledMessages) (s : Agents)
    → Idle s
    → Idle (step (create fault a m) s)
unfolding step
step-create fault a m s (none_yet, silent, pending) =
    elim (create_outcome fault a (pending_task m) s.tasks) [
      | inl refused ↦ subst (λ o. Idle (created s o)) (sym refused) (none_yet, silent, pending)
      | inr stored ↦
          subst (λ o. Idle (created s o)) (sym stored)
            (
              none_yet,
              silent,
              All-append IsPending s.tasks (task_row a (pending_task m) ∷ []) pending (refl, tt),
            )
    ]

created-tasks :
    (o : Option (ℤ × List ScheduledMessages)) (s s' : Agents)
    → s.tasks ≡ s'.tasks
    → (created s o).tasks ≡ (created s' o).tasks
created-tasks none s s' same = same
created-tasks (some (id, t)) s s' same = refl

-- A creation reads the tasks alone.
create-tasks :
    (fault : Bool) (a : ℤ) (m : ScheduledMessages) (s s' : Agents)
    → s.tasks ≡ s'.tasks
    → (step (create fault a m) s).tasks ≡ (step (create fault a m) s').tasks
unfolding step
create-tasks fault a m s s' same =
    created-tasks (create_scheduled_message fault a (pending_task m) s.tasks) s s' same
    ∙ ap (λ t. (created s' (create_scheduled_message fault a (pending_task m) t)).tasks) same

step-Idle : (e : Turn) (s : Agents) → is_create e ≡ false → Idle s → Idle (step e s)
step-Idle e s other (none_yet, silent, pending) =
    let (tasks, messages, senders) = step-same e s other none_yet in
    (senders ∙ none_yet, messages ∙ silent, subst (All IsPending) (sym tasks) pending)

run_lem :
    (ts : List Turn) (s s' : Agents)
    → Idle s
    → Idle s'
    → s.tasks ≡ s'.tasks
    → Idle (run ts s) × ((run ts s).tasks ≡ (run (keep is_create ts) s').tasks)
unfolding run
run_lem [] s s' idle idle' same = (idle, same)
run_lem (create fault a m ∷ ts) s s' idle idle' same =
    run_lem ts (step (create fault a m) s) (step (create fault a m) s')
      (step-create fault a m s idle) (step-create fault a m s' idle')
      (create-tasks fault a m s s' same)
run_lem (poll h fault now ∷ ts) s s' idle idle' same =
    run_lem ts (step (poll h fault now) s) s' (step-Idle (poll h fault now) s refl idle) idle'
      ((step-same (poll h fault now) s refl idle.0).0 ∙ same)
run_lem (claim h fault now ∷ ts) s s' idle idle' same =
    run_lem ts (step (claim h fault now) s) s' (step-Idle (claim h fault now) s refl idle) idle'
      ((step-same (claim h fault now) s refl idle.0).0 ∙ same)
run_lem (go_on j fault id now d ∷ ts) s s' idle idle' same =
    run_lem ts (step (go_on j fault id now d) s) s' (step-Idle (go_on j fault id now d) s refl idle)
      idle' ((step-same (go_on j fault id now d) s refl idle.0).0 ∙ same)

-- The error of a claim ends its run.
claim_ends :
    (h : ℕ) (fault : Bool) (now : ℕ) (ts : List ScheduledMessages) (s : Agents)
    → s.todo h ≡ ts
    → (claim_next h fault now ts s).todo h ≡ []
unfolding claim_next claim_task
claim_ends h fault now [] s e = e
claim_ends h true now (task ∷ rest) s e = ground arith
claim_ends h false now (task ∷ rest) s e = ground arith

-- The tables are empty at first, and users make tasks, runs of the job on any number of agents
-- look for tasks and claim them, and goroutines go on, in any order and with any faults. Then
-- no goroutine is ever started and no message is stored; all tasks in the table are pending,
-- and they are those that the creations alone would have made; and after a further claim its
-- run has no task left to claim.
pub never_sent :
    (ts : List Turn) (h : ℕ) (fault : Bool) (now : ℕ)
    → let s = run ts no_tasks in
      (s.senders ≡ [])
      × (s.messages ≡ [])
      × All IsPending s.tasks
      × (s.tasks ≡ (run (keep is_create ts) no_tasks).tasks)
      × ((step (claim h fault now) s).todo h ≡ [])
unfolding step
never_sent ts h fault now =
    let s = run ts no_tasks in
    let (idle, tasks) = run_lem ts no_tasks no_tasks (refl, refl, tt) (refl, refl, tt) refl in
    (idle.0, idle.1, idle.2, tasks, claim_ends h fault now (s.todo h) s refl)
