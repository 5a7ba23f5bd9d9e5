-- ===== src/Tests/Groups.antt =====
-- A group chat, and scheduled messages.
use go_im_system.Prelude.{
  All, true, ℕ, ◌≡◌, refl, List, [], ◌∷◌, none, some, pos, false, int_Eq, ℤ, map,
}
use go_im_system.Text.{codes, format_int}
use go_im_system.Snowflake.{generate}
use go_im_system.Wire.{UploadPayload, plain_json, chat_type_group}
use go_im_system.Logic.Upload.{LogicState, done, draw, handle_group_chat}
use go_im_system.Logic.FanOut.{no_faults, draw_ids, rows_of, pushes_of}
use go_im_system.Logic.FanOut.Stored.{group_delivery-Stored}
use go_im_system.Logic.Groups.{Group, GroupTables, create_group}
use go_im_system.Logic.Groups.Created.{create_group_lem}
use go_im_system.Agent.Schedule.{
  Turn, create, poll, claim, go_on, run, no_tasks, step, claim_next, advance_at,
}
use go_im_system.Agent.Schedule.Store.{
  Database, ScheduledMessages, create_scheduled_message, get_pending_scheduled_tasks, claim_task,
}
use go_im_system.Agent.Schedule.Claims.{IsPending, never_sent}

abbrev Bodies : Type 0
Bodies = plain_json.Body

abbrev any_id : ℤ → ℤ
any_id m = pos 1

abbrev to_group : UploadPayload
to_group = record {
  msg_id = pos 100;
  seq_id = pos 1;
  chat_type = chat_type_group;
  group_id = pos 5;
  conv_id = codes "group_5";
  sender_id = pos 7;
  receiver_id = pos 0;
  content = codes "hello";
}

abbrev logic : List ℕ → ℕ → LogicState Bodies
logic clock last = record {
  messages = [];
  members = (pos 5, pos 7) ∷ ((pos 5, pos 8) ∷ ((pos 5, pos 9) ∷ []));
  routes = (codes "route:user:8", codes "gw:8080") ∷ [];
  published = [];
  snowflake = record { last_timestamp = last; sequence = 0; node_id = 2 };
  clock = clock;
  now = 40;
}

abbrev four_readings : List ℕ
four_readings = 11 ∷ (12 ∷ (13 ∷ (14 ∷ [])))

abbrev members_ids : List ℕ
members_ids = 50339840 ∷ (58728448 ∷ [])

abbrev others : List ℤ
others = pos 8 ∷ (pos 9 ∷ [])

drawn : draw_ids others (logic four_readings 10) ≡ some (members_ids, logic [] 14)
unfolding draw_ids draw generate
drawn = refl

group_delivery-Stored_example :
    handle_group_chat plain_json (no_faults any_id) to_group (logic four_readings 10)
    ≡ some (
      done,
      record (logic [] 14) {
        messages = rows_of any_id 40 to_group others members_ids;
        published = pushes_of plain_json any_id (logic [] 14).routes to_group others members_ids;
      },
    )
unfolding format_int
group_delivery-Stored_example =
    group_delivery-Stored plain_json any_id to_group (logic four_readings 10) (logic [] 14)
      members_ids drawn (refl, (refl, tt))

-- The database gives the group the id 5.
abbrev friends : Group
friends = record {
  group_id = pos 0;
  group_name = codes "friends";
  owner_id = pos 7;
  creator_id = pos 7;
  create_time = 0;
}

abbrev empty_tables : GroupTables
empty_tables = record { groups = []; members = [] }

-- The group of three is refused, with nothing stored; its founder alone could make it.
create_group_lem_example :
    create_group (pos 5) 30 false false friends (pos 7 ∷ others) empty_tables ≡ (true, empty_tables)
create_group_lem_example =
    create_group_lem (pos 5) 30 false false friends (pos 7 ∷ others) empty_tables

alone : create_group (pos 5) 30 false false friends (pos 7 ∷ []) empty_tables ≡ (
  false,
  record {
    groups = record friends { group_id = pos 5; create_time = 30 } ∷ [];
    members = (pos 5, pos 7) ∷ [];
  },
)
unfolding create_group
alone = refl

abbrev birthday : ScheduledMessages
birthday = record {
  sch_msg_id = pos 0;
  creator_id = pos 7;
  receiver_id = pos 8;
  content = codes "happy birthday";
  scheduled_send_time = 50;
  status = 0;
  fail_reason = [];
  update_time = 20;
}

abbrev server : Database
server = record {
  duplicate = codes "duplicate entry";
  unknown = codes "unknown column";
  assigned = pos 1;
}

-- Two runs find the task, and their claims fail.
abbrev two_runs : List Turn
two_runs =
    create false (pos 3) birthday
    ∷ (poll 0 false 60 ∷ (poll 1 false 60 ∷ (claim 0 false 61 ∷ (go_on 0 none 900 62 server ∷ []))))

found : map (λ m. m.sch_msg_id) ((run two_runs no_tasks).todo 1) ≡ pos 3 ∷ []
unfolding run step create_scheduled_message get_pending_scheduled_tasks claim_task claim_next
    advance_at
found = refl

never_sent_example :
    let s = run two_runs no_tasks in
    (s.senders ≡ [])
    × (s.messages ≡ [])
    × All IsPending s.tasks
    × (s.tasks ≡ (run (create false (pos 3) birthday ∷ []) no_tasks).tasks)
    × ((step (claim 1 false 61) s).todo 1 ≡ [])
never_sent_example = never_sent two_runs 1 false 61
