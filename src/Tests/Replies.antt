-- ===== src/Tests/Replies.antt =====
-- Calls of one connection, answered and broken off.
use go_im_system.Prelude.{◌≤◌, ◌≡◌, refl, true, List, [], ◌∷◌, ◌++◌, none, some, arith, ◌⊎◌}
use go_im_system.Text.{codes}
use go_im_system.Rpc.Client.{
  Turn, send_call, write_ends, header_comes, body_ends, caller_leaves, new_client_codec, run, send,
  step, written, on_header, on_body, remove_call, register_call, give_up, terminate_calls,
}
use go_im_system.Rpc.Client.Once.{run_once}
use go_im_system.Rpc.Client.Answered.{all_answered, breaks}

-- Three calls: the first is answered, the caller of the second leaves, the third waits.
abbrev three_calls : List Turn
three_calls =
    send_call (codes "Logic.Online")
    ∷ (write_ends none
        ∷ (send_call (codes "Logic.Unread")
            ∷ (write_ends none
                ∷ (header_comes 1 []
                    ∷ (body_ends none
                        ∷ (caller_leaves 1 ∷ (send_call (codes "Logic.Ack") ∷ [])))))))

run_once_example : ((run three_calls new_client_codec).calls 0).done ≤ 1
run_once_example = run_once three_calls 0

three_calls-next : (run (three_calls ++ breaks (codes "EOF")) new_client_codec).next ≡ 3
unfolding run step send written on_header on_body remove_call register_call give_up terminate_calls
three_calls-next = refl

all_answered_example :
    let c = run (three_calls ++ breaks (codes "EOF")) new_client_codec in
    ((c.calls 2).done ≡ 1) ⊎ (c.given_up 2 ≡ true)
all_answered_example =
    all_answered three_calls (codes "EOF") 2 (omega (arith, three_calls-next))
      (omega (arith, three_calls-next))

third_call_broken :
    ((run (three_calls ++ breaks (codes "EOF")) new_client_codec).calls 2).error
    ≡ some (codes "EOF")
unfolding run step send written on_header on_body remove_call register_call give_up terminate_calls
third_call_broken = refl
