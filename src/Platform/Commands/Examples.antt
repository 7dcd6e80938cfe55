-- ===== src/Platform/Commands/Examples.antt =====
-- Tests of the command tables, and their theorems on a short run.
use tom_ai_agent.Base.Int.{pos}
use tom_ai_agent.Base.{
  All, str_eq, GoString, codes, lookup, insert, ℕ, ◌≡◌, refl, inl, Bool, false, Option, none, some,
  List, [], ◌∷◌, arith, Any,
}
use tom_ai_agent.Platform.Commands.{
  CommandRow, EventRow, Json, no_rows, submit_command, complete_command, change_status,
  command_status, events_of, fetch_outbox, claim, is_available, any_fails, insert_outbox,
  insert_event, update_command, not_found, transition, cancel_command,
}
use tom_ai_agent.Platform.Commands.Calls.{
  Call, submit_call, cancel_call, transition_call, complete_call, after_call, after_calls,
}
use tom_ai_agent.Platform.Commands.Trail.{Trail, status_of, calls-HasTrails}
use tom_ai_agent.Platform.Commands.Requests.{requests, has_row, calls-OneRequest}
use tom_ai_agent.Platform.Commands.Claims.{claimed_once}

abbrev id : GoString
id = codes "c-1"

abbrev never : ℕ → Bool
never i = false

abbrev json : Json
json = record {
  marshal = λ p. p.cmd_id;
  marshal_id = λ i. i;
  unmarshal = λ i.
      some (record { cmd_id = i; asset_id = []; action = []; params = []; timeout_sec = pos 0 });
}

abbrev submitting : Call
submitting = submit_call never id (codes "host-1") (codes "ping") [] (pos 5) 300 10

abbrev run : List Call
run =
    submitting
    ∷ transition_call never id (codes "delivered") (codes "DELIVERED") (codes "connector")
        (codes "null")
    ∷ cancel_call false id 11
    ∷ complete_call never id (codes "SUCCEEDED") (some (codes "ok"))
    ∷ []

unknown_completed : (complete_command never no_rows id (codes "FAILED") none).0 ≡ some not_found
unfolding complete_command change_status any_fails lookup
unknown_completed = refl

abbrev final_status : Option (CommandRow × List EventRow) → GoString
final_status none = []
final_status (some (c, es)) = c.status

status_read : final_status (command_status (after_calls json no_rows run) id) ≡ codes "SUCCEEDED"
unfolding command_status events_of after_calls after_call submit_command transition complete_command
    cancel_command change_status any_fails insert_outbox insert_event update_command lookup insert
    str_eq
status_read = refl

calls-HasTrails_example :
    Trail id none
      (after_calls json no_rows run).events
      (status_of (after_calls json no_rows run).commands id)
    × (lookup id (after_calls json no_rows run).commands ≡ none
        → All (λ e. str_eq e.cmd_id id ≡ false) (after_calls json no_rows run).events)
calls-HasTrails_example = calls-HasTrails json run id

calls-OneRequest_example :
    requests id (after_calls json no_rows run).outbox
    ≡ has_row id (after_calls json no_rows run).commands
calls-OneRequest_example = calls-OneRequest json run id

claimed_once_example :
    ¬ Any
      (λ e. e.event_id ≡ 1)
      (fetch_outbox false
        (after_calls json
          (fetch_outbox false (after_calls json no_rows (submitting ∷ [])) (codes "a") 32 20).2
          (cancel_call false id 25 ∷ []))
        (codes "b")
        32
        50).1
unfolding fetch_outbox claim is_available after_calls after_call submit_command any_fails
    insert_outbox insert_event update_command lookup insert
claimed_once_example =
    claimed_once json (submitting ∷ []) (cancel_call false id 25 ∷ []) (codes "a") (codes "b") 32 32
      20 50 1 (inl refl) (omega arith) (refl, tt)
