-- ===== src/Platform/Commands/Calls.antt =====
-- Any sequence of the store's calls on commands, with any failures of the database.
use tom_ai_agent.Base.Int.{ℤ}
use tom_ai_agent.Base.{GoString, Dict, ℕ, Bool, Option, List, [], ◌∷◌}
use tom_ai_agent.Platform.Commands.{
  Tables, Json, submit_command, cancel_command, transition, complete_command, fetch_outbox,
  mark_published, mark_outbox_error,
}

pub data Call : Type 0 where
  submit_call : (ℕ → Bool) → GoString → GoString → GoString → Dict GoString → ℤ → ℕ → ℕ → Call
  cancel_call : Bool → GoString → ℕ → Call
  transition_call : (ℕ → Bool) → GoString → GoString → GoString → GoString → GoString → Call
  complete_call : (ℕ → Bool) → GoString → GoString → Option GoString → Call
  fetch_call : Bool → GoString → ℕ → ℕ → Call
  published_call : Bool → ℕ → ℕ → Call
  error_call : Bool → ℕ → GoString → Call

module _ (j : Json) where
  unfoldable pub after_call : Tables → Call → Tables
  after_call db (submit_call f id asset action params t ttl now) =
      (submit_command j f db id asset action params t ttl now).1
  after_call db (cancel_call f id now) = (cancel_command j f db id now).1
  after_call db (transition_call f id kind to actor detail) =
      (transition f db id kind to actor detail).1
  after_call db (complete_call f id to result) = (complete_command f db id to result).1
  after_call db (fetch_call f worker limit now) = (fetch_outbox f db worker limit now).2
  after_call db (published_call f event now) = (mark_published f db event now).1
  after_call db (error_call f event msg) = (mark_outbox_error f db event msg).1

  unfoldable pub after_calls : Tables → List Call → Tables
  after_calls db [] = db
  after_calls db (c ∷ cs) = after_calls (after_call db c) cs
