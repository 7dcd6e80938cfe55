-- ===== src/Executor/Engine.antt =====
-- internal/executor/engine.go and envelope.go: the admission of commands and their results. The clock
-- is `now`. `results` is what the engine hands to the reliable queue of the reporter, in order, and
-- `queue` is the buffered channel. A text of an error stands as the value that it is made of.
pub mod Admission
pub mod Replay
pub mod Timeout
mod Examples
use tom_ai_agent.Base.{
  ltb, leb, if◌then◌else◌, length, GoString, lookup, Dict, ℕ, ◌+◌, ◌-◌, ◌*◌, Bool, true, false, not,
  ◌&&◌, ◌||◌, Option, none, some, List, [], ◌∷◌, ◌++◌,
}
use tom_ai_agent.Base.Int.{ℤ, pos, negsuc, ltb_ℤ}
use tom_ai_agent.Base.BigEndian.{to_uint64}
use tom_ai_agent.Authenv.{CommandEnvelope, VerifyError, Ed25519, verify}
use tom_ai_agent.Authenv.Nonces.{NonceCache, NonceError, check}
use tom_ai_agent.Executor.Actions.{Action, ParamError}

pub record Command : Type 0 where
  pub cmd_id : GoString
  pub action : GoString
  pub params : Dict GoString
  pub timeout_sec : ℤ

pub data Status : Type 0 where
  succeeded failed timeout_killed cancelled rejected_busy rejected_policy queued : Status

pub data Refusal : Type 0 where
  signature_invalid : VerifyError → Refusal
  nonce_refused : NonceError → Refusal
  param_failed : ParamError → Refusal
  nonce_required envelope_expired unknown_action queue_full : Refusal

pub data ErrorText : Type 0 where
  output : GoString → ErrorText
  refusal : Refusal → ErrorText

pub data KillReason : Type 0 where
  no_kill timeout_kill cancel_kill : KillReason

pub record Result : Type 0 where
  pub cmd_id : GoString
  pub status : Status
  pub exit_code : ℤ
  pub stdout : GoString
  pub stderr : ErrorText
  pub truncated : Bool
  pub kill_reason : KillReason
  pub duration_ms : ℤ
  pub started_at : ℤ
  pub finished_at : ℤ

-- A result of a command that did not run.
unfoldable pub unrun : GoString → Status → ErrorText → ℤ → Result
unrun cmd_id status stderr now = record {
  cmd_id = cmd_id;
  status = status;
  exit_code = negsuc 0;
  stdout = [];
  stderr = stderr;
  truncated = false;
  kill_reason = no_kill;
  duration_ms = pos 0;
  started_at = pos 0;
  finished_at = now;
}

-- int64 of the low 64 bits.
unfoldable pub wrap_int64 : ℤ → ℤ
wrap_int64 z =
    let u = to_uint64 z in
    if ltb u 9223372036854775808 then pos u else negsuc (18446744073709551615 - u)

-- time.Duration(n) * time.Second, in nanoseconds.
unfoldable pub seconds : ℤ → ℤ
unfolding wrap_int64
seconds (pos n) = wrap_int64 (pos (n * 1000000000))
seconds (negsuc n) = wrap_int64 (negsuc (n * 1000000000 + 999999999))

-- The timeout that `execute` gives a command: the action's, the configuration's and the command's.
unfoldable pub max_timeout_for : ℤ → ℤ → ℤ
max_timeout_for configured plugin_to =
    let most = if ltb_ℤ (pos 0) configured then configured else pos 300000000000 in
    if ltb_ℤ (pos 0) plugin_to && ltb_ℤ plugin_to most then plugin_to else most

unfoldable pub effective_timeout : ℤ → ℤ → ℤ → ℤ
unfolding max_timeout_for seconds
effective_timeout configured plugin_to timeout_sec =
    let timeout = seconds timeout_sec in
    let most = max_timeout_for configured plugin_to in
    if not (ltb_ℤ (pos 0) timeout) || ltb_ℤ most timeout then most else timeout

pub data ContextError : Type 0 where
  deadline_exceeded canceled : ContextError

pub data ExecError : Type 0 where
  exit_error : ℤ → ExecError
  other_error : GoString → ExecError

-- What `execute` reports: the context's error, whether the engine itself stops, and the error of
-- the run, with the outputs that were captured.
unfoldable pub finish :
    GoString
    → GoString
    → GoString
    → Bool
    → Option ContextError
    → Bool
    → Option ExecError
    → ℤ
    → ℤ
    → ℤ
    → Result
finish cmd_id stdout stderr truncated ctx stopping error duration started now =
    let ended : Status → ℤ → GoString → KillReason → Result = λ status code err kill. record {
      cmd_id = cmd_id;
      status = status;
      exit_code = code;
      stdout = stdout;
      stderr = output err;
      truncated = truncated;
      kill_reason = kill;
      duration_ms = duration;
      started_at = started;
      finished_at = now;
    } in
    let by_error : Result = elim error [
      | none ↦ ended succeeded (pos 0) stderr no_kill
      | some (exit_error code) ↦ ended failed code stderr no_kill
      | some (other_error text) ↦ ended failed (negsuc 0) (stderr ++ 10 ∷ text) no_kill
    ] in
    elim ctx [
      | some deadline_exceeded ↦ ended timeout_killed (negsuc 0) stderr timeout_kill
      | some canceled ↦
          if not stopping then ended cancelled (negsuc 0) stderr cancel_kill else by_error
      | none ↦ by_error
    ]

module _ (c : Ed25519) where
  open c use {PublicKey}

  -- `verify_key` is `none` in the development mode, which verifies no signature.
  pub record Engine : Type 0 where
    pub catalog : Dict Action
    pub verify_key : Option PublicKey
    pub nonces : NonceCache
    pub queue_size : ℕ
    pub queue : List Command
    pub running : List GoString
    pub results : List Result

  unfoldable pub validate : Engine → Command → Option Refusal
  validate e cmd = elim (lookup cmd.action e.catalog) [
    | none ↦ some unknown_action
    | some a ↦ elim a.validate [
      | none ↦ none
      | some check_params ↦ elim (check_params cmd.params) [
        | none ↦ none
        | some error ↦ some (param_failed error)
      ]
    ]
  ]

  unfoldable pub submit : Engine → Command → ℤ → Result × Engine
  submit e cmd now = elim (validate e cmd) [
    | some r ↦ (unrun cmd.cmd_id rejected_policy (refusal r) now, e)
    | none ↦
        if ltb (length e.queue) e.queue_size
        then (unrun cmd.cmd_id queued (output []) (pos 0), record e { queue = e.queue ++ cmd ∷ [] })
        else (unrun cmd.cmd_id rejected_busy (refusal queue_full) now, e)
  ]

  unfoldable pub report_immediate : Engine → Result → Engine
  report_immediate e r = record e { results = e.results ++ r ∷ [] }

  unfoldable pub reject : Engine → CommandEnvelope → Refusal → ℤ → Engine
  unfolding report_immediate
  reject e env r now = report_immediate e (unrun env.cmd_id rejected_policy (refusal r) now)

  unfoldable pub command_of : CommandEnvelope → Command
  command_of env = record {
    cmd_id = env.cmd_id;
    action = env.action;
    params = env.params;
    timeout_sec = pos env.timeout_sec;
  }

  unfoldable pub is_queued : Status → Bool
  is_queued queued = true
  is_queued _ = false

  -- The part of `SubmitEnvelope` behind the signature and the nonce.
  unfoldable pub admit : Engine → CommandEnvelope → ℤ → Engine
  unfolding reject report_immediate
  admit e env now =
      let (res, e') = submit e (command_of env) now in
      if ltb_ℤ (pos 0) env.expires_at && ltb_ℤ env.expires_at now
      then reject e env envelope_expired now
      else if not (is_queued res.status)
      then report_immediate e' res
      else e'

  unfoldable pub submit_envelope : Engine → CommandEnvelope → ℤ → Engine
  unfolding admit reject
  submit_envelope e env now = elim e.verify_key [
    | none ↦ admit e env now
    | some key ↦ elim (verify c key env) [
      | some error ↦ reject e env (signature_invalid error) now
      | none ↦
          let (error, nonces) = check e.nonces env.nonce env.expires_at now in
          let e' = record e { nonces = nonces } in
          if leb (length env.nonce) 0
          then reject e env nonce_required now
          else elim error [ some r ↦ reject e' env (nonce_refused r) now | none ↦ admit e' env now ]
    ]
  ]
