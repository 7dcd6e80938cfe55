-- ===== src/Uplink/Control.antt =====
-- internal/uplink/grpc.go, controlRecv: the frames of the gateway on the control stream. The handler, if
-- there is one, is known by the calls that it gets.
use tom_ai_agent.Base.{
  if◌then◌else◌, GoString, ℕ, ◌+◌, ◌≤◌, ◌≡◌, refl, sym, ◌∙◌, Bool, true, false, Option, none, some,
  List, [], ◌∷◌, ◌++◌, append-nil, append_assoc, arith,
}
use tom_ai_agent.Authenv.{CommandEnvelope}

pub data GatewayFrame : Type 0 where
  welcome reconnect_hint other_frame : GatewayFrame
  command : CommandEnvelope → GatewayFrame
  cancel : GoString → GatewayFrame

pub data HandlerCall : Type 0 where
  submit_envelope_call : CommandEnvelope → HandlerCall
  cancel_command_call : GoString → HandlerCall

-- `is_ready` says whether the channel `ready` of the session is closed.
pub record ControlLoop : Type 0 where
  pub has_handler : Bool
  pub is_ready : Bool
  pub calls : List HandlerCall

unfoldable pub hand_over : HandlerCall → ControlLoop → ControlLoop
hand_over h s = if s.has_handler then record s { calls = s.calls ++ h ∷ [] } else s

-- What a frame does: whether the session ends, and the state. Closing a closed channel panics, which is
-- `none`.
unfoldable pub receive_frame : GatewayFrame → ControlLoop → Option (Bool × ControlLoop)
unfolding hand_over
receive_frame welcome s = if s.is_ready then none else some (false, record s { is_ready = true })
receive_frame (command env) s = some (false, hand_over (submit_envelope_call env) s)
receive_frame (cancel id) s = some (false, hand_over (cancel_command_call id) s)
receive_frame reconnect_hint s = some (true, s)
receive_frame other_frame s = some (false, s)

-- The frames of a stream, which is closed after them; the session ends in any case.
unfoldable pub receive_frames : List GatewayFrame → ControlLoop → Option ControlLoop
unfolding receive_frame
receive_frames [] s = some s
receive_frames (f ∷ fs) s = elim (receive_frame f s) [
  | none ↦ none
  | some (true, s') ↦ some s'
  | some (false, s') ↦ receive_frames fs s'
]

-- The calls that the frames before a hint ask for, in their order.
abbrev pub asked : List GatewayFrame → List HandlerCall
asked [] = []
asked (welcome ∷ fs) = asked fs
asked (command env ∷ fs) = submit_envelope_call env ∷ asked fs
asked (cancel id ∷ fs) = cancel_command_call id ∷ asked fs
asked (reconnect_hint ∷ fs) = []
asked (other_frame ∷ fs) = asked fs

-- How many frames before a hint are a welcome.
abbrev pub welcomes : List GatewayFrame → ℕ
welcomes [] = 0
welcomes (welcome ∷ fs) = welcomes fs + 1
welcomes (reconnect_hint ∷ fs) = 0
welcomes (command env ∷ fs) = welcomes fs
welcomes (cancel id ∷ fs) = welcomes fs
welcomes (other_frame ∷ fs) = welcomes fs

abbrev as_count : Bool → ℕ
as_count true = 1
as_count false = 0

-- If the gateway sends at most one welcome in a session, nothing panics, and the handler gets exactly the
-- calls that the frames before a reconnect hint ask for, in the order of the frames.
pub receive_frames_in_order :
    (fs : List GatewayFrame) (ready : Bool) (before : List HandlerCall)
    → welcomes fs + as_count ready ≤ 1
    → (s' : ControlLoop) × (receive_frames fs
          (record { has_handler = true; is_ready = ready; calls = before })
        ≡ some s')
      × (s'.calls ≡ before ++ asked fs)
unfolding receive_frames receive_frame hand_over
receive_frames_in_order [] ready before few = (_, refl, sym (append-nil before))
receive_frames_in_order (welcome ∷ fs) true before few = absurd (omega arith)
receive_frames_in_order (welcome ∷ fs) false before few =
    receive_frames_in_order fs true before (omega arith)
receive_frames_in_order (reconnect_hint ∷ fs) ready before few = (_, refl, sym (append-nil before))
receive_frames_in_order (other_frame ∷ fs) ready before few =
    receive_frames_in_order fs ready before few
receive_frames_in_order (command env ∷ fs) ready before few =
    let (s', run, e) =
      receive_frames_in_order fs ready (before ++ submit_envelope_call env ∷ []) few in
    (s', run, e ∙ append_assoc before _ _)
receive_frames_in_order (cancel id ∷ fs) ready before few =
    let (s', run, e) =
      receive_frames_in_order fs ready (before ++ cancel_command_call id ∷ []) few in
    (s', run, e ∙ append_assoc before _ _)
