-- ===== src/Connector/Bootstrap/Registration.antt =====
-- What a registration leaves in the ledger.
use tom_ai_agent.Base.{
  ◌==◌, length, GoString, lookup, ℕ, ◌<◌, ◌≡◌, Bool, true, ◌||◌, Option, some, [],
}
use tom_ai_agent.Platform.Enrollment.{Ledger, EnrollmentRow, has_keys, record_of}
use tom_ai_agent.Connector.Bootstrap.{
  Pki, BootstrapServer, RegisterRequest, RegisterResponse, Reply, answer, refused, Faults, Others,
}

-- The ledger has the enrolment as completed with the asset of the response, and its certificate and the end
-- of its validity can be read back from there if the materials of the row are an object, as they are under the
-- condition `quiet`.
pub record IsRecorded (quiet : Type 0) (b : BootstrapServer) (id : GoString)
    (resp : RegisterResponse) (l : Ledger) : Type 0 where
  pub row : EnrollmentRow
  pub found : lookup id l.enrollments ≡ some row
  pub done : row.is_completed ≡ true
  pub asset : (record_of row).asset_id ≡ resp.asset_id
  pub readable : quiet → has_keys row.materials ≡ true
  pub cert : has_keys row.materials ≡ true → (record_of row).cert_der ≡ resp.certificate_der
  pub until :
      has_keys row.materials ≡ true
      → 0 < length resp.certificate_der
      → (record_of row).not_after ≡ resp.not_after
  pub gateway : resp.gateway_addr ≡ b.gateway_addr
  pub ca : resp.ca_der ≡ b.ca_der

abbrev Recorded : Type 0 → BootstrapServer → GoString → Reply RegisterResponse → Ledger → Type 0
Recorded quiet b id (answer resp) l = IsRecorded quiet b id resp l
Recorded quiet b id (refused _) l = Unit

module _ (pki : Pki) (b : BootstrapServer) (f : Faults) (o : Others) (random : Option GoString)
    (now : ℕ) (req : RegisterRequest) where
  -- Nothing comes between the begin of the enrolment and its end, and there are materials.
  abbrev pub Quiet : Type 0
  Quiet = (o.before_complete ≡ []) × (0 < length req.materials)

  abbrev is_blank : Bool
  is_blank = length req.enrollment_request_id == 0 || length req.bootstrap_token == 0
