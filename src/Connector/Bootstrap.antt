-- ===== src/Connector/Bootstrap.antt =====
-- internal/connector/bootstrap.go: the registration of agents and the rotation of their certificates
-- over the ledger of Platform/Enrollment. The requests of other agents run at the same time: their
-- calls of the ledger that come before a call of this request are the list `before` of that call.
-- crypto/sha256, crypto/x509 and the source of random bytes are parameters.
pub mod Registration
pub mod Replay
pub mod Rotation
mod Examples
use tom_ai_agent.Base.{
  ltb, ◌==◌, if◌then◌else◌, length, take, str_eq, GoString, codes, Dict, ℕ, ◌+◌, ◌-◌, ◌≡◌, refl,
  ◌⊎◌, inl, inr, Bool, not, ◌&&◌, ◌||◌, Option, none, some, List, [], ◌∷◌, ◌++◌,
}
use tom_ai_agent.Authenv.Nonces.{hex}
use tom_ai_agent.Platform.Enrollment.{
  Ledger, LedgerError, not_enrolled, Certificate, find_enrollment, begin_enrollment,
  fail_enrollment, complete_enrollment, rotate_certificate_tx,
}
use tom_ai_agent.Platform.Enrollment.Final.{Call, after_calls}

-- The codes of google.golang.org/grpc/codes that the handlers answer with.
pub data Code : Type 0 where
  invalid_argument permission_denied internal unavailable unauthenticated failed_precondition : Code

-- A public key of a certificate request.
pub data PublicKey : Type 0 where
  ed25519_key : GoString → PublicKey
  other_key : PublicKey

pub record CertificateRequest : Type 0 where
  pub signature_valid : Bool
  pub public_key : PublicKey

-- The fields of the template that depend on the request; the others are constant.
pub record Template : Type 0 where
  pub serial_number : GoString
  pub common_name : GoString
  pub not_before : ℕ
  pub not_after : ℕ

-- `create_certificate` has the certificate and the key of the authority.
pub record Pki : Type 0 where
  pub sha256 : GoString → GoString
  pub parse_request : GoString → Option CertificateRequest
  pub create_certificate : Template → GoString → Option GoString

pub record BootstrapServer : Type 0 where
  pub ca_der : GoString
  pub token_hash : GoString
  pub cert_ttl : ℕ
  pub gateway_addr : GoString

pub record RegisterRequest : Type 0 where
  pub enrollment_request_id : GoString
  pub bootstrap_token : GoString
  pub csr_der : GoString
  pub materials : Dict GoString

pub record RegisterResponse : Type 0 where
  pub asset_id : GoString
  pub gateway_addr : GoString
  pub certificate_der : GoString
  pub ca_der : GoString
  pub not_after : ℕ

-- An answer, or the code of an error.
pub data Reply (A : Type 0) : Type 0 where
  answer : A → Reply A
  refused : Code → Reply A

pub Reply-cases :
    {A : Type 0} (r : Reply A) → ((a : A) × (r ≡ answer a)) ⊎ ((c : Code) × (r ≡ refused c))
Reply-cases (answer a) = inl (a, refl)
Reply-cases (refused c) = inr (c, refl)

-- Which statements of the database fail.
pub record Faults : Type 0 where
  pub find : Bool
  pub reset : Bool
  pub begins : Bool
  pub complete : ℕ → Bool
  pub compensate : Bool

-- The calls of other requests before the calls of this one.
pub record Others : Type 0 where
  pub before_reset : List Call
  pub before_begin : List Call
  pub before_complete : List Call
  pub before_compensate : List Call

-- fmt.Sprintf("%x") of the number with these bytes: no leading zeros.
unfoldable pub strip_zeros : GoString → GoString
strip_zeros [] = codes "0"
strip_zeros (d ∷ ds) = let rest = strip_zeros ds in if d == 48 then rest else d ∷ ds

module _ (pki : Pki) where
  open pki use {sha256, parse_request, create_certificate}

  unfoldable pub parse_csr : GoString → Reply GoString
  parse_csr der = if length der == 0 then refused invalid_argument else elim (parse_request der) [
    | none ↦ refused invalid_argument
    | some csr ↦ if not csr.signature_valid then refused invalid_argument else elim csr.public_key [
      | ed25519_key pub_key ↦ answer pub_key
      | other_key ↦ refused invalid_argument
    ]
  ]

  -- `random` is what the source of random bytes gives, `none` when it fails.
  unfoldable pub sign :
      BootstrapServer → Option GoString → GoString → GoString → ℕ → Option Certificate
  unfolding strip_zeros hex
  sign b random pub_key asset_id now = elim random [
    | none ↦ none
    | some serial ↦
        let template : Template = record {
          serial_number = serial;
          common_name = asset_id;
          not_before = now - 300;
          not_after = now + b.cert_ttl;
        } in
        elim (create_certificate template pub_key) [
          | none ↦ none
          | some der ↦ some (record {
            der = der;
            serial = strip_zeros (hex serial);
            fingerprint = hex (sha256 der);
            not_before = now - 300;
            not_after = now + b.cert_ttl;
          })
        ]
  ]

  -- "asset-" and the first eight bytes of the hash of the key.
  unfoldable pub asset_id_of : GoString → GoString
  unfolding hex
  asset_id_of pub_key = codes "asset-" ++ hex (take 8 (sha256 pub_key))

  -- From the signing of the certificate on.
  unfoldable pub issue :
      BootstrapServer
      → Faults
      → Others
      → Option GoString
      → ℕ
      → RegisterRequest
      → GoString
      → Ledger
      → Reply RegisterResponse × Ledger
  unfolding sign
  issue b f o random now req pub_key l =
      let id = req.enrollment_request_id in
      let asset = asset_id_of pub_key in
      let l1 = after_calls l o.before_complete in
      elim (sign b random pub_key asset now) [
        | none ↦ (
          refused internal,
          (fail_enrollment f.compensate (after_calls l o.before_compensate) id).1,
        )
        | some c ↦ elim (complete_enrollment f.complete l1 id asset c).0 [
          | some _ ↦ (
            refused internal,
            (fail_enrollment f.compensate
                (after_calls (complete_enrollment f.complete l1 id asset c).1 o.before_compensate)
                id).1,
          )
          | none ↦ (
            answer (record {
              asset_id = asset;
              gateway_addr = b.gateway_addr;
              certificate_der = c.der;
              ca_der = b.ca_der;
              not_after = c.not_after;
            }),
            (complete_enrollment f.complete l1 id asset c).1,
          )
        ]
      ]

  -- From the check of the CSR on.
  unfoldable pub enroll :
      BootstrapServer
      → Faults
      → Others
      → Option GoString
      → ℕ
      → RegisterRequest
      → Ledger
      → Reply RegisterResponse × Ledger
  unfolding parse_csr issue hex
  enroll b f o random now req l = elim (parse_csr req.csr_der) [
    | refused code ↦ (refused code, l)
    | answer pub_key ↦
        let begun =
          begin_enrollment f.begins (after_calls l o.before_begin) req.enrollment_request_id
            (hex (sha256 req.bootstrap_token)) (hex (sha256 pub_key)) req.materials in
        elim begun.0 [
          | some _ ↦ (refused internal, begun.2)
          | none ↦
              if not begun.1
              then (refused unavailable, begun.2)
              else issue b f o random now req pub_key begun.2
        ]
  ]

  unfoldable pub register :
      BootstrapServer
      → Faults
      → Others
      → Option GoString
      → ℕ
      → RegisterRequest
      → Ledger
      → Reply RegisterResponse × Ledger
  unfolding enroll
  register b f o random now req l =
      let found = find_enrollment f.find l req.enrollment_request_id in
      let reset =
        fail_enrollment f.reset (after_calls l o.before_reset) req.enrollment_request_id in
      if length req.enrollment_request_id == 0 || length req.bootstrap_token == 0
      then (refused invalid_argument, l)
      else if not (str_eq (sha256 req.bootstrap_token) b.token_hash)
      then (refused permission_denied, l)
      else elim found.0 [
        | some _ ↦ (refused internal, l)
        | none ↦ elim found.1 [
          | none ↦ enroll b f o random now req l
          | some rec ↦
              if rec.is_completed && ltb 0 (length rec.cert_der)
              then (
                answer (record {
                  asset_id = rec.asset_id;
                  gateway_addr = b.gateway_addr;
                  certificate_der = rec.cert_der;
                  ca_der = b.ca_der;
                  not_after = rec.not_after;
                }),
                l,
              )
              else elim reset.0 [
                | some _ ↦ (refused internal, reset.1)
                | none ↦ enroll b f o random now req reset.1
              ]
        ]
      ]

  -- `peer` is the common name of the certificate that the connection has, `none` without one. The
  -- answer is the certificate and the end of its validity.
  unfoldable pub rotate_certificate :
      BootstrapServer
      → (ℕ → Bool)
      → Option GoString
      → Option GoString
      → ℕ
      → GoString
      → GoString
      → Ledger
      → Reply (GoString × ℕ) × Ledger
  unfolding parse_csr sign
  rotate_certificate b fails peer random now asset_id csr_der l =
      if length asset_id == 0 then (refused invalid_argument, l) else elim peer [
        | none ↦ (refused unauthenticated, l)
        | some cn ↦
            if not (str_eq cn asset_id)
            then (refused unauthenticated, l)
            else elim (parse_csr csr_der) [
              | refused code ↦ (refused code, l)
              | answer pub_key ↦ elim (sign b random pub_key asset_id now) [
                | none ↦ (refused internal, l)
                | some c ↦
                    let (err, l') : Option LedgerError × Ledger =
                      rotate_certificate_tx fails l asset_id c in
                    elim err [
                      | none ↦ (answer (c.der, c.not_after), l')
                      | some not_enrolled ↦ (refused failed_precondition, l')
                      | some _ ↦ (refused internal, l')
                    ]
              ]
            ]
      ]
