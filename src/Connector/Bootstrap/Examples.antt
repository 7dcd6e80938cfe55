-- ===== src/Connector/Bootstrap/Examples.antt =====
-- The registration and the rotation of one asset's certificate, with a small key infrastructure.
use tom_ai_agent.Base.{
  str_eq, codes, lookup, insert, ◌≡◌, refl, true, false, none, some, [], ◌∷◌, ◌++◌,
}
use tom_ai_agent.Authenv.Nonces.{hex, hex_digit}
use tom_ai_agent.Platform.Commands.{any_fails}
use tom_ai_agent.Platform.Enrollment.{
  Ledger, active, EnrollmentRow, json_object, fail_enrollment, record_of, find_enrollment,
  begin_enrollment, complete_enrollment, is_taken, certificate_row,
}
use tom_ai_agent.Platform.Enrollment.Final.{after_calls}
use tom_ai_agent.Connector.Bootstrap.{
  Pki, ed25519_key, BootstrapServer, RegisterRequest, RegisterResponse, refused, unauthenticated,
  unavailable, Faults, Others, parse_csr, sign, asset_id_of, issue, enroll, register,
  rotate_certificate, strip_zeros,
}
use tom_ai_agent.Connector.Bootstrap.Rotation.{Rotated, rotate_certificate-Rotated}

abbrev pki : Pki
pki = record {
  sha256 = λ x. x;
  parse_request = λ der. some (record { signature_valid = true; public_key = ed25519_key der });
  create_certificate = λ t key. some (t.common_name ++ key);
}

abbrev server : BootstrapServer
server = record {
  ca_der = 7 ∷ [];
  token_hash = codes "token";
  cert_ttl = 90;
  gateway_addr = codes "gw";
}

abbrev up : Faults
up = record {
  find = false;
  reset = false;
  begins = false;
  complete = λ i. false;
  compensate = false;
}

abbrev alone : Others
alone = record {
  before_reset = [];
  before_begin = [];
  before_complete = [];
  before_compensate = [];
}

abbrev request : RegisterRequest
request = record {
  enrollment_request_id = codes "e-1";
  bootstrap_token = codes "token";
  csr_der = 5 ∷ [];
  materials = (codes "arch", codes "arm64") ∷ [];
}

abbrev empty : Ledger
empty = record { enrollments = []; certificates = []; next_cert_id = 1 }

abbrev response : RegisterResponse
response = record {
  asset_id = codes "asset-05";
  gateway_addr = codes "gw";
  certificate_der = codes "asset-05" ++ 5 ∷ [];
  ca_der = 7 ∷ [];
  not_after = 1090;
}

serial_text : strip_zeros (hex (0 ∷ 18 ∷ [])) ≡ codes "12"
unfolding strip_zeros hex hex_digit
serial_text = refl

abbrev recorded : EnrollmentRow
recorded = record {
  bootstrap_token_hash = hex (codes "token");
  csr_pubkey_sha256 = hex (5 ∷ []);
  asset_id = some (codes "asset-05");
  cert_id = some 1;
  materials = json_object ((codes "arch", codes "arm64") ∷ []);
  cert_der = codes "asset-05" ++ 5 ∷ [];
  not_after = 1090;
  is_completed = true;
}

-- A request without materials is answered, but it cannot be repeated.
abbrev bare : RegisterRequest
bare = record request { materials = [] }

bare_unrepeatable :
    (register pki server up alone none 2000 bare
      (register pki server up alone (some (0 ∷ 18 ∷ [])) 1000 bare empty).1).0
    ≡ refused unavailable
unfolding register enroll issue parse_csr sign asset_id_of find_enrollment begin_enrollment
    fail_enrollment complete_enrollment is_taken certificate_row any_fails after_calls lookup insert
    str_eq hex hex_digit strip_zeros record_of
bare_unrepeatable = refl

abbrev with_certificate : Ledger
with_certificate = record {
  enrollments = [];
  certificates =
      record {
        cert_id = 1;
        asset_id = codes "asset-05";
        serial_no = codes "12";
        fingerprint = codes "34";
        not_before = 700;
        not_after = 1090;
        status = active;
      }
      ∷ [];
  next_cert_id = 2;
}

rotate_certificate-Rotated_example :
    Rotated
      (some (codes "asset-05"))
      (codes "asset-05")
      with_certificate
      (rotate_certificate pki server
        (λ i. false)
        (some (codes "asset-05"))
        (some (1 ∷ []))
        5000
        (codes "asset-05")
        (6 ∷ [])
        with_certificate).0
      (rotate_certificate pki server
        (λ i. false)
        (some (codes "asset-05"))
        (some (1 ∷ []))
        5000
        (codes "asset-05")
        (6 ∷ [])
        with_certificate).1
rotate_certificate-Rotated_example =
    rotate_certificate-Rotated pki server (λ i. false) (some (1 ∷ [])) 5000 (codes "asset-05")
      (6 ∷ []) with_certificate (some (codes "asset-05"))

stranger_refused :
    (rotate_certificate pki server
      (λ i. false)
      (some (codes "asset-06"))
      (some (1 ∷ []))
      5000
      (codes "asset-05")
      (6 ∷ [])
      with_certificate).0
    ≡ refused unauthenticated
unfolding rotate_certificate str_eq
stranger_refused = refl
