-- ===== src/Platform/Enrollment/Examples.antt =====
-- The second enrolment of an asset that has a certificate.
use tom_ai_agent.Base.{str_eq, GoString, codes, lookup, ◌≡◌, refl, false, none, [], ◌∷◌}
use tom_ai_agent.Platform.Commands.{any_fails}
use tom_ai_agent.Platform.Enrollment.{
  Ledger, Certificate, json_null, active, complete_enrollment, is_taken, certificate_row,
  active_count, is_active_of,
}

abbrev asset : GoString
asset = codes "asset-05"

abbrev again : GoString
again = codes "e-2"

abbrev open_again : Ledger
open_again = record {
  enrollments =
      (
        again,
        record {
          bootstrap_token_hash = [];
          csr_pubkey_sha256 = [];
          asset_id = none;
          cert_id = none;
          materials = json_null;
          cert_der = [];
          not_after = 0;
          is_completed = false;
        },
      )
      ∷ [];
  certificates =
      record {
        cert_id = 1;
        asset_id = asset;
        serial_no = codes "12";
        fingerprint = codes "34";
        not_before = 700;
        not_after = 1090;
        status = active;
      }
      ∷ [];
  next_cert_id = 2;
}

abbrev cert : Certificate
cert = record {
  der = 9 ∷ [];
  serial = codes "56";
  fingerprint = codes "78";
  not_before = 800;
  not_after = 1190;
}

two_active :
    active_count asset (complete_enrollment (λ i. false) open_again again asset cert).1.certificates
    ≡ 2
unfolding complete_enrollment is_taken certificate_row any_fails active_count is_active_of lookup
    str_eq
two_active = refl
