-- ===== src/Platform/Enrollment.antt =====
-- internal/platform/store.go: the ledger of enrolments and certificates. The tables are those of
-- db/ddl/001_core.sql. `fails i` says whether the i-th statement fails, as for the
-- commands. Times are Unix times in seconds.
pub mod Final
pub mod Active
mod Examples
use tom_ai_agent.Base.{
  ltb, ◌==◌, if◌then◌else◌, length, str_eq, GoString, lookup, insert, delete, Dict, ℕ, ◌+◌, Bool,
  true, false, ◌&&◌, ◌||◌, Option, none, some, List, [], ◌∷◌, ◌++◌,
}
use tom_ai_agent.Platform.Commands.{any_fails}

-- `not_processing` is the text that CompleteEnrollment makes; a unique column that has the value
-- already is `taken`.
pub data LedgerError : Type 0 where
  ledger_failed not_processing taken not_enrolled : LedgerError

-- The column `materials`, as jsonb: a map without entries, which is nil in a request, is written as null.
-- An array has no keys.
pub data Materials : Type 0 where
  json_null json_array : Materials
  json_object : Dict GoString → Materials

unfoldable pub marshal_materials : Dict GoString → Materials
marshal_materials [] = json_null
marshal_materials (m ∷ ms) = json_object (m ∷ ms)

-- materials || object: null is taken as an array of one element, and then so is the object.
unfoldable pub merge_object : Materials → Materials
merge_object json_null = json_array
merge_object json_array = json_array
merge_object (json_object ms) = json_object ms

unfoldable pub has_keys : Materials → Bool
has_keys json_null = false
has_keys json_array = false
has_keys (json_object ms) = true

-- `cert_der` and `not_after` are what CompleteEnrollment merges into `materials` under the keys cert_der_b64
-- and not_after; they are keys of it only if it is an object.
pub record EnrollmentRow : Type 0 where
  pub bootstrap_token_hash : GoString
  pub csr_pubkey_sha256 : GoString
  pub asset_id : Option GoString
  pub cert_id : Option ℕ
  pub materials : Materials
  pub cert_der : GoString
  pub not_after : ℕ
  pub is_completed : Bool

pub data CertStatus : Type 0 where
  active superseded : CertStatus

pub record CertificateRow : Type 0 where
  pub cert_id : ℕ
  pub asset_id : GoString
  pub serial_no : GoString
  pub fingerprint : GoString
  pub not_before : ℕ
  pub not_after : ℕ
  pub status : CertStatus

-- `enrollments` is by the primary key enrollment_request_id.
pub record Ledger : Type 0 where
  pub enrollments : Dict EnrollmentRow
  pub certificates : List CertificateRow
  pub next_cert_id : ℕ

-- What sign makes.
pub record Certificate : Type 0 where
  pub der : GoString
  pub serial : GoString
  pub fingerprint : GoString
  pub not_before : ℕ
  pub not_after : ℕ

pub record EnrollmentRecord : Type 0 where
  pub is_completed : Bool
  pub asset_id : GoString
  pub cert_der : GoString
  pub not_after : ℕ

-- The materials of a row that is still processed are not read, nor is the time without a certificate; of
-- materials that are no object nothing is read, and the error is ignored.
unfoldable pub record_of : EnrollmentRow → EnrollmentRecord
unfolding has_keys
record_of r = record {
  is_completed = r.is_completed;
  asset_id = elim r.asset_id [ none ↦ [] | some a ↦ a ];
  cert_der = if r.is_completed && has_keys r.materials then r.cert_der else [];
  not_after =
      if r.is_completed && (has_keys r.materials && ltb 0 (length r.cert_der))
      then r.not_after
      else 0;
}

unfoldable pub find_enrollment :
    Bool → Ledger → GoString → Option LedgerError × Option EnrollmentRecord
unfolding record_of
find_enrollment fails l enroll_id =
    if fails then (some ledger_failed, none) else elim (lookup enroll_id l.enrollments) [
      | none ↦ (none, none)
      | some r ↦ (none, some (record_of r))
    ]

unfoldable pub begin_enrollment :
    Bool
    → Ledger
    → GoString
    → GoString
    → GoString
    → Dict GoString
    → Option LedgerError × Bool × Ledger
unfolding marshal_materials
begin_enrollment fails l enroll_id token_hash pubkey_hash materials =
    let row : EnrollmentRow = record {
      bootstrap_token_hash = token_hash;
      csr_pubkey_sha256 = pubkey_hash;
      asset_id = none;
      cert_id = none;
      materials = marshal_materials materials;
      cert_der = [];
      not_after = 0;
      is_completed = false;
    } in
    if fails then (some ledger_failed, false, l) else elim (lookup enroll_id l.enrollments) [
      | some _ ↦ (none, false, l)
      | none ↦ (none, true, record l { enrollments = insert enroll_id row l.enrollments })
    ]

-- DELETE of a row that is still processed.
unfoldable pub fail_enrollment : Bool → Ledger → GoString → Option LedgerError × Ledger
fail_enrollment fails l enroll_id =
    if fails then (some ledger_failed, l) else elim (lookup enroll_id l.enrollments) [
      | none ↦ (none, l)
      | some r ↦
          if r.is_completed
          then (none, l)
          else (none, record l { enrollments = delete enroll_id l.enrollments })
    ]

-- The columns serial_no and fingerprint are unique.
unfoldable pub is_taken : Certificate → List CertificateRow → Bool
is_taken c [] = false
is_taken c (r ∷ rs) =
    str_eq r.serial_no c.serial || str_eq r.fingerprint c.fingerprint || is_taken c rs

unfoldable pub certificate_row : ℕ → GoString → Certificate → CertificateRow
certificate_row cert_id asset_id c = record {
  cert_id = cert_id;
  asset_id = asset_id;
  serial_no = c.serial;
  fingerprint = c.fingerprint;
  not_before = c.not_before;
  not_after = c.not_after;
  status = active;
}

unfoldable pub complete_enrollment :
    (ℕ → Bool) → Ledger → GoString → GoString → Certificate → Option LedgerError × Ledger
unfolding is_taken certificate_row any_fails merge_object
complete_enrollment fails l enroll_id asset_id c =
    if any_fails 0 2 fails
    then (some ledger_failed, l)
    else if is_taken c l.certificates
    then (some taken, l)
    else if fails 2
    then (some ledger_failed, l)
    else elim (lookup enroll_id l.enrollments) [
      | none ↦ (some not_processing, l)
      | some r ↦
          if r.is_completed
          then (some not_processing, l)
          else if fails 3
          then (some ledger_failed, l)
          else (
            none,
            record {
              enrollments =
                  insert enroll_id
                    (record r {
                      asset_id = some asset_id;
                      cert_id = some l.next_cert_id;
                      materials = merge_object r.materials;
                      cert_der = c.der;
                      not_after = c.not_after;
                      is_completed = true;
                    })
                    l.enrollments;
              certificates = l.certificates ++ certificate_row l.next_cert_id asset_id c ∷ [];
              next_cert_id = l.next_cert_id + 1;
            },
          )
    ]

unfoldable pub is_active_of : GoString → CertificateRow → Bool
is_active_of asset_id r =
    str_eq r.asset_id asset_id && (elim r.status [ active ↦ true | superseded ↦ false ])

-- UPDATE ... SET status='superseded', and the number of rows that it has changed.
unfoldable pub supersede : GoString → List CertificateRow → List CertificateRow
unfolding is_active_of
supersede asset_id [] = []
supersede asset_id (r ∷ rs) =
    if is_active_of asset_id r
    then record r { status = superseded } ∷ supersede asset_id rs
    else r ∷ supersede asset_id rs

unfoldable pub active_count : GoString → List CertificateRow → ℕ
unfolding is_active_of
active_count asset_id [] = 0
active_count asset_id (r ∷ rs) =
    if is_active_of asset_id r then active_count asset_id rs + 1 else active_count asset_id rs

unfoldable pub rotate_certificate_tx :
    (ℕ → Bool) → Ledger → GoString → Certificate → Option LedgerError × Ledger
unfolding is_taken certificate_row supersede active_count any_fails
rotate_certificate_tx fails l asset_id c =
    if any_fails 0 2 fails
    then (some ledger_failed, l)
    else if active_count asset_id l.certificates == 0
    then (some not_enrolled, l)
    else if fails 2
    then (some ledger_failed, l)
    else if is_taken c l.certificates
    then (some taken, l)
    else if fails 3
    then (some ledger_failed, l)
    else (
      none,
      record l {
        certificates =
            supersede asset_id l.certificates ++ certificate_row l.next_cert_id asset_id c ∷ [];
        next_cert_id = l.next_cert_id + 1;
      },
    )
