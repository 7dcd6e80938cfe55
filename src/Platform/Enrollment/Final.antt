-- ===== src/Platform/Enrollment/Final.antt =====
-- A completed enrolment is final.
use tom_ai_agent.Base.{
  Bool-cases, Option-cases, str_eq, GoString, str_eq_iff, lookup, insert, delete, Dict,
  lookup-insert, lookup-delete, ℕ, ◌≡◌, refl, sym, subst, ◌≢◌, ◌⊎◌, inl, inr, Bool, true, false,
  none, some, List, [], ◌∷◌, ◌++◌, arith,
}
use tom_ai_agent.Platform.Commands.{any_fails}
use tom_ai_agent.Platform.Enrollment.{
  Ledger, EnrollmentRow, Certificate, begin_enrollment, fail_enrollment, complete_enrollment,
  rotate_certificate_tx, is_taken, certificate_row, merge_object,
}

-- The calls of the requests that run at the same time, in the order in which they come.
pub data Call : Type 0 where
  begin_call : Bool → GoString → GoString → GoString → Dict GoString → Call
  fail_call : Bool → GoString → Call
  complete_call : (ℕ → Bool) → GoString → GoString → Certificate → Call
  rotate_call : (ℕ → Bool) → GoString → Certificate → Call

unfoldable pub after_call : Ledger → Call → Ledger
after_call l (begin_call f id token pubkey materials) =
    (begin_enrollment f l id token pubkey materials).2
after_call l (fail_call f id) = (fail_enrollment f l id).1
after_call l (complete_call f id asset c) = (complete_enrollment f l id asset c).1
after_call l (rotate_call f asset c) = (rotate_certificate_tx f l asset c).1

unfoldable pub after_calls : Ledger → List Call → Ledger
after_calls l [] = l
after_calls l (c ∷ cs) = after_calls (after_call l c) cs

abbrev pub Completed : GoString → EnrollmentRow → Ledger → Type 0
Completed id r l = (lookup id l.enrollments ≡ some r) × (r.is_completed ≡ true)

insert_elsewhere :
    (id k : GoString) (r s : EnrollmentRow) (m : Dict EnrollmentRow)
    → lookup id m ≡ some r
    → str_eq k id ≡ false
    → lookup id (insert k s m) ≡ some r
insert_elsewhere id k r s m found other = rw (lookup-insert k id s m, other) found

-- A row that is missing, or still processed, is not that of `id`.
missing_elsewhere :
    (id k : GoString) (r : EnrollmentRow) (m : Dict EnrollmentRow)
    → lookup id m ≡ some r
    → lookup k m ≡ none
    → str_eq k id ≡ false
missing_elsewhere id k r m found missing = elim (Bool-cases (str_eq k id)) [
  | inr e ↦ e
  | inl e ↦
      let gone : lookup id m ≡ none =
        subst (λ x. lookup x m ≡ none) ((str_eq_iff k id).0 e) missing in
      cc
]

open_elsewhere :
    (id k : GoString) (r s : EnrollmentRow) (m : Dict EnrollmentRow)
    → lookup id m ≡ some r
    → r.is_completed ≡ true
    → lookup k m ≡ some s
    → s.is_completed ≡ false
    → str_eq k id ≡ false
open_elsewhere id k r s m found done there running = elim (Bool-cases (str_eq k id)) [
  | inr e ↦ e
  | inl e ↦
      let same : lookup id m ≡ some s =
        subst (λ x. lookup x m ≡ some s) ((str_eq_iff k id).0 e) there in
      cc
]

begin_enrollment-Completed :
    (f : Bool) (l : Ledger) (k token pubkey : GoString) (materials : Dict GoString) (id : GoString)
    (r : EnrollmentRow)
    → Completed id r l
    → Completed id r (begin_enrollment f l k token pubkey materials).2
unfolding begin_enrollment
begin_enrollment-Completed true l k token pubkey materials id r h = h
begin_enrollment-Completed false l k token pubkey materials id r h =
    elim (Option-cases (lookup k l.enrollments)) [
      | inl missing ↦
          rw (begin_enrollment, missing)
            (
              insert_elsewhere id k r _ l.enrollments h.0
                  (missing_elsewhere id k r l.enrollments h.0 missing),
              h.1,
            )
      | inr (s, found) ↦ rw (begin_enrollment, found) h
    ]

fail_enrollment-Completed :
    (f : Bool) (l : Ledger) (k id : GoString) (r : EnrollmentRow)
    → Completed id r l
    → Completed id r (fail_enrollment f l k).1
unfolding fail_enrollment
fail_enrollment-Completed true l k id r h = h
fail_enrollment-Completed false l k id r h = elim (Option-cases (lookup k l.enrollments)) [
  | inl missing ↦ rw (fail_enrollment, missing) h
  | inr (s, found) ↦ elim (Bool-cases s.is_completed) [
    | inl done ↦ rw (fail_enrollment, found, done) h
    | inr running ↦ rw (fail_enrollment, found, running) (gone s found running, h.1)
  ]
]
  where
    gone :
        (s : EnrollmentRow)
        → lookup k l.enrollments ≡ some s
        → s.is_completed ≡ false
        → lookup id (delete k l.enrollments) ≡ some r
    gone s found running =
        rw
          (
            lookup-delete k id l.enrollments,
            open_elsewhere id k r s l.enrollments h.0 h.1 found running,
          )
          h.0

-- What CompleteEnrollment does: nothing but an error, or the end of an enrolment that was open.
pub record Completes (l : Ledger) (id asset : GoString) (c : Certificate) (l' : Ledger)
    : Type 0 where
  pub row : EnrollmentRow
  pub was_open : (lookup id l.enrollments ≡ some row) × (row.is_completed ≡ false)
  pub unique : is_taken c l.certificates ≡ false
  pub enrollments :
      l'.enrollments
      ≡ insert id
          (record row {
            asset_id = some asset;
            cert_id = some l.next_cert_id;
            materials = merge_object row.materials;
            cert_der = c.der;
            not_after = c.not_after;
            is_completed = true;
          })
          l.enrollments
  pub certificates : l'.certificates ≡ l.certificates ++ certificate_row l.next_cert_id asset c ∷ []

pub complete_enrollment-cases :
    (f : ℕ → Bool) (l : Ledger) (id asset : GoString) (c : Certificate)
    → let (err, l') = complete_enrollment f l id asset c in
      ((err ≢ none) × (l' ≡ l)) ⊎ ((err ≡ none) × Completes l id asset c l')
unfolding complete_enrollment
complete_enrollment-cases f l id asset c = elim (Bool-cases (any_fails 0 2 f)) [
  | inl e ↦ rw (complete_enrollment, e) (inl (λ x. cc, refl))
  | inr e1 ↦ elim (Bool-cases (is_taken c l.certificates)) [
    | inl e ↦ rw (complete_enrollment, e1, e) (inl (λ x. cc, refl))
    | inr e2 ↦ elim (Bool-cases (f 2)) [
      | inl e ↦ rw (complete_enrollment, e1, e2, e) (inl (λ x. cc, refl))
      | inr e3 ↦ elim (Option-cases (lookup id l.enrollments)) [
        | inl e ↦ rw (complete_enrollment, e1, e2, e3, e) (inl (λ x. cc, refl))
        | inr (r, e4) ↦ elim (Bool-cases r.is_completed) [
          | inl e ↦ rw (complete_enrollment, e1, e2, e3, e4, e) (inl (λ x. cc, refl))
          | inr e5 ↦ elim (Bool-cases (f 3)) [
            | inl e ↦ rw (complete_enrollment, e1, e2, e3, e4, e5, e) (inl (λ x. cc, refl))
            | inr e6 ↦
                rw (complete_enrollment, e1, e2, e3, e4, e5, e6)
                  (inr (
                    refl,
                    record {
                      row = r;
                      was_open = (e4, e5);
                      unique = e2;
                      enrollments = refl;
                      certificates = refl;
                    },
                  ))
          ]
        ]
      ]
    ]
  ]
]

complete_enrollment-Completed :
    (f : ℕ → Bool) (l : Ledger) (k asset : GoString) (c : Certificate) (id : GoString)
    (r : EnrollmentRow)
    → Completed id r l
    → Completed id r (complete_enrollment f l k asset c).1
complete_enrollment-Completed f l k asset c id r h =
    elim (complete_enrollment-cases f l k asset c) [
      | inl (failed, same) ↦ subst (Completed id r) (sym same) h
      | inr (fine, done) ↦ (
        subst (λ m. lookup id m ≡ some r) (sym done.enrollments)
            (insert_elsewhere id k r _ l.enrollments h.0 (
              open_elsewhere id k r done.row l.enrollments h.0 h.1 done.was_open.0
                done.was_open.1)),
        h.1,
      )
    ]

rotate_keeps_enrollments :
    (f : ℕ → Bool) (l : Ledger) (asset : GoString) (c : Certificate)
    → (rotate_certificate_tx f l asset c).1.enrollments ≡ l.enrollments
unfolding rotate_certificate_tx
rotate_keeps_enrollments f l asset c = ground arith

after_call-Completed :
    (l : Ledger) (c : Call) (id : GoString) (r : EnrollmentRow)
    → Completed id r l
    → Completed id r (after_call l c)
unfolding after_call
after_call-Completed l (begin_call f k token pubkey materials) id r h =
    begin_enrollment-Completed f l k token pubkey materials id r h
after_call-Completed l (fail_call f k) id r h = fail_enrollment-Completed f l k id r h
after_call-Completed l (complete_call f k asset c) id r h =
    complete_enrollment-Completed f l k asset c id r h
after_call-Completed l (rotate_call f asset c) id r h =
    (subst (λ m. lookup id m ≡ some r) (sym (rotate_keeps_enrollments f l asset c)) h.0, h.1)

-- A row of an enrolment that is completed stays as it is, whatever calls of the ledger follow, on
-- this enrolment or on others, and whichever of them fail.
pub completed_stays :
    (l : Ledger) (cs : List Call) (id : GoString) (r : EnrollmentRow)
    → lookup id l.enrollments ≡ some r
    → r.is_completed ≡ true
    → lookup id (after_calls l cs).enrollments ≡ some r
unfolding after_calls
completed_stays l [] id r found done = found
completed_stays l (c ∷ cs) id r found done =
    let h = after_call-Completed l c id r (found, done) in
    completed_stays (after_call l c) cs id r h.0 h.1
