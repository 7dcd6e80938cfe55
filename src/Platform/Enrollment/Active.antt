-- ===== src/Platform/Enrollment/Active.antt =====
-- Which certificates of an asset are active.
use tom_ai_agent.Base.{
  ◌==◌, ==_iff, Bool-cases, GoString, str_eq_iff, str_eq_refl, ℕ, ◌+◌, ◌<◌, ◌≡◌, refl, ap, ◌≢◌, ◌⊎◌,
  inl, inr, Bool, true, false, none, some, List, [], ◌∷◌, ◌++◌, arith,
}
use tom_ai_agent.Platform.Commands.{any_fails}
use tom_ai_agent.Platform.Enrollment.{
  Ledger, CertificateRow, Certificate, superseded, rotate_certificate_tx, is_taken, certificate_row,
  supersede, active_count, is_active_of, not_enrolled,
}

active_count-append :
    (a : GoString) (rs ss : List CertificateRow)
    → active_count a (rs ++ ss) ≡ active_count a rs + active_count a ss
unfolding active_count
active_count-append a [] ss = omega arith
active_count-append a (r ∷ rs) ss = ground (arith, active_count-append a rs ss)

active_count-new :
    (a : GoString) (n : ℕ) (c : Certificate) → active_count a (certificate_row n a c ∷ []) ≡ 1
unfolding active_count is_active_of certificate_row
active_count-new a n c = rw (active_count, str_eq_refl a) refl

-- The same rows, with the active ones of the asset superseded.
superseded_inactive :
    (a : GoString) (r : CertificateRow) → is_active_of a (record r { status = superseded }) ≡ false
unfolding is_active_of
superseded_inactive a r = ground arith

active_count-supersede :
    (a : GoString) (rs : List CertificateRow) → active_count a (supersede a rs) ≡ 0
unfolding active_count supersede
active_count-supersede a [] = refl
active_count-supersede a (r ∷ rs) = elim (Bool-cases (is_active_of a r)) [
  | inl on ↦ rw (supersede, on, active_count, superseded_inactive a r) (active_count-supersede a rs)
  | inr off ↦ rw (supersede, off, active_count, off) (active_count-supersede a rs)
]

other_asset :
    (a b : GoString) (r : CertificateRow)
    → ¬ (a ≡ b)
    → is_active_of a r ≡ true
    → is_active_of b r ≡ false
unfolding is_active_of
other_asset a b r differ on = ground (arith, str_eq_iff r.asset_id a, str_eq_iff r.asset_id b)

supersede_other :
    (a b : GoString) (rs : List CertificateRow)
    → ¬ (a ≡ b)
    → active_count b (supersede a rs) ≡ active_count b rs
unfolding active_count supersede
supersede_other a b [] differ = refl
supersede_other a b (r ∷ rs) differ = elim (Bool-cases (is_active_of a r)) [
  | inl on ↦
      rw (supersede, on, active_count, superseded_inactive b r, other_asset a b r differ on)
        (supersede_other a b rs differ)
  | inr off ↦ elim (Bool-cases (is_active_of b r)) [
    | inl there ↦
        rw (supersede, off, active_count, there) (ap (λ n. n + 1) (supersede_other a b rs differ))
    | inr gone ↦ rw (supersede, off, active_count, gone) (supersede_other a b rs differ)
  ]
]

new_other :
    (a b : GoString) (n : ℕ) (c : Certificate)
    → ¬ (a ≡ b)
    → active_count b (certificate_row n a c ∷ []) ≡ 0
unfolding active_count is_active_of certificate_row
new_other a b n c differ = ground (arith, str_eq_iff a b)

-- What a rotation does when it reports no error.
pub record Rotates (l : Ledger) (asset : GoString) (c : Certificate) (l' : Ledger) : Type 0 where
  pub had_one : 0 < active_count asset l.certificates
  pub one_active : active_count asset l'.certificates ≡ 1
  pub newest :
      l'.certificates
      ≡ supersede asset l.certificates ++ certificate_row l.next_cert_id asset c ∷ []
  pub others :
      (b : GoString)
      → ¬ (asset ≡ b)
      → active_count b l'.certificates ≡ active_count b l.certificates

rotated :
    (l : Ledger) (asset : GoString) (c : Certificate)
    → (active_count asset l.certificates == 0) ≡ false
    → Rotates l asset c (record l {
      certificates = supersede asset l.certificates ++ certificate_row l.next_cert_id asset c ∷ [];
      next_cert_id = l.next_cert_id + 1;
    })
rotated l asset c some_active = record {
  had_one = ground arith;
  one_active = omega (
    arith,
    active_count-append asset (supersede asset l.certificates)
        (certificate_row l.next_cert_id asset c ∷ []),
    active_count-supersede asset l.certificates,
    active_count-new asset l.next_cert_id c,
  );
  newest = refl;
  others = λ b differ. omega (
    arith,
    active_count-append b (supersede asset l.certificates)
        (certificate_row l.next_cert_id asset c ∷ []),
    supersede_other asset b l.certificates differ,
    new_other asset b l.next_cert_id c differ,
  );
}

-- A rotation either reports an error and leaves the ledger as it was, or the asset had an active
-- certificate, the new one is its only active one afterwards, and the active certificates of each other
-- asset are as many as before. It reports that the asset is not enrolled only if it has no active one.
pub rotate-cases :
    (f : ℕ → Bool) (l : Ledger) (asset : GoString) (c : Certificate)
    → let (err, l') = rotate_certificate_tx f l asset c in
      ((err ≢ none) × (l' ≡ l) × (err ≡ some not_enrolled → active_count asset l.certificates ≡ 0))
      ⊎ ((err ≡ none) × Rotates l asset c l')
unfolding rotate_certificate_tx
rotate-cases f l asset c = elim (Bool-cases (any_fails 0 2 f)) [
  | inl e ↦ rw (rotate_certificate_tx, e) (inl (λ x. cc, refl, λ x. cc))
  | inr e1 ↦ elim (Bool-cases (active_count asset l.certificates == 0)) [
    | inl e ↦ rw (rotate_certificate_tx, e1, e) (inl (λ x. cc, refl, λ x. (==_iff _ _).0 e))
    | inr e2 ↦ elim (Bool-cases (f 2)) [
      | inl e ↦ rw (rotate_certificate_tx, e1, e2, e) (inl (λ x. cc, refl, λ x. cc))
      | inr e3 ↦ elim (Bool-cases (is_taken c l.certificates)) [
        | inl e ↦ rw (rotate_certificate_tx, e1, e2, e3, e) (inl (λ x. cc, refl, λ x. cc))
        | inr e4 ↦ elim (Bool-cases (f 3)) [
          | inl e ↦ rw (rotate_certificate_tx, e1, e2, e3, e4, e) (inl (λ x. cc, refl, λ x. cc))
          | inr e5 ↦
              rw (rotate_certificate_tx, e1, e2, e3, e4, e5) (inr (refl, rotated l asset c e2))
        ]
      ]
    ]
  ]
]
