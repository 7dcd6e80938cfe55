-- ===== src/Connector/Bootstrap/Rotation.antt =====
-- Who may have a certificate rotated, and what that leaves in the ledger.
use tom_ai_agent.Base.{
  ◌==◌, Bool-cases, Option-cases, length, str_eq, GoString, str_eq_iff, ℕ, ◌≡◌, refl, ap, inl, inr,
  Bool, true, false, Option, none, some,
}
use tom_ai_agent.Platform.Enrollment.{
  Ledger, LedgerError, ledger_failed, not_processing, taken, not_enrolled, Certificate,
  rotate_certificate_tx,
}
use tom_ai_agent.Platform.Enrollment.Active.{Rotates, rotate-cases}
use tom_ai_agent.Connector.Bootstrap.{
  Pki, BootstrapServer, Reply, answer, refused, Reply-cases, parse_csr, sign, rotate_certificate,
}

-- An answer is a rotation of the asset that the peer's certificate names, and an error leaves the ledger.
abbrev pub Rotated : Option GoString → GoString → Ledger → Reply (GoString × ℕ) → Ledger → Type 0
Rotated peer asset l (refused _) l' = l' ≡ l
Rotated peer asset l (answer (der, until)) l' =
    (peer ≡ some asset)
    × ((c : Certificate) × (c.der ≡ der) × (c.not_after ≡ until) × Rotates l asset c l')

module _ (pki : Pki) (b : BootstrapServer) (fails : ℕ → Bool) (random : Option GoString) (now : ℕ)
    (asset csr_der : GoString) (l : Ledger) where
  ledger-Rotated :
      (cn key : GoString) (c : Certificate)
      → (length asset == 0) ≡ false
      → str_eq cn asset ≡ true
      → parse_csr pki csr_der ≡ answer key
      → sign pki b random key asset now ≡ some c
      → Rotated
          (some cn)
          asset
          l
          (rotate_certificate pki b fails (some cn) random now asset csr_der l).0
          (rotate_certificate pki b fails (some cn) random now asset csr_der l).1
  unfolding rotate_certificate
  ledger-Rotated cn key c named same parsed signed = elim (rotate-cases fails l asset c) [
    | inr (fine, r) ↦
        rw (rotate_certificate, named, same, parsed, signed, fine)
          (ap some ((str_eq_iff cn asset).0 same), (c, refl, refl, r))
    | inl (failed, stays, why) ↦ elim (Option-cases (rotate_certificate_tx fails l asset c).0) [
      | inl fine ↦ absurd (failed fine)
      | inr (err, e) ↦ wrong err e stays
    ]
  ]
    where
      wrong :
          (err : LedgerError)
          → (rotate_certificate_tx fails l asset c).0 ≡ some err
          → (rotate_certificate_tx fails l asset c).1 ≡ l
          → Rotated
              (some cn)
              asset
              l
              (rotate_certificate pki b fails (some cn) random now asset csr_der l).0
              (rotate_certificate pki b fails (some cn) random now asset csr_der l).1
      wrong ledger_failed e stays = rw (rotate_certificate, named, same, parsed, signed, e) stays
      wrong not_processing e stays = rw (rotate_certificate, named, same, parsed, signed, e) stays
      wrong taken e stays = rw (rotate_certificate, named, same, parsed, signed, e) stays
      wrong not_enrolled e stays = rw (rotate_certificate, named, same, parsed, signed, e) stays

  -- A certificate is rotated only for a connection whose client certificate names the asset, and which
  -- has an active certificate: the new one is then its only active one, and the other assets keep
  -- theirs. Any other request is refused and leaves the ledger as it was.
  pub rotate_certificate-Rotated :
      (peer : Option GoString)
      → Rotated peer asset l
          (rotate_certificate pki b fails peer random now asset csr_der l).0
          (rotate_certificate pki b fails peer random now asset csr_der l).1
  unfolding rotate_certificate
  rotate_certificate-Rotated none = elim (Bool-cases (length asset == 0)) [
    | inl blank ↦ rw (rotate_certificate, blank) refl
    | inr named ↦ rw (rotate_certificate, named) refl
  ]
  rotate_certificate-Rotated (some cn) = elim (Bool-cases (length asset == 0)) [
    | inl blank ↦ rw (rotate_certificate, blank) refl
    | inr named ↦ elim (Bool-cases (str_eq cn asset)) [
      | inr other ↦ rw (rotate_certificate, named, other) refl
      | inl same ↦ elim (Reply-cases (parse_csr pki csr_der)) [
        | inr (code, bad) ↦ rw (rotate_certificate, named, same, bad) refl
        | inl (key, parsed) ↦ elim (Option-cases (sign pki b random key asset now)) [
          | inl unsigned ↦ rw (rotate_certificate, named, same, parsed, unsigned) refl
          | inr (c, signed) ↦ ledger-Rotated cn key c named same parsed signed
        ]
      ]
    ]
  ]
