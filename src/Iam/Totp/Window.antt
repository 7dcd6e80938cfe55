-- ===== src/Iam/Totp/Window.antt =====
-- Which codes are accepted at a time.
use tom_ai_agent.Base.Int.{ℤ, pos, negsuc, ltb_ℤ}
use tom_ai_agent.Base.BigEndian.{to_uint64, uint32}
use tom_ai_agent.Base.{
  ltb, ◌==◌, ==_iff, Bool-cases, Option-cases, length, drop, length-drop, str_eq, GoString,
  str_eq_iff, ℕ, ◌+◌, ◌-◌, ◌/◌, ◌%◌, ◌^◌, ◌≤◌, ◌<◌, ◌≡◌, refl, sym, ap, ◌∙◌, subst, ◌↔◌, ◌⊎◌, inl,
  inr, Bool, true, false, ◌&&◌, Option, some, List, [], ◌∷◌, arith, Any,
}
use tom_ai_agent.Iam.Totp.{
  code_text, bad_secret, six_digits, truncate_sum, step_of, window, shift_step, code_at, try_steps,
  verify,
}

truncate_sum-text :
    (sum : GoString)
    → length sum ≡ 20
    → (t : GoString) × (truncate_sum sum ≡ code_text t) × (length t ≡ 6)
unfolding truncate_sum six_digits
truncate_sum-text sum e = of_last (drop (length sum - 1) sum) refl
  where
    of_last :
        (ls : GoString)
        → drop (length sum - 1) sum ≡ ls
        → (t : GoString) × (truncate_sum sum ≡ code_text t) × (length t ≡ 6)
    of_last [] d = absurd (omega (arith, length-drop (length sum - 1) sum, ap length d))
    of_last (last ∷ more) d =
        let fits : ltb (length sum) (last % 16 + 4) ≡ false = ground arith in
        (
          six_digits (uint32 (drop (last % 16) sum) % 2 ^ 31 % 1000000),
          rw (truncate_sum, d, fits) refl,
          refl,
        )

step_of_pos : (at : ℕ) → at < 9223372036854775808 → step_of (pos at) ≡ at / 30
unfolding step_of to_uint64
step_of_pos at h = omega arith

shift_before : (c : ℕ) → 0 < c → c < 9223372036854775808 → shift_step c (negsuc 0) ≡ c - 1
unfolding shift_step to_uint64
shift_before c some_step h = omega arith

shift_same : (c : ℕ) → c < 9223372036854775808 → shift_step c (pos 0) ≡ c
unfolding shift_step to_uint64
shift_same c h = omega arith

shift_after : (c : ℕ) → c < 9223372036854775808 → shift_step c (pos 1) ≡ c + 1
unfolding shift_step to_uint64
shift_after c h = omega arith

kept_pos : (c : ℕ) → ((c == 0) && true) ≡ false → 0 < c
kept_pos c e = ground arith

pos_kept : (c : ℕ) → 0 < c → ((c == 0) && true) ≡ false
pos_kept c h = ground arith

always_kept : (c : ℕ) → ((c == 0) && false) ≡ false
always_kept c = ground arith

around : (c k : ℕ) → k ≤ c + 1 → c ≤ k + 1 → ((0 < c) × (k ≡ c - 1)) ⊎ ((k ≡ c) ⊎ (k ≡ c + 1))
around c k lo hi = grind arith

module _ (decode_secret : GoString → Option GoString) (hmac_sha1 : GoString → GoString → GoString)
    (hmac_size : (key msg : GoString) → length (hmac_sha1 key msg) ≡ 20) where
  -- The code of a step, if the secret can be decoded.
  code_at-cases :
      (secret : GoString)
      → ((k : ℕ) → code_at decode_secret hmac_sha1 secret k ≡ bad_secret)
        ⊎ ((k : ℕ)
            → (t : GoString) × (code_at decode_secret hmac_sha1 secret k ≡ code_text t)
              × (length t ≡ 6))
  unfolding code_at
  code_at-cases secret = elim (Option-cases (decode_secret secret)) [
    | inl e ↦ inl (λ k. rw (code_at, e) refl)
    | inr (key, e) ↦ inr (λ k. rw (code_at, e) (truncate_sum-text _ (hmac_size key _)))
  ]

  text-injective : (s t : GoString) → code_text s ≡ code_text t → s ≡ t
  text-injective s t e = cc e

  -- One of the steps that are tried has the code.
  abbrev Matches : GoString → GoString → ℕ → List ℤ → Type 0
  Matches secret code counter ws =
      Any
        (λ w.
          (((counter == 0) && ltb_ℤ w (pos 0)) ≡ false)
          × (code_at decode_secret hmac_sha1 secret (shift_step counter w) ≡ code_text code))
        ws

  no_match :
      (secret code : GoString) (counter : ℕ)
      → ((k : ℕ) → code_at decode_secret hmac_sha1 secret k ≡ bad_secret)
      → (ws : List ℤ) → ¬ Matches secret code counter ws
  no_match secret code counter bad [] m = m
  no_match secret code counter bad (w ∷ ws) (inl (_, e)) =
      absurd (cc (bad (shift_step counter w), e))
  no_match secret code counter bad (w ∷ ws) (inr m) = no_match secret code counter bad ws m

  try_steps_iff :
      (secret code : GoString) (counter : ℕ) (ws : List ℤ)
      → (b : Bool) × (try_steps decode_secret hmac_sha1 secret code counter ws ≡ some b)
        × ((b ≡ true) ↔ Matches secret code counter ws)
  unfolding try_steps
  try_steps_iff secret code counter [] = (false, refl, (λ e. absurd (cc e), λ e. absurd e))
  try_steps_iff secret code counter (w ∷ ws) =
      let (b, run, iff) = try_steps_iff secret code counter ws in
      elim (Bool-cases ((counter == 0) && ltb_ℤ w (pos 0))) [
        | inl skip ↦ (
          b,
          rw (try_steps, skip) run,
          (
            λ e. inr (iff.0 e),
            λ m. elim m [ inl (kept, _) ↦ absurd (cc (kept, skip)) | inr later ↦ iff.1 later ],
          ),
        )
        | inr kept ↦ elim (code_at-cases secret) [
          | inl bad ↦ (
            false,
            rw (try_steps, kept, bad (shift_step counter w)) refl,
            (λ e. absurd (cc e), λ m. absurd (no_match secret code counter bad (w ∷ ws) m)),
          )
          | inr texts ↦
              let (t, is, six) = texts (shift_step counter w) in
              elim (Bool-cases (str_eq t code)) [
                | inl same ↦ (
                  true,
                  rw (try_steps, kept, is, same) refl,
                  (λ e. inl (kept, is ∙ ap code_text ((str_eq_iff t code).0 same)), λ m. refl),
                )
                | inr other ↦ (
                  b,
                  rw (try_steps, kept, is, other) run,
                  (
                    λ e. inr (iff.0 e),
                    λ m. elim m [
                      | inl (_, e) ↦
                          absurd
                            (cc ((str_eq_iff t code).1 (text-injective t code (sym is ∙ e)), other))
                      | inr later ↦ iff.1 later
                    ],
                  ),
                )
              ]
        ]
      ]

  -- A step within one of the time's has the code.
  abbrev pub IsNear : GoString → GoString → ℕ → Type 0
  IsNear secret code at =
      (k : ℕ) × (k ≤ at / 30 + 1)
      × (at / 30 ≤ k + 1)
      × (code_at decode_secret hmac_sha1 secret k ≡ code_text code)

  length-code : (secret code : GoString) (at : ℕ) → IsNear secret code at → length code ≡ 6
  length-code secret code at (k, _, _, e) = elim (code_at-cases secret) [
    | inl bad ↦ absurd (cc (bad k, e))
    | inr texts ↦
        let (t, is, six) = texts k in ap length (sym (text-injective t code (sym is ∙ e))) ∙ six
  ]

  window-IsNear :
      (secret code : GoString) (at : ℕ)
      → at < 9223372036854775808
      → Matches secret code (step_of (pos at)) window ↔ IsNear secret code at
  unfolding window
  window-IsNear secret code at h = rw (step_of_pos at h) (to, from)
    where
      has : ℕ → Type 0
      has k = code_at decode_secret hmac_sha1 secret k ≡ code_text code

      to : Matches secret code (at / 30) window → IsNear secret code at
      to (inl (kept, e)) =
          let some_step = kept_pos (at / 30) kept in
          (
            at / 30 - 1,
            omega arith,
            omega arith,
            subst has (shift_before (at / 30) some_step (omega arith)) e,
          )
      to (inr (inl (_, e))) =
          (at / 30, omega arith, omega arith, subst has (shift_same (at / 30) (omega arith)) e)
      to (inr (inr (inl (_, e)))) =
          (at / 30 + 1, omega arith, omega arith, subst has (shift_after (at / 30) (omega arith)) e)
      to (inr (inr (inr none_left))) = absurd none_left

      from : IsNear secret code at → Matches secret code (at / 30) window
      from (k, lo, hi, e) = elim (around (at / 30) k lo hi) [
        | inl (some_step, is) ↦ inl (
          pos_kept (at / 30) some_step,
          subst has (is ∙ sym (shift_before (at / 30) some_step (omega arith))) e,
        )
        | inr (inl is) ↦ inr (
            inl
              (always_kept (at / 30), subst has (is ∙ sym (shift_same (at / 30) (omega arith))) e))
        | inr (inr is) ↦ inr (
            inr (
              inl (
                always_kept (at / 30),
                subst has (is ∙ sym (shift_after (at / 30) (omega arith))) e,
              )))
      ]

  -- At a time that is not before 1970, the check of a code ends without a panic, and it accepts exactly the
  -- codes of the step of that time and of the steps next to it.
  pub verify-IsNear :
      (secret code : GoString) (at : ℕ)
      → at < 9223372036854775808
      → (b : Bool) × (verify decode_secret hmac_sha1 secret code (pos at) ≡ some b)
        × ((b ≡ true) ↔ IsNear secret code at)
  unfolding verify
  verify-IsNear secret code at h = elim (Bool-cases (length code == 6)) [
    | inr e ↦ (
      false,
      rw (verify, e) refl,
      (
        λ f. absurd (cc f),
        λ near. absurd (cc ((==_iff (length code) 6).1 (length-code secret code at near), e)),
      ),
    )
    | inl six ↦
        let (b, run, iff) = try_steps_iff secret code (step_of (pos at)) window in
        let near = window-IsNear secret code at h in
        (b, rw (verify, six) run, (λ e. near.0 (iff.0 e), λ n. iff.1 (near.1 n)))
  ]
