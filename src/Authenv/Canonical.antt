-- ===== src/Authenv/Canonical.antt =====
-- The canonical bytes determine the envelope that they were made of.
use tom_ai_agent.Base.BigEndian.{IsInt64}
use tom_ai_agent.Base.{
  Bool-cases, length, All, str_eq, GoString, str_eq_iff, lookup, Dict, keys, ◌<◌, ◌≡◌, refl, sym,
  ap, ◌∙◌, subst, inl, inr, Bool, true, false, Option, none, some, List, [], ◌∷◌, append-nil, arith,
}
use tom_ai_agent.Authenv.Sorting.{
  sort_strings, contains, contains-sort_strings, All-sort_strings, length-sort_strings,
}
use tom_ai_agent.Authenv.Fields.{
  IsField, AreFields, append_cancel, put_uint32_cancel, put_uint64_cancel, int64_cancel,
  write_field_cancel, write_params_cancel,
}
use tom_ai_agent.Authenv.{CommandEnvelope, magic, value_at, write_times, canonical_bytes}

abbrev has {ℓ} : {A : Type ℓ} → Option A → Bool
has none = false
has (some _) = true

contains-keys : (k : GoString) (m : Dict GoString) → contains k (keys m) ≡ has (lookup k m)
unfolding contains lookup
contains-keys k [] = refl
contains-keys k ((j, v) ∷ m) = ground (arith, contains-keys k m)

lookup-eq_of_has :
    (k : GoString) (p q : Dict GoString)
    → has (lookup k p) ≡ has (lookup k q)
    → (has (lookup k p) ≡ true → value_at k p ≡ value_at k q)
    → lookup k p ≡ lookup k q
unfolding value_at
lookup-eq_of_has k p q e f = ground arith

All_contains {κ} :
    (P : GoString → Type κ) (k : GoString) (ks : List GoString)
    → All P ks
    → contains k ks ≡ true
    → P k
unfolding contains
All_contains P k [] hs e = cc
All_contains P k (j ∷ ks) hs e = elim (Bool-cases (str_eq j k)) [
  | inl hit ↦ subst P ((str_eq_iff j k).0 hit) hs.0
  | inr miss ↦ All_contains P k ks hs.1 (rw miss at e)
]

-- What an envelope must fit for its canonical bytes to determine it: the 32-bit lengths and the
-- widths of its numbers.
pub record IsEnvelope (env : CommandEnvelope) : Type 0 where
  pub cmd_id_fits : IsField env.cmd_id
  pub action_fits : IsField env.action
  pub count_fits : length (keys env.params) < 4294967296
  pub params_fit : AreFields env.params (keys env.params)
  pub timeout_fits : env.timeout_sec < 4294967296
  pub issued_fits : IsInt64 env.issued_at
  pub expires_fits : IsInt64 env.expires_at
  pub nonce_fits : IsField env.nonce

-- Two envelopes that order the same: all fields agree but the signature, the parameters as maps.
pub record SameOrder (a b : CommandEnvelope) : Type 0 where
  pub cmd_id : a.cmd_id ≡ b.cmd_id
  pub action : a.action ≡ b.action
  pub params : (k : GoString) → lookup k a.params ≡ lookup k b.params
  pub timeout_sec : a.timeout_sec ≡ b.timeout_sec
  pub issued_at : a.issued_at ≡ b.issued_at
  pub expires_at : a.expires_at ≡ b.expires_at
  pub nonce : a.nonce ≡ b.nonce

abbrev sorted_keys : CommandEnvelope → List GoString
sorted_keys env = sort_strings (keys env.params)

sorted_fields : (e : CommandEnvelope) → IsEnvelope e → AreFields e.params (sorted_keys e)
sorted_fields e h =
    All-sort_strings (λ k. IsField k × IsField (value_at k e.params)) (keys e.params) h.params_fit

contains-sorted_keys :
    (k : GoString) (e : CommandEnvelope) → contains k (sorted_keys e) ≡ has (lookup k e.params)
contains-sorted_keys k e = contains-sort_strings k (keys e.params) ∙ contains-keys k e.params

params_of_written :
    (a b : CommandEnvelope)
    → sorted_keys a ≡ sorted_keys b
    → All (λ k. value_at k a.params ≡ value_at k b.params) (sorted_keys a)
    → (k : GoString) → lookup k a.params ≡ lookup k b.params
params_of_written a b same values k =
    lookup-eq_of_has k a.params b.params
      (sym (contains-sorted_keys k a) ∙ ap (contains k) same ∙ contains-sorted_keys k b)
      (λ e.
        All_contains (λ k. value_at k a.params ≡ value_at k b.params) k (sorted_keys a) values
          (contains-sorted_keys k a ∙ e))

write_times_cancel :
    (a b : CommandEnvelope)
    → IsEnvelope a
    → IsEnvelope b
    → write_times a ≡ write_times b
    → (a.timeout_sec ≡ b.timeout_sec)
      × (a.issued_at ≡ b.issued_at)
      × (a.expires_at ≡ b.expires_at)
      × (a.nonce ≡ b.nonce)
unfolding write_times
write_times_cancel a b ha hb e =
    let timeout =
      put_uint64_cancel _ _ _ _ (omega (arith, ha.timeout_fits)) (omega (arith, hb.timeout_fits))
        e in
    let issued = int64_cancel _ _ _ _ ha.issued_fits hb.issued_fits timeout.1 in
    let expires = int64_cancel _ _ _ _ ha.expires_fits hb.expires_fits issued.1 in
    let nonce =
      write_field_cancel a.nonce b.nonce [] [] ha.nonce_fits hb.nonce_fits
        (simp append-nil expires.1) in
    (timeout.0, issued.0, expires.0, nonce.0)

-- Two envelopes whose fields fit their widths and that have the same canonical bytes agree in every
-- field but the signature; their parameters are equal as maps.
pub canonical_bytes-SameOrder :
    (a b : CommandEnvelope)
    → IsEnvelope a
    → IsEnvelope b
    → canonical_bytes a ≡ canonical_bytes b
    → SameOrder a b
unfolding canonical_bytes
canonical_bytes-SameOrder a b ha hb e =
    let tail = append_cancel magic magic _ _ refl e in
    let cmd = write_field_cancel _ _ _ _ ha.cmd_id_fits hb.cmd_id_fits tail.1 in
    let act = write_field_cancel _ _ _ _ ha.action_fits hb.action_fits cmd.1 in
    let count = put_uint32_cancel _ _ _ _ (count_lt a ha) (count_lt b hb) act.1 in
    let written =
      write_params_cancel a.params b.params (sorted_keys a) (sorted_keys b) _ _ count.0
        (sorted_fields a ha) (sorted_fields b hb) count.1 in
    let times = write_times_cancel a b ha hb written.2 in
    record {
      cmd_id = cmd.0;
      action = act.0;
      params = params_of_written a b written.0 written.1;
      timeout_sec = times.0;
      issued_at = times.1;
      expires_at = times.2;
      nonce = times.3;
    }
  where
    count_lt : (x : CommandEnvelope) → IsEnvelope x → length (sorted_keys x) < 4294967296
    count_lt x h = omega (arith, length-sort_strings (keys x.params), h.count_fits)
