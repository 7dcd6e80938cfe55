-- ===== src/Authenv/Fields.antt =====
-- Each part that the canonical bytes are made of can be read back from the front: two equal texts
-- that begin with such a part have equal parts and equal rests.
use tom_ai_agent.Base.BigEndian.{
  put_uint32, put_uint64, to_uint64, put_uint32-injective, put_uint64-injective,
  to_uint64-injective, to_uint64_lt, IsInt64,
}
use mathlib.Core.List.{cons-eq-cons}
use tom_ai_agent.Base.Int.{ℤ}
use tom_ai_agent.Base.{
  length, All, GoString, Dict, ℕ, ◌<◌, ◌≡◌, refl, sym, ap, ◌∙◌, List, [], ◌∷◌, ◌++◌, append_assoc,
  arith,
}
use tom_ai_agent.Authenv.{write_field, value_at, write_params}

-- Two halves of the same lengths are equal on their own.
pub append_cancel : (a b r s : GoString) → length a ≡ length b → a ++ r ≡ b ++ s → (a ≡ b) × (r ≡ s)
append_cancel [] [] r s h e = (refl, e)
append_cancel [] (y ∷ b) r s h e = absurd (omega arith)
append_cancel (x ∷ a) [] r s h e = absurd (omega arith)
append_cancel (x ∷ a) (y ∷ b) r s h e =
    let rest = append_cancel a b r s (omega arith) (cons-eq-cons.0 e).1 in
    (cc ((cons-eq-cons.0 e).0, rest.0), rest.1)

pub put_uint32_cancel :
    (x y : ℕ) (r s : GoString)
    → x < 4294967296
    → y < 4294967296
    → put_uint32 x ++ r ≡ put_uint32 y ++ s
    → (x ≡ y) × (r ≡ s)
put_uint32_cancel x y r s hx hy e =
    let parts = append_cancel (put_uint32 x) (put_uint32 y) r s (unfold put_uint32 in refl) e in
    (put_uint32-injective x y hx hy parts.0, parts.1)

pub put_uint64_cancel :
    (x y : ℕ) (r s : GoString)
    → x < 18446744073709551616
    → y < 18446744073709551616
    → put_uint64 x ++ r ≡ put_uint64 y ++ s
    → (x ≡ y) × (r ≡ s)
put_uint64_cancel x y r s hx hy e =
    let parts = append_cancel (put_uint64 x) (put_uint64 y) r s (unfold put_uint64 in refl) e in
    (put_uint64-injective x y hx hy parts.0, parts.1)

pub int64_cancel :
    (x y : ℤ) (r s : GoString)
    → IsInt64 x
    → IsInt64 y
    → put_uint64 (to_uint64 x) ++ r ≡ put_uint64 (to_uint64 y) ++ s
    → (x ≡ y) × (r ≡ s)
int64_cancel x y r s hx hy e =
    let parts = put_uint64_cancel _ _ r s (to_uint64_lt x) (to_uint64_lt y) e in
    (to_uint64-injective x y hx hy parts.0, parts.1)

-- The length of a string fits the four bytes that `write_field` gives it.
abbrev pub IsField : GoString → Type 0
IsField b = length b < 4294967296

pub write_field_cancel :
    (a b r s : GoString)
    → IsField a
    → IsField b
    → write_field a ++ r ≡ write_field b ++ s
    → (a ≡ b) × (r ≡ s)
unfolding write_field
write_field_cancel a b r s ha hb e =
    let parts =
      put_uint32_cancel (length a) (length b) (a ++ r) (b ++ s) ha hb (simp append_assoc at e) in
    append_cancel a b r s parts.0 parts.1

-- Every key and every value of the list fits its four bytes of length.
abbrev pub AreFields : Dict GoString → List GoString → Type 0
AreFields params = All (λ k. IsField k × IsField (value_at k params))

pub write_params_cancel :
    (p q : Dict GoString) (ks js : List GoString) (r s : GoString)
    → length ks ≡ length js
    → AreFields p ks
    → AreFields q js
    → write_params p ks ++ r ≡ write_params q js ++ s
    → (ks ≡ js) × All (λ k. value_at k p ≡ value_at k q) ks × (r ≡ s)
unfolding write_params
write_params_cancel p q [] [] r s h hp hq e = (refl, tt, e)
write_params_cancel p q [] (j ∷ js) r s h hp hq e = absurd (omega arith)
write_params_cancel p q (k ∷ ks) [] r s h hp hq e = absurd (omega arith)
write_params_cancel p q (k ∷ ks) (j ∷ js) r s h hp hq e =
    let name = write_field_cancel k j _ _ hp.0.0 hq.0.0 (simp append_assoc at e) in
    let value = write_field_cancel _ _ _ _ hp.0.1 hq.0.1 name.1 in
    let rest = write_params_cancel p q ks js r s (omega arith) hp.1 hq.1 value.1 in
    (cc (name.0, rest.0), (value.0 ∙ ap (λ i. value_at i q) (sym name.0), rest.1), rest.2)
