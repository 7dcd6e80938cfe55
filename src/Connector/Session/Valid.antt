-- ===== src/Connector/Session/Valid.antt =====
-- The invariant of the registry, and that every call keeps it.
use tom_ai_agent.Base.{
  ◌==◌, Bool-cases, Option-cases, str_eq, GoString, str_eq_iff, lookup, insert, delete,
  lookup-insert, lookup-delete, ℕ, ◌+◌, ◌^◌, ◌≤◌, ◌<◌, ◌≡◌, refl, inl, inr, true, false, Option,
  none, some, List, ◌∷◌, arith,
}
use tom_ai_agent.Connector.Session.{
  Session, SessionRegistry, new_session_registry, is_fenced, close_fence, new_session, put_session,
  register, touch, unregister,
}

-- Every current session has an epoch that was given out, an open fence, and the asset of its key;
-- no two have the same epoch, and only given epochs are fenced.
pub record IsValid (r : SessionRegistry) : Type 0 where
  pub given : (a : GoString) (s : Session) → lookup a r.by_asset ≡ some s → s.epoch ≤ r.epoch_seq
  pub open_fence :
      (a : GoString) (s : Session)
      → lookup a r.by_asset ≡ some s
      → is_fenced s.epoch r.fenced ≡ false
  pub keyed : (a : GoString) (s : Session) → lookup a r.by_asset ≡ some s → s.asset_id ≡ a
  pub distinct :
      (a b : GoString) (s t : Session)
      → lookup a r.by_asset ≡ some s
      → lookup b r.by_asset ≡ some t
      → s.epoch ≡ t.epoch
      → a ≡ b
  pub fenced_given : (e : ℕ) → is_fenced e r.fenced ≡ true → e ≤ r.epoch_seq

pub init-IsValid : IsValid new_session_registry
unfolding lookup is_fenced
init-IsValid = record {
  given = λ a s e. cc;
  open_fence = λ a s e. cc;
  keyed = λ a s e. cc;
  distinct = λ a b s t e f g. cc;
  fenced_given = λ e h. cc;
}

-- The counter has not come to its end.
abbrev pub HasEpochs : SessionRegistry → Type 0
HasEpochs r = r.epoch_seq + 1 < 2 ^ 64

module _ (r : SessionRegistry) (v : IsValid r) (s : Session) (fenced : List ℕ)
    (newer : r.epoch_seq < s.epoch) (closed : (e : ℕ) → is_fenced e fenced ≡ true → e ≤ r.epoch_seq)
    (others : (b : GoString) (t : Session)
      → lookup b r.by_asset ≡ some t
      → str_eq s.asset_id b ≡ false
      → is_fenced t.epoch fenced ≡ false) where
  put_session-IsValid : IsValid (put_session r s fenced)
  unfolding put_session
  put_session-IsValid = record {
    given = λ a t e. ground (arith, lookup-insert s.asset_id a s r.by_asset, v.given a t);
    open_fence = λ a t e.
        ground (arith, lookup-insert s.asset_id a s r.by_asset, closed t.epoch, others a t);
    keyed = λ a t e.
        ground
          (arith, lookup-insert s.asset_id a s r.by_asset, v.keyed a t, str_eq_iff s.asset_id a);
    distinct = λ a b t u e f g. ground (
      arith,
      lookup-insert s.asset_id a s r.by_asset,
      lookup-insert s.asset_id b s r.by_asset,
      str_eq_iff s.asset_id a,
      str_eq_iff s.asset_id b,
      v.distinct a b t u,
      v.given a t,
      v.given b u,
    );
    fenced_given = λ e h. ground (arith, closed e h);
  }

-- The channels that are closed once the session `old`, if any, has been replaced.
abbrev pub fenced_after : SessionRegistry → Option Session → List ℕ
fenced_after r none = r.fenced
fenced_after r (some old) = old.epoch ∷ r.fenced

epoch-new_session :
    (r : SessionRegistry) (a sid av cv : GoString) (now : ℕ)
    → HasEpochs r
    → (new_session r a sid av cv now).epoch ≡ r.epoch_seq + 1
unfolding new_session
epoch-new_session r a sid av cv now h = omega arith

-- In a valid registry `Register` does not panic: it returns a session with the next epoch and the
-- session that the asset had, whose channel it closes, and it puts the new one in its place.
pub register_result :
    (r : SessionRegistry) (a sid av cv : GoString) (now : ℕ)
    → IsValid r
    → let s = new_session r a sid av cv now in
      let old = lookup a r.by_asset in
      register r a sid av cv now ≡ some (s, old, put_session r s (fenced_after r old))
unfolding register
register_result r a sid av cv now v = elim (Option-cases (lookup a r.by_asset)) [
  | inl e ↦ rw (e, register)
  | inr (old, e) ↦ rw (e, register, v.open_fence a old e, close_fence)
]

module _ (r : SessionRegistry) (v : IsValid r) (a : GoString) where
  closed_given :
      (old : Option Session) (e : ℕ)
      → lookup a r.by_asset ≡ old
      → is_fenced e (fenced_after r old) ≡ true
      → e ≤ r.epoch_seq
  unfolding is_fenced
  closed_given none e q h = v.fenced_given e h
  closed_given (some o) e q h = ground (arith, v.given a o q, v.fenced_given e)

  others_open :
      (old : Option Session) (b : GoString) (t : Session)
      → lookup a r.by_asset ≡ old
      → lookup b r.by_asset ≡ some t
      → str_eq a b ≡ false
      → is_fenced t.epoch (fenced_after r old) ≡ false
  unfolding is_fenced
  others_open none b t q p other = v.open_fence b t p
  others_open (some o) b t q p other =
      ground (arith, str_eq_iff a b, v.distinct a b o t q p, v.open_fence b t p)

  -- A session whose asset and epoch stay may take the place of the current one.
  refresh-IsValid :
      (s t : Session)
      → lookup a r.by_asset ≡ some s
      → t.asset_id ≡ s.asset_id
      → t.epoch ≡ s.epoch
      → IsValid (record r { by_asset = insert a t r.by_asset })
  refresh-IsValid s t found asset epoch = record {
    given = λ b u e. ground (arith, lookup-insert a b t r.by_asset, v.given b u, v.given a s found);
    open_fence = λ b u e.
        ground (arith, lookup-insert a b t r.by_asset, v.open_fence b u, v.open_fence a s found);
    keyed = λ b u e.
        ground
          (arith, lookup-insert a b t r.by_asset, v.keyed b u, v.keyed a s found, str_eq_iff a b);
    distinct = λ b c u w e f g. ground (
      arith,
      lookup-insert a b t r.by_asset,
      lookup-insert a c t r.by_asset,
      str_eq_iff a b,
      str_eq_iff a c,
      v.distinct b c u w,
      v.distinct a c s w,
      v.distinct b a u s,
    );
    fenced_given = v.fenced_given;
  }

  delete-IsValid : IsValid (record r { by_asset = delete a r.by_asset })
  delete-IsValid = record {
    given = λ b u e. ground (arith, lookup-delete a b r.by_asset, v.given b u);
    open_fence = λ b u e. ground (arith, lookup-delete a b r.by_asset, v.open_fence b u);
    keyed = λ b u e. ground (arith, lookup-delete a b r.by_asset, v.keyed b u);
    distinct = λ b c u w e f g.
        ground
          (arith, lookup-delete a b r.by_asset, lookup-delete a c r.by_asset, v.distinct b c u w);
    fenced_given = v.fenced_given;
  }

pub register-IsValid :
    (r : SessionRegistry) (a sid av cv : GoString) (now : ℕ)
    → IsValid r
    → HasEpochs r
    → IsValid (put_session r (new_session r a sid av cv now) (fenced_after r (lookup a r.by_asset)))
register-IsValid r a sid av cv now v h =
    put_session-IsValid r v (new_session r a sid av cv now) (fenced_after r (lookup a r.by_asset))
      (omega (arith, epoch-new_session r a sid av cv now h))
      (λ e. closed_given r v a (lookup a r.by_asset) e refl)
      (unfold new_session in λ b t. others_open r v a (lookup a r.by_asset) b t refl)

pub touch-IsValid :
    (r : SessionRegistry) (a : GoString) (e now : ℕ) → IsValid r → IsValid (touch r a e now).1
unfolding touch
touch-IsValid r a e now v = elim (Option-cases (lookup a r.by_asset)) [
  | inl missing ↦ rw (missing, touch) v
  | inr (s, found) ↦ elim (Bool-cases (s.epoch == e)) [
    | inl same ↦ rw (found, touch, same) (refresh-IsValid r v a s _ found refl refl)
    | inr other ↦ rw (found, touch, other) v
  ]
]

pub unregister-IsValid : (r : SessionRegistry) (s : Session) → IsValid r → IsValid (unregister r s)
unfolding unregister
unregister-IsValid r s v = elim (Option-cases (lookup s.asset_id r.by_asset)) [
  | inl missing ↦ rw (missing, unregister) v
  | inr (cur, found) ↦ elim (Bool-cases (cur.epoch == s.epoch)) [
    | inl same ↦ rw (found, unregister, same) (delete-IsValid r v s.asset_id)
    | inr other ↦ rw (found, unregister, other) v
  ]
]
