-- ===== src/Executor/Actions/Catalog.antt =====
-- What the table of actions promises of each action that it holds.
use tom_ai_agent.Base.{
  if◌then◌else◌, Bool-cases, All, str_eq, GoString, codes, str_eq_iff, lookup, ◌≡◌, refl, sym, ap,
  ◌∙◌, subst, inl, inr, Bool, true, false, not, ◌||◌, Option, none, some, List, [], ◌∷◌,
}
use tom_ai_agent.Executor.Actions.{
  Action, Hooks, test_sleep, catalog_actions, by_action_id, catalog, has_prefix, contains_text,
}

-- An argument has a placeholder.
unfoldable pub has_placeholder : List GoString → Bool
unfolding contains_text
has_placeholder [] = false
has_placeholder (arg ∷ args) = contains_text arg (codes "{") || has_placeholder args

abbrev is_some {ℓ} : {A : Type ℓ} → Option A → Bool
is_some none = false
is_some (some _) = true

-- A command of the catalog is an absolute path of the system's programs, and an action whose arguments
-- have a placeholder checks its parameters.
pub record IsFixed (a : Action) : Type 0 where
  pub absolute : (str_eq a.binary [] || has_prefix a.binary (codes "/usr/bin/")) ≡ true
  pub checked : (not (has_placeholder a.args) || is_some a.validate) ≡ true

test_actions-IsFixed : (allowed : Bool) → All IsFixed (if allowed then test_sleep ∷ [] else [])
unfolding has_placeholder contains_text has_prefix str_eq
test_actions-IsFixed true = (record { absolute = refl; checked = refl }, tt)
test_actions-IsFixed false = tt

actions-IsFixed : (h : Hooks) → All IsFixed (catalog_actions h)
unfolding has_placeholder contains_text has_prefix str_eq
actions-IsFixed h = (
  record { absolute = refl; checked = refl },
  (
    record { absolute = refl; checked = refl },
    (
      record { absolute = refl; checked = refl },
      (
        record { absolute = refl; checked = refl },
        (
          record { absolute = refl; checked = refl },
          (
            record { absolute = refl; checked = refl },
            (
              record { absolute = refl; checked = refl },
              (
                record { absolute = refl; checked = refl },
                (
                  record { absolute = refl; checked = refl },
                  test_actions-IsFixed h.allow_test_actions,
                ),
              ),
            ),
          ),
        ),
      ),
    ),
  ),
)

found-IsFixed :
    (id : GoString) (a : Action) (actions : List Action)
    → All IsFixed actions
    → lookup id (by_action_id actions) ≡ some a
    → IsFixed a × (a.id ≡ id)
unfolding lookup
found-IsFixed id a [] h found = absurd (cc found)
found-IsFixed id a (b ∷ actions) h found = elim (Bool-cases (str_eq b.id id)) [
  | inl here ↦ same b h.0 ((str_eq_iff b.id id).0 here) (rw here at found)
  | inr there ↦ found-IsFixed id a actions h.1 (rw there at found)
]
  where
    same : (b : Action) → IsFixed b → b.id ≡ id → some b ≡ some a → IsFixed a × (a.id ≡ id)
    same b fixed named e =
        let q : b ≡ a = cc e in (subst IsFixed q fixed, ap (λ (x : Action). x.id) (sym q) ∙ named)

-- Whatever the hooks: an action that the catalog holds under an id has this id, it has no command or
-- one of /usr/bin, and if its arguments have a placeholder then it checks its parameters.
catalog-IsFixed :
    (h : Hooks) (id : GoString) (a : Action)
    → lookup id (catalog h) ≡ some a
    → IsFixed a × (a.id ≡ id)
unfolding catalog
catalog-IsFixed h id a found = found-IsFixed id a (catalog_actions h) (actions-IsFixed h) found
