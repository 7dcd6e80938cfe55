-- ===== src/Plugin/Trust.antt =====
-- What a loaded action runs, and that it replaces no other.
use tom_ai_agent.Base.{
  ltb, ◌==◌, Bool-cases, Option-cases, length, All, All-append, str_eq, GoString, codes, str_eq_iff,
  lookup, insert, Dict, lookup-insert, ◌≡◌, refl, subst, ◌⊎◌, inl, inr, true, false, not, ◌||◌,
  none, some, List, [], ◌∷◌, ◌++◌,
}
use tom_ai_agent.Executor.Actions.{Action, contains_text, has_prefix}
use tom_ai_agent.Plugin.{
  System, Manifest, ManifestAction, Loaded, loaded, rejected, PluginError, re_act_id, re_name,
  valid_risk, valid_output, timeout_of, root_owned_strict, can_execute, resolve_exec, build_action,
  build_actions, load_one, load_dir, add_actions,
}

Loaded-cases :
    {A : Type 0} (l : Loaded A)
    → ((a : A) × (l ≡ loaded a)) ⊎ ((e : PluginError) × (l ≡ rejected e))
Loaded-cases (loaded a) = inl (a, refl)
Loaded-cases (rejected e) = inr (e, refl)

All-weaken :
    {A : Type 0} (P Q : A → Type 0) → ((a : A) → P a → Q a) → (xs : List A) → All P xs → All Q xs
All-weaken P Q f [] h = tt
All-weaken P Q f (x ∷ xs) h = (f x h.0, All-weaken P Q f xs h.1)

module _ (sys : System) where
  -- The file is below the directory, belongs to root alone, and can be executed.
  pub record IsTrusted (dir path : GoString) : Type 0 where
    pub inside : has_prefix path (dir ++ codes "/") ≡ true
    pub owned : root_owned_strict sys path ≡ true
    pub executable : can_execute sys path ≡ true

  abbrev Resolves : GoString → Loaded GoString → Type 0
  Resolves dir (rejected e) = Unit
  Resolves dir (loaded path) = IsTrusted dir path

  resolve_exec-IsTrusted : (dir exec : GoString) → Resolves dir (resolve_exec sys dir exec)
  unfolding resolve_exec
  resolve_exec-IsTrusted dir exec =
      elim (Bool-cases (has_prefix exec (codes "/") || contains_text exec (codes ".."))) [
        | inl out ↦ rw (resolve_exec, out) tt
        | inr within ↦ elim (Option-cases (sys.eval_symlinks (sys.join dir exec))) [
          | inl e ↦ rw (resolve_exec, within, e) tt
          | inr (path, found) ↦ elim (Bool-cases (has_prefix path (dir ++ codes "/"))) [
            | inr e ↦ rw (resolve_exec, within, found, e) tt
            | inl inside ↦ elim (Bool-cases (root_owned_strict sys path)) [
              | inr e ↦ rw (resolve_exec, within, found, inside, e) tt
              | inl owned ↦ elim (Bool-cases (can_execute sys path)) [
                | inr e ↦ rw (resolve_exec, within, found, inside, owned, e) tt
                | inl runs ↦
                    rw (resolve_exec, within, found, inside, owned, runs)
                      (record { inside = inside; owned = owned; executable = runs })
              ]
            ]
          ]
        ]
      ]

  -- An action that the plugin in a directory may bring.
  pub record IsPluginAction (dir : GoString) (a : Action) : Type 0 where
    pub trusted : IsTrusted dir a.binary
    pub prefixed : has_prefix a.id (codes "plugin.") ≡ true
    pub external : a.is_func ≡ false

  abbrev Builds : GoString → Loaded Action → Type 0
  Builds dir (rejected e) = Unit
  Builds dir (loaded a) = IsPluginAction dir a

  build_action-IsPluginAction :
      (dir : GoString) (mf : Manifest) (a : ManifestAction) → Builds dir (build_action sys dir mf a)
  unfolding build_action has_prefix
  build_action-IsPluginAction dir mf a = elim (Bool-cases (re_act_id a.id)) [
    | inr e ↦ rw (build_action, e) tt
    | inl id ↦ elim (Bool-cases (valid_risk a.risk)) [
      | inr e ↦ rw (build_action, id, e) tt
      | inl risk ↦ elim (Bool-cases (valid_output a.output)) [
        | inr e ↦ rw (build_action, id, risk, e) tt
        | inl output ↦ elim (Loaded-cases (resolve_exec sys dir a.exec)) [
          | inr (err, e) ↦ rw (build_action, id, risk, output, e) tt
          | inl (path, found) ↦ elim (Option-cases (timeout_of sys a.max_timeout)) [
            | inl e ↦ rw (build_action, id, risk, output, found, e) tt
            | inr (limit, e) ↦
                rw (build_action, id, risk, output, found, e)
                  (record {
                    trusted = subst (Resolves dir) found (resolve_exec-IsTrusted dir a.exec);
                    prefixed = refl;
                    external = refl;
                  })
          ]
        ]
      ]
    ]
  ]

  abbrev AllBuild : GoString → Loaded (List Action) → Type 0
  AllBuild dir (rejected e) = Unit
  AllBuild dir (loaded acts) = All (IsPluginAction dir) acts

  build_actions-All :
      (dir : GoString) (mf : Manifest) (acts : List ManifestAction)
      → AllBuild dir (build_actions sys dir mf acts)
  unfolding build_actions
  build_actions-All dir mf [] = tt
  build_actions-All dir mf (a ∷ more) =
      let rest = build_actions-All dir mf more in
      elim (Loaded-cases (build_action sys dir mf a)) [
        | inr (err, e) ↦ rw (build_actions, e) tt
        | inl (act, built) ↦ elim (Loaded-cases (build_actions sys dir mf more)) [
          | inr (err, e) ↦ rw (build_actions, built, e) tt
          | inl (acts, e) ↦
              rw (build_actions, built, e)
                (
                  subst (Builds dir) built (build_action-IsPluginAction dir mf a),
                  subst (AllBuild dir) e rest,
                )
        ]
      ]

  load_one-All : (dir : GoString) → AllBuild dir (load_one sys dir)
  unfolding load_one
  load_one-All dir =
      elim (Bool-cases (root_owned_strict sys (sys.join dir (codes "manifest.yaml")))) [
        | inr e ↦ rw (load_one, e) tt
        | inl owned ↦ elim (Option-cases (sys.read_file (sys.join dir (codes "manifest.yaml")))) [
          | inl e ↦ rw (load_one, owned, e) tt
          | inr (text, read) ↦ elim (Option-cases (sys.unmarshal text)) [
            | inl e ↦ rw (load_one, owned, read, e) tt
            | inr (mf, parsed) ↦
                elim (Bool-cases
                  (not (re_name mf.name) || not (str_eq (sys.base_name dir) mf.name))) [
                    | inl e ↦ rw (load_one, owned, read, parsed, e) tt
                    | inr named ↦
                        elim (Bool-cases (length mf.actions == 0 || ltb 16 (length mf.actions))) [
                          | inl e ↦ rw (load_one, owned, read, parsed, named, e) tt
                          | inr some_actions ↦
                              rw (load_one, owned, read, parsed, named, some_actions)
                                (build_actions-All dir mf mf.actions)
                        ]
                  ]
          ]
        ]
      ]

  -- The action comes from the plugin in one of the directories.
  abbrev pub Brings : GoString → List GoString → Action → Type 0
  Brings root [] a = ⊥
  Brings root (name ∷ names) a = IsPluginAction (sys.join root name) a ⊎ Brings root names a

  load_dir-All :
      (root : GoString) (names : List GoString) → All (Brings root names) (load_dir sys root names)
  unfolding load_dir
  load_dir-All root [] = tt
  load_dir-All root (name ∷ names) =
      let rest =
        All-weaken (Brings root names) (Brings root (name ∷ names)) (λ a. inr)
          (load_dir sys root names) (load_dir-All root names) in
      elim (Loaded-cases (load_one sys (sys.join root name))) [
        | inr (err, e) ↦ rw (load_dir, e) rest
        | inl (acts, e) ↦
            rw (load_dir, e)
              (All-append (Brings root (name ∷ names)) acts (load_dir sys root names)
                (All-weaken (IsPluginAction (sys.join root name)) (Brings root (name ∷ names))
                  (λ a. inl) acts
                  (subst (AllBuild (sys.join root name)) e (load_one-All (sys.join root name))))
                rest)
      ]

  -- What a lookup finds after actions were added: what was there before, or else one of them.
  added :
      (P : Action → Type 0) (acts : List Action) (catalog : Dict Action) (id : GoString)
      (a : Action)
      → All P acts
      → lookup id (add_actions acts catalog) ≡ some a
      → (lookup id catalog ≡ some a) ⊎ ((lookup id catalog ≡ none) × P a)
  unfolding add_actions
  added P [] catalog id a h found = inl found
  added P (act ∷ acts) catalog id a h found = elim (Option-cases (lookup act.id catalog)) [
    | inr (old, there) ↦ added P acts catalog id a h.1 (rw (add_actions, there) at found)
    | inl new ↦
        elim (added P acts (insert act.id act catalog) id a h.1 (rw (add_actions, new) at found)) [
          | inl e ↦ elim (Bool-cases (str_eq act.id id)) [
            | inl same ↦
                let is : some act ≡ some a = rw (lookup-insert act.id id act catalog, same) at e in
                inr (
                  subst (λ i. lookup i catalog ≡ none) ((str_eq_iff act.id id).0 same) new,
                  subst P (same_action act a is) h.0,
                )
            | inr other ↦ inl (rw (lookup-insert act.id id act catalog, other) at e)
          ]
          | inr (e, p) ↦ elim (Bool-cases (str_eq act.id id)) [
            | inl same ↦
                let gone : some act ≡ none = rw (lookup-insert act.id id act catalog, same) at e in
                absurd (cc gone)
            | inr other ↦ inr (rw (lookup-insert act.id id act catalog, other) at e, p)
          ]
        ]
  ]
    where
      same_action : (p q : Action) → some p ≡ some q → p ≡ q
      same_action p q e = cc e

  -- After the plugins of a directory were loaded, every action of the catalog is one that was in it before,
  -- under the same id, or has a new id and comes from one of the plugins: it is an external command, its
  -- executable lies in the directory of that plugin, belongs to root and cannot be written by others, and
  -- the id starts with "plugin.".
  pub plugins-Brings :
      (root : GoString) (names : List GoString) (catalog : Dict Action) (id : GoString) (a : Action)
      → lookup id (add_actions (load_dir sys root names) catalog) ≡ some a
      → (lookup id catalog ≡ some a) ⊎ ((lookup id catalog ≡ none) × Brings root names a)
  plugins-Brings root names catalog id a found =
      added (Brings root names) (load_dir sys root names) catalog id a (load_dir-All root names)
        found
