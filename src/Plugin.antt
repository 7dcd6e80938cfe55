-- ===== src/Plugin.antt =====
-- internal/plugin/plugin.go: which plugins are loaded, and AddActions of internal/executor/engine.go, which
-- puts their actions into the catalog. The file system, the YAML library and path/filepath are parameters.
pub mod Trust
mod Examples
use tom_ai_agent.Base.Int.{ℤ, pos, ltb_ℤ}
use tom_ai_agent.Base.{
  ltb, leb, ◌==◌, if◌then◌else◌, length, str_eq, GoString, codes, lookup, insert, Dict, ℕ, ◌/◌, ◌%◌,
  ◌^◌, Bool, false, not, ◌&&◌, ◌||◌, Option, none, some, List, [], ◌∷◌, ◌++◌,
}
use tom_ai_agent.Executor.Actions.{Action, in_range, all_bytes, has_prefix, contains_text}

pub record ManifestAction : Type 0 where
  pub id : GoString
  pub risk : GoString
  pub exec : GoString
  pub args : List GoString
  pub max_timeout : GoString
  pub output : GoString

pub record Manifest : Type 0 where
  pub name : GoString
  pub version : GoString
  pub actions : List ManifestAction

pub record FileInfo : Type 0 where
  pub uid : ℕ
  pub mode : ℕ
  pub is_dir : Bool

-- `none` is an error.
pub record System : Type 0 where
  pub stat : GoString → Option FileInfo
  pub read_file : GoString → Option GoString
  pub eval_symlinks : GoString → Option GoString
  pub join : GoString → GoString → GoString
  pub base_name : GoString → GoString
  pub unmarshal : GoString → Option Manifest
  pub parse_duration : GoString → Option ℤ

pub data PluginError : Type 0 where
  not_trusted unreadable bad_manifest bad_name bad_count : PluginError
  bad_id bad_risk bad_output outside_dir unresolved not_executable bad_timeout : PluginError

pub data Loaded (A : Type 0) : Type 0 where
  loaded : A → Loaded A
  rejected : PluginError → Loaded A

-- [a-z0-9]
unfoldable pub is_lower_alnum : ℕ → Bool
unfolding in_range
is_lower_alnum c = in_range b'a' b'z' c || in_range b'0' b'9' c

-- ^[a-z0-9][a-z0-9_-]{0,63}$
unfoldable pub re_name : GoString → Bool
unfolding is_lower_alnum all_bytes
re_name [] = false
re_name (c ∷ s) =
    is_lower_alnum c
    && (leb (length s) 63 && all_bytes (λ d. is_lower_alnum d || (d == b'_' || d == b'-')) s)

-- ^[a-z0-9][a-z0-9_.-]{0,63}$
unfoldable pub re_act_id : GoString → Bool
unfolding is_lower_alnum all_bytes
re_act_id [] = false
re_act_id (c ∷ s) =
    is_lower_alnum c
    && (leb (length s) 63
        && all_bytes (λ d. is_lower_alnum d || (d == b'_' || (d == b'.' || d == b'-'))) s)

unfoldable pub mode_bit : ℕ → ℕ → Bool
mode_bit k mode = (mode / 2 ^ k) % 2 == 1

-- mode & 0o022 != 0
unfoldable pub others_write : ℕ → Bool
unfolding mode_bit
others_write mode = mode_bit 4 mode || mode_bit 1 mode

-- mode & 0o111 != 0
unfoldable pub is_executable : ℕ → Bool
unfolding mode_bit
is_executable mode = mode_bit 6 mode || (mode_bit 3 mode || mode_bit 0 mode)

unfoldable pub valid_risk : GoString → Bool
valid_risk r = str_eq r (codes "low") || (str_eq r (codes "medium") || str_eq r (codes "high"))

-- The empty text stands for "result".
unfoldable pub valid_output : GoString → Bool
valid_output o = str_eq o [] || (str_eq o (codes "result") || str_eq o (codes "metrics"))

module _ (sys : System) where
  unfoldable pub root_owned_strict : GoString → Bool
  unfolding others_write
  root_owned_strict path = elim (sys.stat path) [
    | none ↦ false
    | some st ↦ st.uid == 0 && not (others_write st.mode)
  ]

  -- The limit of the action, none where the text is refused.
  unfoldable pub timeout_of : GoString → Option ℤ
  timeout_of s = if str_eq s [] then some (pos 0) else elim (sys.parse_duration s) [
    | none ↦ none
    | some d ↦ if ltb_ℤ (pos 0) d then some d else none
  ]

  unfoldable pub can_execute : GoString → Bool
  unfolding is_executable
  can_execute path = elim (sys.stat path) [
    | none ↦ false
    | some st ↦ not st.is_dir && is_executable st.mode
  ]

  -- The executable of an action.
  unfoldable pub resolve_exec : GoString → GoString → Loaded GoString
  unfolding root_owned_strict can_execute
  resolve_exec dir exec =
      if has_prefix exec (codes "/") || contains_text exec (codes "..")
      then rejected outside_dir
      else elim (sys.eval_symlinks (sys.join dir exec)) [
        | none ↦ rejected unresolved
        | some resolved ↦
            if not (has_prefix resolved (dir ++ codes "/"))
            then rejected outside_dir
            else if not (root_owned_strict resolved)
            then rejected not_trusted
            else if not (can_execute resolved)
            then rejected not_executable
            else loaded resolved
      ]

  unfoldable pub build_action : GoString → Manifest → ManifestAction → Loaded Action
  unfolding resolve_exec timeout_of valid_risk valid_output re_act_id
  build_action dir mf a =
      if not (re_act_id a.id)
      then rejected bad_id
      else if not (valid_risk a.risk)
      then rejected bad_risk
      else if not (valid_output a.output)
      then rejected bad_output
      else elim (resolve_exec dir a.exec) [
        | rejected e ↦ rejected e
        | loaded resolved ↦ elim (timeout_of a.max_timeout) [
          | none ↦ rejected bad_timeout
          | some limit ↦ loaded (record {
            id = codes "plugin." ++ (mf.name ++ (codes "." ++ a.id));
            risk = a.risk;
            validate = none;
            binary = resolved;
            args = a.args;
            is_func = false;
            plugin_to = limit;
          })
        ]
      ]

  -- The first action that is refused makes the plugin refused.
  unfoldable pub build_actions : GoString → Manifest → List ManifestAction → Loaded (List Action)
  unfolding build_action
  build_actions dir mf [] = loaded []
  build_actions dir mf (a ∷ more) =
      let rest = build_actions dir mf more in
      elim (build_action dir mf a) [
        | rejected e ↦ rejected e
        | loaded act ↦ elim rest [ rejected e ↦ rejected e | loaded acts ↦ loaded (act ∷ acts) ]
      ]

  unfoldable pub load_one : GoString → Loaded (List Action)
  unfolding build_actions root_owned_strict re_name
  load_one dir =
      let manifest_path = sys.join dir (codes "manifest.yaml") in
      if not (root_owned_strict manifest_path)
      then rejected not_trusted
      else elim (sys.read_file manifest_path) [
        | none ↦ rejected unreadable
        | some data_bytes ↦ elim (sys.unmarshal data_bytes) [
          | none ↦ rejected bad_manifest
          | some mf ↦
              if not (re_name mf.name) || not (str_eq (sys.base_name dir) mf.name)
              then rejected bad_name
              else if length mf.actions == 0 || ltb 16 (length mf.actions)
              then rejected bad_count
              else build_actions dir mf mf.actions
        ]
      ]

  -- The directories of the plugin directory; a plugin that is refused is skipped.
  unfoldable pub load_dir : GoString → List GoString → List Action
  unfolding load_one
  load_dir root [] = []
  load_dir root (name ∷ names) =
      let rest = load_dir root names in
      elim (load_one (sys.join root name)) [ rejected e ↦ rest | loaded acts ↦ acts ++ rest ]

unfoldable pub add_actions : List Action → Dict Action → Dict Action
add_actions [] catalog = catalog
add_actions (a ∷ more) catalog =
    let kept = add_actions more catalog in
    let added = add_actions more (insert a.id a catalog) in
    elim (lookup a.id catalog) [ none ↦ added | some _ ↦ kept ]
