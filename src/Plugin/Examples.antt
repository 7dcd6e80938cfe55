-- ===== src/Plugin/Examples.antt =====
-- A plugin with one action.
use tom_ai_agent.Base.Int.{pos}
use tom_ai_agent.Base.{
  str_eq, codes, lookup, insert, Dict, ◌≡◌, refl, ◌⊎◌, false, none, some, [], ◌∷◌, ◌++◌,
}
use tom_ai_agent.Executor.Actions.{Action, has_prefix, contains_text}
use tom_ai_agent.Plugin.{
  System, resolve_exec, timeout_of, can_execute, root_owned_strict, build_action, build_actions,
  load_one, load_dir, add_actions,
}
use tom_ai_agent.Plugin.Trust.{plugins-Brings, Brings}

-- One plugin, whose manifest and executable belong to root and can be read and executed by all.
abbrev one_plugin : System
one_plugin = record {
  stat = λ path. some (record { uid = 0; mode = 493; is_dir = false });
  read_file = λ path. some [];
  eval_symlinks = some;
  join = λ dir name. dir ++ codes "/" ++ name;
  base_name = λ dir. codes "disk";
  unmarshal = λ text. some (record {
    name = codes "disk";
    version = codes "1";
    actions =
        record {
          id = codes "usage";
          risk = codes "low";
          exec = codes "run";
          args = [];
          max_timeout = [];
          output = [];
        }
        ∷ [];
  });
  parse_duration = λ text. none;
}

abbrev empty_catalog : Dict Action
empty_catalog = []

abbrev usage : Action
usage = record {
  id = codes "plugin.disk.usage";
  risk = codes "low";
  validate = none;
  binary = codes "/p/disk/run";
  args = [];
  is_func = false;
  plugin_to = pos 0;
}

usage_added :
    lookup
      (codes "plugin.disk.usage")
      (add_actions (load_dir one_plugin (codes "/p") (codes "disk" ∷ [])) empty_catalog)
    ≡ some usage
unfolding add_actions load_dir load_one build_actions build_action resolve_exec timeout_of
    can_execute root_owned_strict lookup str_eq has_prefix contains_text insert
usage_added = refl

plugins-Brings_example :
    (lookup (codes "plugin.disk.usage") empty_catalog ≡ some usage)
    ⊎ ((lookup (codes "plugin.disk.usage") empty_catalog ≡ none)
        × Brings one_plugin (codes "/p") (codes "disk" ∷ []) usage)
plugins-Brings_example =
    plugins-Brings one_plugin (codes "/p") (codes "disk" ∷ []) empty_catalog
      (codes "plugin.disk.usage") usage usage_added
