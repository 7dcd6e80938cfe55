-- ===== src/Executor/Actions/Examples.antt =====
-- Tests of the parameters and of argv.
use tom_ai_agent.Base.{
  str_eq, GoString, codes, lookup, Dict, ◌≡◌, refl, true, false, none, some, [], ◌∷◌,
}
use tom_ai_agent.Executor.Actions.{
  Hooks, path_not_allowed, read_log_tail, service_status, validate_log_tail, re_safe_path,
  match_class, all_bytes, is_service_char, is_path_char, is_alnum, in_range, contains_text,
  has_prefix, any_prefix, param, replace_from, replace_all, fill_arg, fill_args, build_argv,
}

abbrev syslog : Dict GoString
syslog = (codes "path", codes "/var/log/syslog") ∷ []

-- An empty text for the number of lines.
abbrev no_lines : Dict GoString
no_lines = (codes "lines", []) ∷ syslog

syslog_argv :
    build_argv read_log_tail syslog
    ≡ codes "/usr/bin/tail" ∷ codes "-n" ∷ codes "100" ∷ codes "--" ∷ codes "/var/log/syslog" ∷ []
unfolding build_argv fill_args fill_arg replace_all replace_from has_prefix
syslog_argv = refl

-- The empty number of lines passes the check, and reaches the command instead of the default.
no_lines_passes : validate_log_tail no_lines ≡ none
unfolding validate_log_tail param lookup str_eq re_safe_path match_class all_bytes is_path_char
    is_service_char is_alnum in_range contains_text has_prefix any_prefix
no_lines_passes = refl

no_lines_argv :
    build_argv read_log_tail no_lines
    ≡ codes "/usr/bin/tail" ∷ codes "-n" ∷ [] ∷ codes "--" ∷ codes "/var/log/syslog" ∷ []
unfolding build_argv fill_args fill_arg replace_all replace_from has_prefix
no_lines_argv = refl

shadow_refused :
    validate_log_tail ((codes "path", codes "/etc/shadow") ∷ []) ≡ some path_not_allowed
unfolding validate_log_tail param lookup str_eq re_safe_path match_class all_bytes is_path_char
    is_service_char is_alnum in_range contains_text has_prefix any_prefix
shadow_refused = refl

service_argv :
    build_argv service_status ((codes "service", codes "nginx") ∷ [])
    ≡ codes "/usr/bin/systemctl"
      ∷ codes "status"
      ∷ codes "--no-pager"
      ∷ codes "--"
      ∷ codes "nginx.service"
      ∷ []
unfolding build_argv fill_args fill_arg replace_all replace_from has_prefix
service_argv = refl

abbrev hooks : Hooks
hooks = record { agent_status = true; inventory_refresh = true; allow_test_actions = false }
