-- ===== src/Executor/Actions.antt =====
-- internal/executor/actions.go: the catalog of actions and the validation of their parameters. The
-- patterns of package regexp that the file compiles are written out as tests on bytes.
pub mod Catalog
mod Examples
use tom_ai_agent.Base.Int.{ℤ, pos}
use tom_ai_agent.Base.{
  leb, ◌==◌, if◌then◌else◌, length, str_eq, GoString, codes, lookup, Dict, ℕ, zero, suc, ◌-◌, Bool,
  true, false, not, ◌&&◌, ◌||◌, Option, none, some, List, [], ◌∷◌, ◌++◌,
}

pub data ParamError : Type 0 where
  invalid_service invalid_path path_not_allowed invalid_lines invalid_seconds : ParamError

-- `validate` is `none` where the source has nil, and `is_func` says whether `Func` is set. The
-- functions themselves are of other packages.
pub record Action : Type 0 where
  pub id : GoString
  pub risk : GoString
  pub validate : Option (Dict GoString → Option ParamError)
  pub binary : GoString
  pub args : List GoString
  pub is_func : Bool
  pub plugin_to : ℤ

unfoldable pub in_range : ℕ → ℕ → ℕ → Bool
in_range lo hi c = leb lo c && leb c hi

-- [a-zA-Z0-9]
unfoldable pub is_alnum : ℕ → Bool
unfolding in_range
is_alnum c = in_range b'a' b'z' c || (in_range b'A' b'Z' c || in_range b'0' b'9' c)

-- [a-zA-Z0-9_.@-]
unfoldable pub is_service_char : ℕ → Bool
unfolding is_alnum
is_service_char c = is_alnum c || (c == b'_' || (c == b'.' || (c == b'@' || c == b'-')))

-- [a-zA-Z0-9_./@+-]
unfoldable pub is_path_char : ℕ → Bool
unfolding is_service_char
is_path_char c = is_service_char c || (c == b'/' || c == b'+')

unfoldable pub all_bytes : (ℕ → Bool) → GoString → Bool
all_bytes p [] = true
all_bytes p (c ∷ s) = p c && all_bytes p s

-- ^[class]{1,max}$
unfoldable pub match_class : (ℕ → Bool) → ℕ → GoString → Bool
unfolding all_bytes
match_class p max s = leb 1 (length s) && (leb (length s) max && all_bytes p s)

unfoldable pub re_service_name : GoString → Bool
unfolding is_service_char
re_service_name s = match_class is_service_char 64 s

unfoldable pub re_safe_path : GoString → Bool
unfolding is_path_char
re_safe_path [] = false
re_safe_path (c ∷ s) = c == b'/' && match_class is_path_char 256 s

-- ^[1-9][0-9]{0,3}$
unfoldable pub re_lines : GoString → Bool
unfolding all_bytes in_range
re_lines [] = false
re_lines (c ∷ s) = in_range b'1' b'9' c && (leb (length s) 3 && all_bytes (in_range b'0' b'9') s)

-- ^([1-9]|[1-5][0-9]|60)$
unfoldable pub re_sleep_sec : GoString → Bool
unfolding in_range
re_sleep_sec (c ∷ []) = in_range b'1' b'9' c
re_sleep_sec (c ∷ d ∷ []) = in_range b'1' b'5' c && in_range b'0' b'9' d || c == b'6' && d == b'0'
re_sleep_sec _ = false

-- strings.HasPrefix
unfoldable pub has_prefix : GoString → GoString → Bool
has_prefix s [] = true
has_prefix [] (p ∷ ps) = false
has_prefix (c ∷ s) (p ∷ ps) = c == p && has_prefix s ps

-- strings.Contains
unfoldable pub contains_text : GoString → GoString → Bool
unfolding has_prefix
contains_text [] t = has_prefix [] t
contains_text (c ∷ s) t = has_prefix (c ∷ s) t || contains_text s t

abbrev pub log_path_allowed : List GoString
log_path_allowed = codes "/var/log/" ∷ codes "/var/lib/tom_ai_agent/" ∷ []

unfoldable pub any_prefix : GoString → List GoString → Bool
any_prefix s [] = false
any_prefix s (p ∷ ps) = has_prefix s p || any_prefix s ps

-- params[k], which is the empty string for a missing key.
unfoldable pub param : GoString → Dict GoString → GoString
param k params = elim (lookup k params) [ none ↦ [] | some v ↦ v ]

unfoldable pub validate_service : Dict GoString → Option ParamError
validate_service params =
    if re_service_name (param (codes "service") params) then none else some invalid_service

unfoldable pub validate_log_tail : Dict GoString → Option ParamError
validate_log_tail params =
    let path = param (codes "path") params in
    let v = param (codes "lines") params in
    if not (re_safe_path path) || contains_text path (codes "..")
    then some invalid_path
    else if not (any_prefix path log_path_allowed)
    then some path_not_allowed
    else if not (str_eq v []) && not (re_lines v)
    then some invalid_lines
    else none

-- The check of the test action.
unfoldable pub validate_sleep : Dict GoString → Option ParamError
validate_sleep params =
    if re_sleep_sec (param (codes "seconds") params) then none else some invalid_seconds

-- strings.ReplaceAll for a text `old` that is not empty: `skip` bytes of a match are still to pass.
unfoldable pub replace_from : ℕ → GoString → GoString → GoString → GoString
replace_from skip old new [] = []
replace_from (suc n) old new (c ∷ s) = replace_from n old new s
replace_from zero old new (c ∷ s) =
    let inside = replace_from (length old - 1) old new s in
    let outside = replace_from 0 old new s in
    if has_prefix (c ∷ s) old then new ++ inside else c ∷ outside

unfoldable pub replace_all : GoString → GoString → GoString → GoString
unfolding replace_from
replace_all s old new = replace_from 0 old new s

abbrev pub placeholder : GoString → GoString
placeholder k = b'{' ∷ (k ++ b'}' ∷ [])

-- The inner loop of `buildArgv`, over the parameters in the order of the walk.
unfoldable pub fill_arg : Dict GoString → GoString → GoString
unfolding replace_all
fill_arg [] arg = arg
fill_arg ((k, v) ∷ params) arg = fill_arg params (replace_all arg (placeholder k) v)

unfoldable pub fill_args : Dict GoString → List GoString → List GoString
unfolding fill_arg
fill_args params [] = []
fill_args params (arg ∷ args) =
    replace_all (fill_arg params arg) (codes "{lines}") (codes "100") ∷ fill_args params args

unfoldable pub build_argv : Action → Dict GoString → List GoString
unfolding fill_args
build_argv a params = a.binary ∷ fill_args params a.args

-- Which functions `main` has set, and whether the test action is allowed.
pub record Hooks : Type 0 where
  pub agent_status : Bool
  pub inventory_refresh : Bool
  pub allow_test_actions : Bool

-- An action that runs a fixed command, at a low risk and without a timeout of its own.
abbrev pub command_action :
    GoString → Option (Dict GoString → Option ParamError) → GoString → List GoString → Action
command_action id validate binary args = record {
  id = id;
  risk = codes "low";
  validate = validate;
  binary = binary;
  args = args;
  is_func = false;
  plugin_to = pos 0;
}

abbrev pub func_action : GoString → Bool → Action
func_action id set = record {
  id = id;
  risk = codes "low";
  validate = none;
  binary = [];
  args = [];
  is_func = set;
  plugin_to = pos 0;
}

abbrev pub read_log_tail : Action
read_log_tail =
    command_action (codes "diagnose.read_log_tail") (some validate_log_tail) (codes "/usr/bin/tail")
      (codes "-n" ∷ codes "{lines}" ∷ codes "--" ∷ codes "{path}" ∷ [])

abbrev pub service_status : Action
service_status =
    command_action (codes "diagnose.service_status") (some validate_service)
      (codes "/usr/bin/systemctl")
      (codes "status" ∷ codes "--no-pager" ∷ codes "--" ∷ codes "{service}.service" ∷ [])

abbrev pub test_sleep : Action
test_sleep =
    record (command_action (codes "diagnose.test_sleep") (some validate_sleep)
      (codes "/usr/bin/sleep") (codes "{seconds}" ∷ [])) { risk = codes "medium" }

-- The actions of the catalog, each under its id.
abbrev pub catalog_actions : Hooks → List Action
catalog_actions h =
    command_action (codes "diagnose.disk_usage") none (codes "/usr/bin/df") (codes "-h" ∷ [])
    ∷ command_action (codes "diagnose.memory_summary") none (codes "/usr/bin/free")
        (codes "-m" ∷ [])
    ∷ command_action (codes "diagnose.cpu_top") none (codes "/usr/bin/top")
        (codes "-b" ∷ codes "-n" ∷ codes "1" ∷ [])
    ∷ command_action (codes "diagnose.network_connections") none (codes "/usr/bin/ss")
        (codes "-s" ∷ [])
    ∷ command_action (codes "diagnose.process_list") none (codes "/usr/bin/ps")
        (codes "-eo" ∷ codes "pid,ppid,user,pcpu,pmem,comm" ∷ codes "--sort=-pcpu" ∷ [])
    ∷ service_status
    ∷ read_log_tail
    ∷ func_action (codes "agent.status") h.agent_status
    ∷ func_action (codes "inventory.refresh") h.inventory_refresh
    ∷ (if h.allow_test_actions then test_sleep ∷ [] else [])

abbrev pub by_action_id : List Action → Dict Action
by_action_id [] = []
by_action_id (a ∷ actions) = (a.id, a) ∷ by_action_id actions

unfoldable pub catalog : Hooks → Dict Action
catalog h = by_action_id (catalog_actions h)
