-- ===== src/Config.antt =====
-- internal/config/config.go: the configuration of the agent and its defaults. A duration is in
-- nanoseconds. The YAML library is a parameter.
mod Examples
use tom_ai_agent.Base.Int.{ℤ, pos}
use tom_ai_agent.Base.{
  GoString, codes, Dict, ℕ, ◌*◌, Bool, true, false, Option, none, some, List, [], ◌∷◌,
}
use tom_ai_agent.Watchdog.Sentinel.{WatchdogConf}

pub record WalConf : Type 0 where
  pub enabled : Bool
  pub max_mb : ℤ
  pub metrics_fallback : Bool

pub record ReporterConf : Type 0 where
  pub buffer_size : ℤ
  pub batch_size : ℤ
  pub batch_interval : ℤ
  pub wal : WalConf

pub record CgroupConf : Type 0 where
  pub enabled : Bool
  pub memory_max_mb : ℤ
  pub cpu_quota_pct : ℤ

pub record ExecutorConf : Type 0 where
  pub enabled : Bool
  pub workers : ℤ
  pub queue_size : ℤ
  pub max_timeout : ℤ
  pub kill_grace : ℤ
  pub output_limit_kb : ℤ
  pub allow_test_actions : Bool
  pub command_pubkey_file : GoString
  pub cgroup : CgroupConf
  pub plugin_dir : GoString

pub record RegisterConf : Type 0 where
  pub bootstrap_token : GoString
  pub bootstrap_addr : GoString
  pub bootstrap_ca_file : GoString
  pub rotate_before_days : ℤ

pub record InventoryPackagesConf : Type 0 where
  pub enabled : Bool
  pub patterns : List GoString

pub record InventoryProcessesConf : Type 0 where
  pub enabled : Bool
  pub upload_enabled : Bool
  pub redact_patterns : List GoString

pub record InventoryConf : Type 0 where
  pub enabled : Bool
  pub full_interval : ℤ
  pub packages : InventoryPackagesConf
  pub processes : InventoryProcessesConf

pub record AgentConf : Type 0 where
  pub data_dir : GoString
  pub log_level : GoString
  pub asset_id : GoString

pub record UplinkConf : Type 0 where
  pub mode : GoString
  pub addr : GoString
  pub http_addr : GoString
  pub insecure : Bool
  pub ca_file : GoString
  pub cert_file : GoString
  pub key_file : GoString
  pub server_name : GoString

pub record CollectorConf : Type 0 where
  pub enabled : Bool
  pub interval : ℤ

pub record Config : Type 0 where
  pub agent : AgentConf
  pub uplink : UplinkConf
  pub collectors : Dict CollectorConf
  pub reporter : ReporterConf
  pub watchdog : WatchdogConf
  pub register : RegisterConf
  pub inventory : InventoryConf
  pub executor : ExecutorConf

abbrev pub seconds : ℕ → ℤ
seconds n = pos (n * 1000000000)

abbrev pub default_reporter : ReporterConf
default_reporter = record {
  buffer_size = pos 10000;
  batch_size = pos 500;
  batch_interval = seconds 1;
  wal = record { enabled = true; max_mb = pos 100; metrics_fallback = true };
}

abbrev pub default_watchdog : WatchdogConf
default_watchdog = record {
  rss_soft_mb = 150;
  rss_hard_mb = 190;
  fd_limit = 1024;
  degraded_mode = true;
}

abbrev pub default_executor : ExecutorConf
default_executor = record {
  enabled = true;
  workers = pos 4;
  queue_size = pos 64;
  max_timeout = seconds 300;
  kill_grace = seconds 3;
  output_limit_kb = pos 1024;
  allow_test_actions = false;
  command_pubkey_file = [];
  cgroup = record { enabled = true; memory_max_mb = pos 256; cpu_quota_pct = pos 100 };
  plugin_dir = codes "/usr/libexec/tom_ai_agent/plugins";
}

abbrev pub default_inventory : InventoryConf
default_inventory = record {
  enabled = true;
  full_interval = seconds 86400;
  packages = record {
    enabled = true;
    patterns =
        codes "kylin-*"
        ∷ codes "bes*"
        ∷ codes "goldendb*"
        ∷ codes "gaussdb*"
        ∷ codes "polardb*"
        ∷ [];
  };
  processes = record {
    enabled = true;
    upload_enabled = true;
    redact_patterns = codes "--password=*" ∷ codes "--token=*" ∷ codes "--secret=*" ∷ [];
  };
}

abbrev pub default_collectors : Dict CollectorConf
default_collectors =
    (codes "cpu", record { enabled = true; interval = seconds 10 })
    ∷ (codes "memory", record { enabled = true; interval = seconds 10 })
    ∷ (codes "diskcap", record { enabled = true; interval = seconds 60 })
    ∷ (codes "net", record { enabled = true; interval = seconds 10 })
    ∷ (codes "load", record { enabled = true; interval = seconds 10 })
    ∷ []

abbrev pub default_config : Config
default_config = record {
  agent = record {
    data_dir = codes "/var/lib/tom_ai_agent";
    log_level = codes "info";
    asset_id = [];
  };
  uplink = record {
    mode = codes "stdout";
    addr = [];
    http_addr = [];
    insecure = false;
    ca_file = [];
    cert_file = [];
    key_file = [];
    server_name = [];
  };
  collectors = default_collectors;
  reporter = default_reporter;
  watchdog = default_watchdog;
  register = record {
    bootstrap_token = [];
    bootstrap_addr = [];
    bootstrap_ca_file = [];
    rotate_before_days = pos 0;
  };
  inventory = default_inventory;
  executor = default_executor;
}

-- What the file system says of the file.
pub data FileRead : Type 0 where
  missing unreadable : FileRead
  contents : GoString → FileRead

pub data LoadResult : Type 0 where
  loaded : Config → LoadResult
  read_error parse_error : LoadResult

-- `unmarshal` sets the fields that the text has, over those of the configuration that it is given.
unfoldable pub load : (GoString → Config → Option Config) → FileRead → LoadResult
load unmarshal missing = loaded default_config
load unmarshal unreadable = read_error
load unmarshal (contents text) = elim (unmarshal text default_config) [
  | none ↦ parse_error
  | some cfg ↦ loaded cfg
]
