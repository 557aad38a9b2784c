-- ===== src/Assembler/BuiltIn.antt =====
-- The plugins that the sidecar has: pkg/plugins/registry.go, and the methods of the three plugins as
-- the interface of the assembler has them.
pub mod Names
pub mod Ready
pub mod Blocked
use kidecar.Base.{
  ℕ, zero, suc, String, Bool, Option, none, some, List, [], ◌∷◌, ◌++◌, length, str_eq,
  if◌then◌else◌,
}
use kidecar.Base.Maps.{Entries, insert}
use kidecar.Base.Int.{pos}
use kidecar.Base.Outcome.{Outcome, ok, err, panic, and_then, msg, explicit, out_of_range}
use kidecar.Base.Exec.{Exec, crash}
use kidecar.Api.{Binary}
use kidecar.Api.Sidecar.{PluginStatus}
use kidecar.HttpProbe.Config.{HttpProbeConfig}
use kidecar.HttpProbe.Plugin.{HttpProber}
use kidecar.HttpProbe.Plugin as HttpProbe
use kidecar.HotUpdate.Config.{HotUpdateConfig}
use kidecar.HotUpdate.Plugin as HotUpdate
use kidecar.BinaryPlugin.{Commands, BinaryPlugin}
use kidecar.BinaryPlugin as Runner
use kidecar.Assembler.State.{Plugins}

-- A pointer to one of the plugins; the binary plugins are numbered as they are made.
pub data Handle : Type 0 where
  http_probe hot_update : Handle
  binary : ℕ → Handle

-- What the pointers point to. The host of a binary plugin is the one of `host`.
pub record AllPlugins (W V Pid : Type 0) : Type 0 where
  pub http : HttpProber
  pub hot : HotUpdate.Plugin W
  pub binaries : List (BinaryPlugin V Pid)
  pub host : V

-- What GetConfigType points to. A binary plugin answers a pointer to a plugin, which its own Init does
-- not take.
pub data AnyConfig : Type 0 where
  http_probe_config : HttpProbeConfig → AnyConfig
  hot_update_config : HotUpdateConfig → AnyConfig
  binary_plugin : AnyConfig

unfoldable pub name : Handle → String
name http_probe = HttpProbe.plugin_name
name hot_update = "hot_update"
name (binary n) = "binary"

-- RegisterPlugin, and the function `init` of registry.go
register_plugin : Handle → Entries Handle → Outcome (Entries Handle)
unfolding name insert
register_plugin h registry =
    if str_eq (name h) ""
    then panic (explicit "plugin name is empty")
    else ok (insert (name h) h registry)

init_registry : Outcome (Entries Handle)
unfolding register_plugin
init_registry = and_then (register_plugin http_probe []) (register_plugin hot_update)

abbrev pub registry : Entries Handle
registry = ("http_probe", http_probe) ∷ ("hot_update", hot_update) ∷ []

-- The zero values.
abbrev pub zero_http : HttpProbeConfig
zero_http = record { start_delay_seconds = pos 0; endpoints = []; probe_interval_seconds = pos 0 }

abbrev zero_hot : HotUpdateConfig
zero_hot = record {
  load_patch_type = "";
  signal = record { signal_name = ""; process_name = "" };
  request = record { address = ""; port = 0 };
  file_dir = "";
  storage_config = record { type = ""; in_kube = none; http_metric = none };
}

unfoldable pub get_config_type : Handle → AnyConfig
get_config_type http_probe = http_probe_config zero_http
get_config_type hot_update = hot_update_config zero_hot
get_config_type (binary n) = binary_plugin

http_init_of : AnyConfig → HttpProbe.InitConfig
http_init_of (http_probe_config c) = HttpProbe.http_probe_config (some c)
http_init_of (hot_update_config c) = HttpProbe.other_config
http_init_of binary_plugin = HttpProbe.other_config

hot_init_of : AnyConfig → HotUpdate.InitConfig
hot_init_of (hot_update_config c) = HotUpdate.hot_update_config (some c)
hot_init_of (http_probe_config c) = HotUpdate.other_config
hot_init_of binary_plugin = HotUpdate.other_config

unfoldable pub nth : {A : Type 0} → ℕ → List A → Option A
nth n [] = none
nth zero (b ∷ bs) = some b
nth (suc n) (b ∷ bs) = nth n bs

set_nth : {A : Type 0} → ℕ → A → List A → List A
set_nth n c [] = []
set_nth zero c (b ∷ bs) = c ∷ bs
set_nth (suc n) c (b ∷ bs) = b ∷ set_nth n c bs

module _ {W V Pid : Type 0} (commands : Commands V Pid) where
  put_http : AllPlugins W V Pid → Outcome HttpProber → Outcome (Unit {0}) × AllPlugins W V Pid
  put_http w (ok h) = (ok tt, record w { http = h })
  put_http w (err e) = (err e, w)
  put_http w (panic p) = (panic p, w)

  put_hot :
      AllPlugins W V Pid → Outcome (HotUpdate.Plugin W) → Outcome (Unit {0}) × AllPlugins W V Pid
  put_hot w (ok h) = (ok tt, record w { hot = h })
  put_hot w (err e) = (err e, w)
  put_hot w (panic p) = (panic p, w)

  put_binary :
      {A : Type 0}
      → ℕ
      → AllPlugins W V Pid
      → Outcome A × BinaryPlugin V Pid
      → Outcome A × AllPlugins W V Pid
  unfolding set_nth
  put_binary n w (r, b) = (r, record w { binaries = set_nth n b w.binaries; host = b.host })

  -- A method of the binary plugin of a number.
  call_binary :
      {A : Type 0}
      → Exec (BinaryPlugin V Pid) A
      → ℕ
      → Option (BinaryPlugin V Pid)
      → Exec (AllPlugins W V Pid) A
  unfolding put_binary
  call_binary m n none w = (panic out_of_range, w)
  call_binary m n (some b) w = put_binary n w (m (record b { host = w.host }))

  unfoldable pub init :
      {M : Type 0} → Handle → AnyConfig → Option M → Exec (AllPlugins W V Pid) (Unit {0})
  unfolding http_init_of hot_init_of put_http put_hot nth call_binary
  init http_probe c m w = put_http w (HttpProbe.init (http_init_of c) w.http)
  init hot_update c m w = put_hot w (HotUpdate.init (hot_init_of c) w.hot)
  init (binary n) c m w =
      call_binary (Runner.init commands Runner.other_config) n (nth n w.binaries) w

  unfoldable pub stop : Handle → Exec (AllPlugins W V Pid) (Unit {0})
  unfolding nth call_binary
  stop http_probe w = crash (explicit "unimplemented") w
  stop hot_update w = crash (explicit "implement me") w
  stop (binary n) w = call_binary (Runner.stop commands) n (nth n w.binaries) w

  pub status : Handle → Exec (AllPlugins W V Pid) PluginStatus
  unfolding nth call_binary
  status http_probe w = (HttpProbe.status w.http, w)
  status hot_update w = (HotUpdate.status w.hot, w)
  status (binary n) w = call_binary (Runner.status commands) n (nth n w.binaries) w

  unfoldable pub new_binary : Binary → AllPlugins W V Pid → Handle × AllPlugins W V Pid
  new_binary c w = (
    binary (length w.binaries),
    record w { binaries = w.binaries ++ (Runner.new_plugin commands c w.host ∷ []) },
  )

  abbrev pub built_in : {M : Type 0} → Plugins (AllPlugins W V Pid) Handle AnyConfig M
  built_in = record {
    name = name;
    get_config_type = get_config_type;
    init = init;
    stop = stop;
    status = status;
    new_binary = new_binary;
    registry = registry;
  }
