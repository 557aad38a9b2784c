-- ===== src/Tests/Assembler.antt =====
-- A sidecar with the plugin http_probe and a binary plugin.
use kidecar.Base.{ℕ, String, refl, ◌≡◌, ◌≢◌, true, none, some, List, [], ◌∷◌}
use kidecar.Base.Maps.{lookup, insert}
use kidecar.Base.Outcome.{ok, err, panic, msg, blocked}
use kidecar.Api.Sidecar.{SidecarConfig}
use kidecar.HttpProbe.Plugin as HttpProbe
use kidecar.HotUpdate.Plugin.{fresh}
use kidecar.Assembler.Convert.{Json}
use kidecar.Assembler.State.{Plugins, Sidecar, new_sidecar}
use kidecar.Assembler.Add.{init_plugins}
use kidecar.Assembler.Add.Installed.{IsInstalled, init_plugins-IsInstalled}
use kidecar.Assembler.Polls.{plugin_not_found, update_plugin_status, plugin_status, remove_plugin}
use kidecar.Assembler.Polls.Removed.{remove_plugin-IsGone}
use kidecar.Assembler.Start.{values, start_each, start_all_plugins}
use kidecar.Assembler.Start.Launched.{Launched, IsStarted, start_all_plugins-IsStarted}
use kidecar.BinaryPlugin as Runner
use kidecar.Assembler.BuiltIn as BuiltIn
use kidecar.Assembler.BuiltIn.{Handle, AllPlugins, AnyConfig, zero_http, nth, built_in}
use kidecar.Assembler.BuiltIn.Ready.Starts.{start_all_plugins-init_plugins}
use kidecar.Assembler.BuiltIn.Names.{built_in_laws}
use kidecar.Tests.World.{World}
use kidecar.Assembler.BuiltIn.Blocked.{start_each-blocked}
use kidecar.Tests.BinaryPlugin.{
  commands, agent, without_agent, waiting, other_agent, waiting_locked,
}

abbrev plugins : Plugins (AllPlugins World ℕ ℕ) Handle AnyConfig (Unit {0})
plugins = built_in commands

abbrev json : Json String AnyConfig
json = record {
  is_map = λ j. true;
  is_pointer = λ c. true;
  points_to_struct = λ c. true;
  marshal = λ j. ok j;
  unmarshal = λ text c. ok c;
}

abbrev two_plugins : SidecarConfig String
two_plugins = record {
  plugins =
      record { name = "http_probe"; binary = none; config = some "{}"; boot_order = 0 }
      ∷ record { name = "agent"; binary = some agent; config = none; boot_order = 1 }
      ∷ [];
  restart_policy = "Always";
  resources = none;
  sidecar_start_order = "";
}

abbrev world : AllPlugins World ℕ ℕ
world = record {
  http = record { config = zero_http; factory = []; status = none };
  hot =
      fresh
        (record { cache = []; handlers = []; api = record { configmap = none; config = none } });
  binaries = [];
  host = 0;
}

abbrev configured : Sidecar (AllPlugins World ℕ ℕ) Handle String (Unit {0})
configured = record (new_sidecar world) { config = some two_plugins; manager = some tt }

abbrev installed : Sidecar (AllPlugins World ℕ ℕ) Handle String (Unit {0})
unfolding init_plugins
installed = (init_plugins plugins json configured).1

init_runs : init_plugins plugins json configured ≡ (ok tt, installed)
unfolding init_plugins lookup BuiltIn.init HttpProbe.init BuiltIn.get_config_type
init_runs = refl

init_plugins-IsInstalled_example :
    IsInstalled plugins json
      (built_in_laws commands)
      two_plugins.plugins
      configured.plugins
      installed.plugins
      "agent"
init_plugins-IsInstalled_example =
    init_plugins-IsInstalled plugins json (built_in_laws commands) two_plugins configured installed
      refl init_runs "agent"

abbrev removed : Sidecar (AllPlugins World ℕ ℕ) Handle String (Unit {0})
unfolding remove_plugin
removed = (remove_plugin plugins "agent" installed).1

removal_runs : remove_plugin plugins "agent" installed ≡ (ok tt, removed)
unfolding remove_plugin init_plugins lookup BuiltIn.init HttpProbe.init BuiltIn.get_config_type
    insert new_sidecar BuiltIn.name BuiltIn.stop BuiltIn.new_binary Runner.stop Runner.new_plugin
removal_runs = refl

remove_plugin-IsGone_example :
    (lookup "agent" removed.plugins ≡ none)
    × ((k : String) → k ≢ "agent" → lookup k removed.plugins ≡ lookup k installed.plugins)
    × (update_plugin_status plugins "agent" removed
        ≡ (err (msg (plugin_not_found "agent")), removed))
    × (lookup "agent" installed.plugin_statuses ≡ none
        → plugin_status plugins "agent" removed ≡ (err (msg (plugin_not_found "agent")), removed))
remove_plugin-IsGone_example = remove_plugin-IsGone plugins "agent" installed removed removal_runs

-- Nothing runs while the plugins are asked.
start_all_plugins-IsStarted_example :
    IsStarted plugins (values installed.plugins) (start_all_plugins plugins (λ h w. w) installed)
start_all_plugins-IsStarted_example = start_all_plugins-IsStarted plugins (λ h w. w) installed

none_held : configured.plugins ≡ []
unfolding new_sidecar
none_held = refl

start_all_plugins-init_plugins_example :
    (l : List Handle) × (s : Sidecar (AllPlugins World ℕ ℕ) Handle String (Unit {0}))
    × (start_all_plugins plugins (λ h w. w) installed ≡ (ok l, s))
    × Launched plugins s (values installed.plugins) l
start_all_plugins-init_plugins_example =
    start_all_plugins-init_plugins commands json (λ h w. w) configured installed (λ h g w r. r)
      none_held init_runs

-- Two binary plugins; the command of the one that is configured as "binary" is not there.
abbrev stuck : Sidecar (AllPlugins World ℕ ℕ) Handle String (Unit {0})
stuck = record (new_sidecar (record world { binaries = waiting ∷ other_agent ∷ [] })) {
  plugins = ("binary", BuiltIn.binary 0) ∷ ("agent", BuiltIn.binary 1) ∷ [];
  config = some two_plugins;
}

nothing_kept : lookup "binary" stuck.plugin_statuses ≡ none
unfolding new_sidecar lookup
nothing_kept = refl

held_first : lookup "binary" stuck.plugins ≡ some (BuiltIn.binary 0)
unfolding lookup
held_first = refl

first_waits : nth 0 stuck.world.binaries ≡ some waiting
unfolding nth new_sidecar
first_waits = refl

start_each-blocked_example :
    (start_each
      (built_in {W = World} without_agent {M = Unit {0}})
      (λ h w. w)
      (BuiltIn.binary 1 ∷ BuiltIn.http_probe ∷ [])
      stuck).0
    ≡ panic blocked
start_each-blocked_example =
    start_each-blocked without_agent (λ h w. w) 1 0 (BuiltIn.http_probe ∷ []) waiting stuck
      nothing_kept held_first first_waits waiting_locked
