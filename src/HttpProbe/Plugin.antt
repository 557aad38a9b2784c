-- ===== src/HttpProbe/Plugin.antt =====
-- pkg/plugins/http_probe/plugin.go: Init, Status and the loop of one endpoint's goroutine.
pub mod Defaults
use kidecar.Base.{
  String, Bool, true, false, Option, none, some, List, [], ◌∷◌, str_eq, if◌then◌else◌,
}
use kidecar.Base.Int.{ℤ, pos, is_positive}
use kidecar.Base.Outcome.{Outcome, ok, err, panic, msg, nil_pointer}
use kidecar.Base.Exec.{Exec, pure, attempt, ◌>>=◌, ◌>>◌}
use kidecar.Api.Sidecar.{PluginStatus}
use kidecar.Store.Factory.{Factory, StoreState, new_storage_factory}
use kidecar.HttpProbe.Config.{EndpointConfig, HttpProbeConfig}
use kidecar.HttpProbe.Health.{HttpProbeStatus, new_status, get_status}
use kidecar.HttpProbe.Executor.{Libraries, probe}

abbrev pub plugin_name : String
plugin_name = "http_probe"

-- The fields of `httpProber`; `status` is nil before Init.
pub record HttpProber : Type 0 where
  pub config : HttpProbeConfig
  pub factory : Factory
  pub status : Option HttpProbeStatus

-- The `interface{}` of Init.
pub data InitConfig : Type 0 where
  http_probe_config : Option HttpProbeConfig → InitConfig
  other_config : InitConfig

or_default : ℤ → ℤ → ℤ
or_default n default = if is_positive n then n else default

with_defaults : HttpProbeConfig → HttpProbeConfig
unfolding or_default
with_defaults c = record c {
  probe_interval_seconds = or_default c.probe_interval_seconds (pos 5);
  start_delay_seconds = or_default c.start_delay_seconds (pos 30);
}

unfoldable pub init : InitConfig → HttpProber → Outcome HttpProber
unfolding with_defaults
init other_config h = err (msg "invalid config type")
init (http_probe_config none) h = panic nil_pointer
init (http_probe_config (some c)) h =
    ok
      (record { config = with_defaults c; factory = new_storage_factory; status = some new_status })

plugin_status : String → PluginStatus
plugin_status text = record {
  name = plugin_name;
  version = "";
  running = str_eq text "Running";
  last_checked = "";
  health = text;
  infos = [];
}

-- Status: a nil status pointer is read through.
unfoldable pub status : HttpProber → Outcome PluginStatus
unfolding plugin_status
status h = elim h.status [ none ↦ panic nil_pointer | some s ↦ ok (plugin_status (get_status s)) ]

module _ {W F B J : Type 0} (lib : Libraries W F B J)
    -- retry.OnError with its default backoff, for every error
    (retry_on_error : Exec (StoreState W) (Unit {0}) → Exec (StoreState W) (Unit {0})) where
  -- A round of the loop; a failure is logged.
  probe_round : EndpointConfig → Exec (StoreState W) (Unit {0})
  unfolding probe
  probe_round config = do logged ← attempt (retry_on_error (probe lib config)); pure tt

  -- probeAndStore, for what its context is found to be at the head of each round: done or not. The
  -- answer is whether it has returned.
  probe_and_store : EndpointConfig → List Bool → Exec (StoreState W) Bool
  unfolding probe_round
  probe_and_store config [] = pure false
  probe_and_store config (true ∷ checks) = pure true
  probe_and_store config (false ∷ checks) = probe_round config >> probe_and_store config checks
