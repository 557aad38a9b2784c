-- ===== src/Assembler/State.antt =====
-- The sidecar of pkg/assembler/mgr.go, its configuration, and the interface of a plugin.
pub mod Load
use Prim.Native.String.{◌++◌ as str_append}
use kidecar.Base.{
  ◌≡◌, String, Bool, true, false, Option, none, some, List, [], ◌∷◌, str_eq, ltb, if◌then◌else◌,
}
use kidecar.Base.Maps.{Entries, lookup}
use kidecar.Base.Outcome.{Outcome, ok, err, msg, and_then, or_wrapped, nil_pointer}
use kidecar.Base.Exec.{Exec, pure, crash, lift, modify, wrapping, ◌>>=◌}
use kidecar.Api.{Binary}
use kidecar.Api.Sidecar.{PluginConfig, SidecarConfig, PluginStatus}

-- api.Plugin, and what mgr.go calls of the packages of the plugins. `H` are the plugins, each a
-- pointer, `P` what they point to and what they run on, `C` the pointers to their configurations, and
-- `M` the manager.
pub record Plugins (P H C M : Type 0) : Type 0 where
  pub name : H → String
  pub get_config_type : H → C
  pub init : H → C → Option M → Exec P (Unit {0})
  pub stop : H → Exec P (Unit {0})
  pub status : H → Exec P PluginStatus
  -- binary.NewPlugin
  pub new_binary : Binary → P → H × P
  -- PluginRegistry of pkg/plugins/registry.go
  pub registry : Entries H

-- What the assembler relies on.
pub record PluginLaws {P H C M : Type 0} (plugins : Plugins P H C M) : Type 0 where
  pub registered : (k : String) (h : H) → lookup k plugins.registry ≡ some h → plugins.name h ≡ k

-- os.ReadFile, and yaml.Unmarshal into a **SidecarConfig: the document `null` makes it nil.
pub record Files (J : Type 0) : Type 0 where
  pub read_file : String → Outcome String
  pub unmarshal : String → Outcome (Option (SidecarConfig J))

-- The fields of `sidecar`, and what its plugins point to. The two maps are never nil.
pub record Sidecar (P H J M : Type 0) : Type 0 where
  pub plugins : Entries H
  pub is_start_web_server : Bool
  pub version : String
  pub plugin_statuses : Entries PluginStatus
  pub config : Option (SidecarConfig J)
  pub manager : Option M
  pub world : P

unfoldable pub present : {A : Type 0} → String → Option A → Outcome A
present t none = err (msg t)
present t (some a) = ok a

module _ {J : Type 0} where
  -- loadConfig and LoadConfig
  read_config : Files J → String → Outcome (Option (SidecarConfig J))
  read_config files path =
      and_then (or_wrapped "failed to read config file" (files.read_file path))
        (λ text. or_wrapped "failed to unmarshal sidecarConfig file" (files.unmarshal text))

  -- getPluginFromConfig
  with_name : String → List (PluginConfig J) → Option (PluginConfig J)
  with_name name [] = none
  with_name name (p ∷ ps) =
      let rest = with_name name ps in if str_eq p.name name then some p else rest

  boots : Option (PluginConfig J) → Bool
  boots none = true
  boots (some p) = ltb 0 p.boot_order

module _ {P H J M : Type 0} where
  unfoldable pub new_sidecar : P → Sidecar P H J M
  new_sidecar p = record {
    plugins = [];
    is_start_web_server = false;
    version = "";
    plugin_statuses = [];
    config = none;
    manager = none;
    world = p;
  }

  unfoldable pub on_plugins : {A : Type 0} → Exec P A → Exec (Sidecar P H J M) A
  on_plugins {A} m s = put_back (m s.world)
    where
      put_back : Outcome A × P → Outcome A × Sidecar P H J M
      put_back (r, p) = (r, record s { world = p })

  unfoldable pub load_config : Files J → String → Exec (Sidecar P H J M) (Unit {0})
  unfolding read_config
  load_config files path = do
    c ←
        wrapping (str_append "failed to load config from path " path)
          (lift (read_config files path))
    modify (λ s. record s { config = c })

  unfoldable pub setup_with_manager : M → Exec (Sidecar P H J M) (Unit {0})
  setup_with_manager m = modify (λ s. record s { manager = some m })

  get_version : Sidecar P H J M → String
  get_version s = s.version

  -- isPluginEnabled, which nothing calls
  is_plugin_enabled : String → Exec (Sidecar P H J M) Bool
  unfolding with_name boots
  is_plugin_enabled name s = elim s.config [
    | none ↦ crash nil_pointer s
    | some c ↦ pure (boots (with_name name c.plugins)) s
  ]
