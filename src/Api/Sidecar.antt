-- ===== src/Api/Sidecar.antt =====
-- api/types.go: the configuration file of a running sidecar, and the status of a plugin.
use kidecar.Base.{ℕ, String, Bool, Option, List}
use kidecar.Base.Maps.{GoMap}
use kidecar.Api.{Binary}

-- `config` is an `interface{}`: nil, or an object `J` of the JSON and YAML libraries.
pub record PluginConfig (J : Type 0) : Type 0 where
  pub name : String
  pub binary : Option Binary
  pub config : Option J
  pub boot_order : ℕ

pub record SidecarConfig (J : Type 0) : Type 0 where
  pub plugins : List (PluginConfig J)
  pub restart_policy : String
  pub resources : GoMap String
  pub sidecar_start_order : String

pub record PluginStatus : Type 0 where
  pub name : String
  pub version : String
  pub running : Bool
  pub last_checked : String
  pub health : String
  pub infos : List String
