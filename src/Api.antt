-- ===== src/Api.antt =====
-- api/v1alpha1/sidecarconfig_types.go: the SidecarConfig resource that a user writes.
pub mod Sidecar
use kidecar.Base.{ℕ, String, Bool, Option, List}
use kidecar.Base.Maps.{GoMap}
use kidecar.Kube.{Container, Volume, VolumeMount, LabelSelector}

pub record InjectConfig : Type 0 where
  pub selector : Option LabelSelector
  pub inject_kidecar : Bool
  pub use_kube_native_sidecar : Bool
  pub namespace : String
  pub namespace_selector : Option LabelSelector
  pub init_containers : List Container
  pub containers : List Container
  pub volumes : List Volume
  pub volume_mounts : List VolumeMount
  pub force_inject_service_account : Option Bool
  pub service_account_name : String
  pub share_process_namespace : Option Bool

pub record Binary : Type 0 where
  pub path : String
  pub version : String
  pub checksum : String
  pub args : List String
  pub env : List String
  pub dependencies : List String
  pub permissions : String
  pub description : String
  pub download_url : String

-- `config` is a `*runtime.RawExtension`: the bytes of a JSON text, or nil.
pub record PluginConfig : Type 0 where
  pub name : String
  pub config : Option String
  pub binary : Option Binary
  pub boot_order : ℕ

pub record KidecarConfig : Type 0 where
  pub plugins : List PluginConfig
  pub restart_policy : String
  pub resources : GoMap String
  pub sidecar_start_order : String

pub record SidecarConfigSpec : Type 0 where
  pub injection : InjectConfig
  pub kidecar : KidecarConfig

-- Four `int32` counters, as their 32 bits.
pub record SidecarConfigStatus : Type 0 where
  pub matched_pods : ℕ
  pub updated_pods : ℕ
  pub ready_pods : ℕ
  pub updated_ready_pods : ℕ

pub record SidecarConfig : Type 0 where
  pub name : String
  pub namespace : String
  pub annotations : GoMap String
  pub spec : SidecarConfigSpec
  pub status : SidecarConfigStatus
