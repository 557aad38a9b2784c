-- ===== src/HttpProbe/Config.antt =====
-- pkg/plugins/http_probe/config.go, and JSONPathConfig of pkg/store/config.go.
use kidecar.Base.{ℕ, String, Option, List}
use kidecar.Base.Int.{ℤ}
use kidecar.Base.Maps.{GoMap}
use kidecar.Store.Config.{StorageConfig}

pub record JsonPathConfig : Type 0 where
  pub json_path : String
  pub field_type : String

pub record EndpointConfig : Type 0 where
  pub url : String
  pub method : String
  pub headers : GoMap String
  pub timeout : ℤ
  pub expected_status_code : ℕ
  pub storage_config : StorageConfig
  pub json_path_config : Option JsonPathConfig

pub record HttpProbeConfig : Type 0 where
  pub start_delay_seconds : ℤ
  pub endpoints : List EndpointConfig
  pub probe_interval_seconds : ℤ
