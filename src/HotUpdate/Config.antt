-- ===== src/HotUpdate/Config.antt =====
-- The types of pkg/plugins/hot_update/plugin.go, the constants and `validateConfig` of help.go.
pub mod Valid
use kidecar.Base.{ℕ, String, ◌&&◌, not, str_eq, eqb, if◌then◌else◌}
use kidecar.Base.Outcome.{Outcome, ok, err, msg}
use kidecar.Store.Config.{StorageConfig}

pub record HotUpdateResult : Type 0 where
  pub result : String
  pub version : String
  pub url : String

pub record Signal : Type 0 where
  pub signal_name : String
  pub process_name : String

-- `port` is an `int`; only its being 0 is looked at.
pub record Request : Type 0 where
  pub address : String
  pub port : ℕ

pub record HotUpdateConfig : Type 0 where
  pub load_patch_type : String
  pub signal : Signal
  pub request : Request
  pub file_dir : String
  pub storage_config : StorageConfig

abbrev pub plugin_name : String
plugin_name = "hot_update"

abbrev pub url_key : String
url_key = "url"

abbrev pub load_by_signal_type : String
load_by_signal_type = "signal"

abbrev pub load_by_request_type : String
load_by_request_type = "request"

abbrev pub origin_version : String
origin_version = "OriginVersion"

abbrev pub origin_url : String
origin_url = "OriginUrl"

check_dir : HotUpdateConfig → Outcome (Unit {0})
check_dir c = if str_eq c.file_dir "" then err (msg "fileDir is empty") else ok tt

check_request : HotUpdateConfig → Outcome (Unit {0})
unfolding check_dir
check_request c =
    if str_eq c.load_patch_type load_by_request_type
    then (if str_eq c.request.address ""
        then err (msg "address is empty")
        else if eqb c.request.port 0
        then err (msg "port is empty")
        else check_dir c)
    else check_dir c

unfoldable pub validate_config : HotUpdateConfig → Outcome (Unit {0})
unfolding check_request
validate_config c =
    if not (str_eq c.load_patch_type load_by_request_type)
      && not (str_eq c.load_patch_type load_by_signal_type)
    then err (msg "loadPatchType is empty")
    else if str_eq c.load_patch_type load_by_signal_type
    then (if str_eq c.signal.signal_name ""
        then err (msg "SignalName is empty")
        else check_request c)
    else check_request c
