-- ===== src/HttpProbe/Executor.antt =====
-- pkg/plugins/http_probe/executor.go and pkg/extractor/jsonpath.go: one probe of an endpoint.
pub mod Probed
pub mod Panics
use kidecar.Base.{ℕ, String, Bool, Option, none, some, eqb, if◌then◌else◌}
use kidecar.Base.Maps.{Entries, entries}
use kidecar.Base.Outcome.{Outcome, ok, err, panic, msg, bad_type}
use kidecar.Base.Exec.{Exec, pure, fail, lift, wrapping, ◌>>=◌, ◌>>◌}
use kidecar.Process.{Environ, Process, KubeInterface, on_api}
use kidecar.Store.Config.{StorageConfig}
use kidecar.Store.Metrics.{Prometheus}
use kidecar.Store.Factory.{StoreState, store_data}
use kidecar.Template.{parse_config}
use kidecar.HttpProbe.Config.{JsonPathConfig, EndpointConfig}

-- net/http and io: a response is its status code and a body `B` that can still be read. `send` is
-- given the headers that are set in the request.
pub record Web (W B : Type 0) : Type 0 where
  pub new_request : String → String → Outcome (Unit {0})
  pub send : String → String → Entries String → Exec W (ℕ × B)
  pub read_all : B → Exec W String

-- github.com/tidwall/gjson over its values `J`; `as_string` is the assertion that a value is a text.
pub record Gjson (J : Type 0) : Type 0 where
  pub valid : String → Bool
  pub get : String → String → Option J
  pub as_string : J → Option String

-- What the plugin is given.
pub record Libraries (W F B J : Type 0) : Type 0 where
  pub kube : KubeInterface W
  pub prom : Prometheus W F
  pub web : Web W B
  pub gjson : Gjson J
  pub env : Environ

-- The `interface{}` that extractData returns.
pub data Extracted (J : Type 0) : Type 0 where
  text : String → Extracted J
  value : J → Extracted J

found : {J : Type 0} → Option J → Outcome (Extracted J)
found none = err (msg "path not found")
found (some v) = ok (value v)

-- GetDataFromJsonText
get_data_from_json_text : {J : Type 0} → Gjson J → String → String → Outcome (Extracted J)
unfolding found
get_data_from_json_text gjson json path =
    if gjson.valid json then found (gjson.get json path) else err (msg "invalid json")

pub extract_data : {J : Type 0} → Gjson J → String → Option JsonPathConfig → Outcome (Extracted J)
unfolding get_data_from_json_text
extract_data gjson body none = ok (text body)
extract_data gjson body (some config) = get_data_from_json_text gjson body config.json_path

asserted : Option String → Outcome String
asserted (some t) = ok t
asserted none = panic bad_type

-- data.(string)
pub as_text : {J : Type 0} → Gjson J → Extracted J → Outcome String
unfolding asserted
as_text gjson (text t) = ok t
as_text gjson (value v) = asserted (gjson.as_string v)

put_process : {W A : Type 0} → StoreState W → Outcome A × Process W → Outcome A × StoreState W
put_process s (r, p) = (r, record s { proc = p })

on_web : {W A : Type 0} → Exec W A → Exec (StoreState W) A
unfolding put_process
on_web m s = put_process s (on_api m s.proc)

put_parsed :
    {W : Type 0}
    → StoreState W
    → Outcome (Unit {0}) × (Process W × StorageConfig)
    → Outcome (Unit {0}) × StoreState W
put_parsed s (r, (p, c)) = (r, record s { proc = p; config = c })

module _ {W F B J : Type 0} (lib : Libraries W F B J) where
  parse_storage : Exec (StoreState W) (Unit {0})
  unfolding put_parsed parse_config
  parse_storage s = put_parsed s (parse_config lib.kube lib.env (s.proc, s.config))

  -- Executor.storeData
  pub store_text : String → Exec (StoreState W) (Unit {0})
  unfolding parse_storage store_data
  store_text t = do
    wrapping "failed to parse config" parse_storage
    store_data lib.kube lib.prom lib.env t

  check_status : ℕ → ℕ → Exec (StoreState W) (Unit {0})
  check_status code expected =
      if eqb code expected then pure tt else fail (msg "unexpected status code")

  pub extract_and_store : EndpointConfig → String → Exec (StoreState W) (Unit {0})
  unfolding extract_data as_text store_text
  extract_and_store config body = do
    data' ←
        wrapping "failed to extract data"
          (lift (extract_data lib.gjson body config.json_path_config))
    t ← lift (as_text lib.gjson data')
    wrapping "failed to store data" (store_text t)

  pub ask : EndpointConfig → Exec (StoreState W) (ℕ × String)
  unfolding on_web
  ask config = do
    wrapping "failed to create request" (lift (lib.web.new_request config.method config.url))
    answer ←
        wrapping "request failed"
          (on_web (lib.web.send config.method config.url (entries config.headers)))
    body ← wrapping "failed to read response body" (on_web (lib.web.read_all answer.1))
    pure (answer.0, body)

  -- Executor.Probe. The state holds the storage configuration of the endpoint, which the plugin's
  -- copies share through its pointers.
  unfoldable pub probe : EndpointConfig → Exec (StoreState W) (Unit {0})
  unfolding ask check_status extract_and_store
  probe config = do
    answer ← ask config
    check_status answer.0 config.expected_status_code
    extract_and_store config answer.1
