-- ===== src/HotUpdate/State.antt =====
-- The plugin object of pkg/plugins/hot_update/plugin.go, what it is given, and its small steps.
use kidecar.Base.{ℕ, String, Bool, Option, none, some, List, ◌∷◌}
use kidecar.Base.Maps.{Entries, lookup}
use kidecar.Base.Outcome.{Outcome}
use kidecar.Base.Exec.{Exec, modify}
use kidecar.Process.{Environ, Process, KubeInterface, on_api}
use kidecar.Store.Metrics.{Prometheus}
use kidecar.Store.Factory.{Factory}
use kidecar.Store.Persistent.{Yaml}
use kidecar.HotUpdate.Config.{HotUpdateConfig, HotUpdateResult}
use kidecar.HotUpdate.Version.{Semver}

-- The host that the plugin runs on, through the packages os, os/exec, path/filepath, net/url, io and
-- net/http. `exists` is `os.Stat(...) == nil`, and `missing` is `os.IsNotExist` of its error.
pub record Host (W : Type 0) : Type 0 where
  pub missing : String → Exec W Bool
  pub exists : String → Exec W Bool
  pub mkdir_all : String → Exec W (Unit {0})
  pub remove : String → Exec W (Unit {0})
  pub create : String → Exec W (Unit {0})
  pub copy : String → String → Exec W (Unit {0})
  pub url_path : String → Outcome String
  pub base : String → String
  pub join : String → String → String
  -- the status code and the body
  pub http_get : String → Exec W (ℕ × String)
  pub ps_aux : Exec W String
  pub kill : String → String → Exec W (Unit {0})
  pub listen_and_serve : String → Exec W (Unit {0})

pub record HttpRequest : Type 0 where
  pub method : String
  pub form : Entries String

-- What the handler has written to its `http.ResponseWriter`.
pub record Response : Type 0 where
  pub codes : List ℕ
  pub body : List String

-- The fields of `hotUpdate` but for the status, which nothing of executor.go reads or writes, its
-- process, and the response that it is writing. They are filled by Init.
pub record HotUpdate (W : Type 0) : Type 0 where
  pub config : HotUpdateConfig
  pub factory : Factory
  pub result : HotUpdateResult
  pub proc : Process W
  pub response : Response

-- What the plugin is given: the libraries, the host and the environment.
pub record Services (W F : Type 0) : Type 0 where
  pub kube : KubeInterface W
  pub prom : Prometheus W F
  pub yaml : Yaml
  pub semver : Semver
  pub host : Host W
  pub env : Environ

unfoldable pub or_empty : Option String → String
or_empty none = ""
or_empty (some v) = v

-- r.FormValue
unfoldable pub form_value : HttpRequest → String → String
unfolding or_empty lookup
form_value r key = or_empty (lookup key r.form)

module _ {W : Type 0} where
  unfoldable pub on_process : {A : Type 0} → Exec (Process W) A → Exec (HotUpdate W) A
  on_process {A} m h = put_back (m h.proc)
    where
      put_back : Outcome A × Process W → Outcome A × HotUpdate W
      put_back (r, p) = (r, record h { proc = p })

  unfoldable pub on_host : {A : Type 0} → Exec W A → Exec (HotUpdate W) A
  unfolding on_process
  on_host m = on_process (on_api m)

  unfoldable pub reply : ℕ → String → Exec (HotUpdate W) (Unit {0})
  reply code text = modify (λ h. record h {
    response = record { codes = code ∷ h.response.codes; body = text ∷ h.response.body };
  })

  unfoldable pub set_version : String → Exec (HotUpdate W) (Unit {0})
  set_version v = modify (λ h. record h { result = record (h.result) { version = v } })

  unfoldable pub set_url : String → Exec (HotUpdate W) (Unit {0})
  set_url u = modify (λ h. record h { result = record (h.result) { url = u } })

  unfoldable pub set_result : String → Exec (HotUpdate W) (Unit {0})
  set_result t = modify (λ h. record h { result = record (h.result) { result = t } })
