-- ===== src/Process.antt =====
-- What the sidecar process shares: the variables of pkg/info/pod.go, the patterns that
-- `http.Handle` has registered, and the API server that it talks to through client-go.
use kidecar.Base.{◌≡◌, ap, String, List}
use kidecar.Base.Maps.{Entries, GoMap}
use kidecar.Base.Outcome.{Outcome, ok}
use kidecar.Base.Exec.{Exec}
use kidecar.Kube.{Pod, ConfigMap}

-- The strategic merge patch of a pod's metadata; a key that was not set is `none`.
pub record MetadataPatch : Type 0 where
  pub annotations : GoMap String
  pub labels : GoMap String

-- jsonpatch.JsonPatchOperation
pub record Operation : Type 0 where
  pub op : String
  pub path : String
  pub value : String

-- schema.GroupVersionResource
pub record Gvr : Type 0 where
  pub group : String
  pub version : String
  pub resource : String

-- types.NamespacedName
pub record NamespacedName : Type 0 where
  pub namespace : String
  pub name : String

-- The client-go library, over the states `W` of the API server. Every call may change the state:
-- others act on the server between two calls of this process.
pub record KubeInterface (W : Type 0) : Type 0 where
  pub get_pod : String → String → Exec W Pod
  pub patch_pod : String → String → MetadataPatch → Exec W (Unit {0})
  pub get_configmap : String → String → Exec W ConfigMap
  pub update_configmap : ConfigMap → Exec W (Unit {0})
  pub patch_resource : Gvr → String → String → List Operation → Exec W (Unit {0})
  -- dynamic.NewForConfig, at the manager's configuration
  pub new_dynamic : Outcome (Unit {0})
  -- NamespacedName.String
  pub name_string : NamespacedName → String
  pub retry_on_conflict : Exec W (Unit {0}) → Exec W (Unit {0})

-- os.LookupEnv; the environment does not change while the process runs
abbrev pub Environ : Type 0
Environ = Entries String

pub record Process (W : Type 0) : Type 0 where
  -- var cache
  pub cache : Entries Pod
  pub handlers : List String
  pub api : W

-- A call of the API server.
abbrev pub on_api : {W A : Type 0} → Exec W A → Exec (Process W) A
on_api {W} {A} m s = put_back (m s.api)
  where
    put_back : Outcome A × W → Outcome A × Process W
    put_back (r, w) = (r, record s { api = w })

pub on_api-ok :
    {W A : Type 0} (x : Outcome A × W) (a : A) (s s' : Process W)
    → on_api (λ _. x) s ≡ (ok a, s')
    → x ≡ (ok a, s'.api)
on_api-ok (r, w) a s s' h = cc (ap (λ y. y.0) h, ap (λ y. y.1.api) h)
