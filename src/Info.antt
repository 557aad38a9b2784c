-- ===== src/Info.antt =====
-- pkg/info/pod.go and pkg/info/configmap.go: who the sidecar is, and what it reads about itself.
pub mod Cache
pub mod Names
use Prim.Native.String.{◌++◌ as str_append}
use kidecar.Base.{String, Bool, true, false, ◌||◌, Option, none, some, str_eq, if◌then◌else◌}
use kidecar.Base.Maps.{lookup, insert, without, or_else}
use kidecar.Base.Outcome.{Outcome, ok, err, msg}
use kidecar.Base.Exec.{Exec, pure, lift, gets, modify, ◌>>=◌, ◌>>◌}
use kidecar.Kube.{Pod, ConfigMap}
use kidecar.Process.{Environ, Process, NamespacedName, KubeInterface, on_api}

abbrev or_empty : Option String → String
or_empty none = ""
or_empty (some v) = v

-- os.Getenv
unfoldable pub getenv : Environ → String → String
unfolding lookup
getenv env k = or_empty (lookup k env)

unfoldable pub get_current_pod_namespace_and_name : Environ → Outcome NamespacedName
unfolding getenv
get_current_pod_namespace_and_name env =
    let ns = getenv env "POD_NAMESPACE" in
    let name = getenv env "POD_NAME" in
    if str_eq ns "" || str_eq name ""
    then err (msg "failed to get current pod namespace and name")
    else ok (record { namespace = ns; name = name })

unfoldable pub get_current_pod_info : Environ → Outcome String
unfolding getenv
get_current_pod_info env =
    let ns = getenv env "POD_NAMESPACE" in
    let name = getenv env "POD_NAME" in
    if str_eq ns "" || str_eq name ""
    then err (msg "failed to get current pod namespace and name")
    else ok (str_append ns (str_append "-" name))

module _ {W : Type 0} (kube : KubeInterface W) where
  fetch : NamespacedName → Exec (Process W) Pod
  unfolding insert
  fetch nsname = do
    pod ← on_api (kube.get_pod nsname.namespace nsname.name)
    modify (λ s. record s { cache = insert (kube.name_string nsname) pod s.cache })
    pure pod

  or_fetch : NamespacedName → Option Pod → Exec (Process W) Pod
  unfolding fetch
  or_fetch nsname (some pod) = pure pod
  or_fetch nsname none = fetch nsname

  pod_of : NamespacedName → Exec (Process W) Pod
  unfolding or_fetch lookup
  pod_of nsname = do
    cached ← gets (λ s. lookup (kube.name_string nsname) s.cache)
    or_fetch nsname cached

  unfoldable pub get_current_pod : Environ → Exec (Process W) Pod
  unfolding get_current_pod_namespace_and_name pod_of
  get_current_pod env = do nsname ← lift (get_current_pod_namespace_and_name env); pod_of nsname

  -- What `time.AfterFunc` runs a minute after the entry was made.
  unfoldable pub expire : NamespacedName → Process W → Process W
  unfolding without
  expire nsname s = record s { cache = without (kube.name_string nsname) s.cache }

  unfoldable pub get_configmap : String → String → Exec W ConfigMap
  get_configmap name namespace = kube.get_configmap namespace name

  unfoldable pub update_configmap : ConfigMap → Exec W (Unit {0})
  update_configmap cm = kube.update_configmap cm
