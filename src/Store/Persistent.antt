-- ===== src/Store/Persistent.antt =====
-- pkg/store/persistent.go: what a pod has loaded, kept in one configmap for all pods, as a YAML text
-- under each pod's key.
pub mod Put
pub mod Text
pub mod RoundTrip
use kidecar.Base.{String, Option, none, some, [], ◌∷◌, str_eq, if◌then◌else◌}
use kidecar.Base.Maps.{Entries, GoMap, entries, find, lookup, insert, put_all}
use kidecar.Base.Outcome.{Outcome, and_then, or_wrapped, ok, err, panic, msg, wrap, nil_map}
use kidecar.Base.Exec.{Exec, pure, fail, lift, wrapping, ◌>>=◌}
use kidecar.Kube.{ConfigMap}
use kidecar.Process.{Environ, Process, KubeInterface, on_api}
use kidecar.Info.{get_current_pod_info, get_configmap, update_configmap}

-- map[string]map[string]string: results by their type, each a map from versions to URLs.
abbrev pub Results : Type 0
Results = GoMap (GoMap String)

-- yaml.v3: `unmarshal` decodes a text into a map that may hold entries already.
pub record Yaml : Type 0 where
  pub unmarshal : String → Results → Outcome Results
  pub marshal : Results → Outcome String

pub record PersistentConfig : Type 0 where
  pub type : String
  pub result : GoMap String

-- pkg/constants/constants.go
abbrev pub result_configmap_name : String
result_configmap_name = "sidecar-result"

abbrev pub result_configmap_namespace : String
result_configmap_namespace = "kube-system"

-- The entry of one type; a missing entry reads as a nil map.
abbrev pub or_nil : Option (GoMap String) → GoMap String
or_nil none = none
or_nil (some m) = m

-- The text of a pod in the configmap, decoded into an empty map.
unfoldable pub decode : Yaml → Option String → Outcome Results
decode yaml none = ok (some [])
decode yaml (some text) = yaml.unmarshal text (some [])

-- if _, ok := persistentInfo[type]; !ok { persistentInfo[type] = make(...) }
unfoldable pub ensure_type : String → Results → Outcome Results
unfolding lookup insert
ensure_type type none = panic nil_map
ensure_type type (some m) = elim (lookup type m) [
  | some r ↦ ok (some m)
  | none ↦ ok (some (insert type (some []) m))
]

-- persistentInfo[type][k] = v
put_inner :
    String → String → String → Entries (GoMap String) → Option (GoMap String) → Outcome Results
unfolding insert
put_inner type k v m (some (some inner)) = ok (some (insert type (some (insert k v inner)) m))
put_inner type k v m (some none) = panic nil_map
put_inner type k v m none = panic nil_map

put_result : String → String → String → Results → Outcome Results
unfolding put_inner lookup
put_result type k v none = panic nil_map
put_result type k v (some m) = put_inner type k v m (lookup type m)

-- for k, v := range p.Result { persistentInfo[p.Type][k] = v }
unfoldable pub put_results : String → Entries String → Results → Outcome Results
unfolding put_result
put_results type [] info = ok info
put_results type ((k, v) ∷ es) info = and_then (put_result type k v info) (put_results type es)

module _ {W : Type 0} (kube : KubeInterface W) (yaml : Yaml) (env : Environ) where
  read_configmap : Exec (Process W) ConfigMap
  unfolding get_configmap
  read_configmap =
      wrapping "failed to get hotupdate configmap sidecar-result/kube-system"
        (on_api (get_configmap kube result_configmap_name result_configmap_namespace))

  pod_key : Exec (Process W) String
  unfolding get_current_pod_info
  pod_key =
      wrapping "failed to get current pod namespace and name" (lift (get_current_pod_info env))

  -- The branch of GetPersistenceInfo for a pod that is in the configmap: `old` is p.Result so far.
  pub own_results : String → String → Outcome (GoMap String)
  own_results type text =
      and_then (or_wrapped "failed to unmarshal hotUpdateInfo" (yaml.unmarshal text (some [])))
        (λ info. elim (find type info) [ some res ↦ ok res | none ↦ ok (some []) ])

  -- The other branch: every pod's results, merged. `persistentInfo` lives across the rounds.
  all_results : String → Entries String → Results → Entries String → Outcome (GoMap String)
  unfolding put_all
  all_results type [] info merged = ok (some merged)
  all_results type ((pod, text) ∷ rest) info merged =
      and_then (or_wrapped "failed to unmarshal hotUpdateInfo" (yaml.unmarshal text info))
        (λ info'. all_results type rest info' (put_all (entries (or_nil (find type info'))) merged))

  results_of : String → Entries String → Option String → Outcome (GoMap String)
  unfolding own_results all_results
  results_of type contents (some text) = own_results type text
  results_of type contents none = all_results type contents (some []) []

  -- The results are read into p.Result; on an error the caller drops p.
  get_checked : PersistentConfig → Exec (Process W) PersistentConfig
  unfolding read_configmap pod_key results_of lookup
  get_checked p = do
    cm ← read_configmap
    key ← pod_key
    res ← lift (results_of p.type (entries cm.contents) (lookup key (entries cm.contents)))
    pure (record p { result = res })

  -- PersistentConfig.GetPersistenceInfo, with the configuration that `p` points to afterwards
  unfoldable pub get_persistence_info : Option PersistentConfig → Exec (Process W) PersistentConfig
  unfolding get_checked
  get_persistence_info none = fail (msg "persistent config is nil")
  get_persistence_info (some p) =
      if str_eq p.type "" then fail (msg "persistent config type is invalid") else get_checked p

  -- The text that SetPersistenceInfo puts under the pod's key.
  pub new_text : PersistentConfig → Option String → Outcome String
  unfolding decode ensure_type put_results
  new_text p old =
      and_then (or_wrapped "failed to unmarshal hotUpdateInfo" (decode yaml old)) (λ info.
        and_then (ensure_type p.type info) (λ typed.
          and_then (put_results p.type (entries p.result) typed)
            (λ full. or_wrapped "failed to marshal hotUpdateInfo" (yaml.marshal full))))

  set_checked : PersistentConfig → Exec (Process W) (Unit {0})
  unfolding read_configmap pod_key new_text update_configmap lookup insert
  set_checked p = do
    cm ← read_configmap
    key ← pod_key
    text ← lift (new_text p (lookup key (entries cm.contents)))
    wrapping "failed to update hotupdate configmap sidecar-result/kube-system" (
        on_api (
          update_configmap kube
            (record cm { contents = some (insert key text (entries cm.contents)) })))

  -- PersistentConfig.SetPersistenceInfo
  unfoldable pub set_persistence_info : Option PersistentConfig → Exec (Process W) (Unit {0})
  unfolding set_checked
  set_persistence_info none = fail (msg "persistent config is invalid")
  set_persistence_info (some p) =
      if str_eq p.type "" then fail (msg "persistent config is invalid") else set_checked p
