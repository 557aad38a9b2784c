-- ===== src/Store/Config.antt =====
-- pkg/store/config.go: the configuration of a store, its checks and the table of marker policies.
pub mod Policies
pub mod Checks
use kidecar.Base.{
  String, Bool, true, ◌&&◌, not, Option, none, some, List, [], ◌∷◌, str_eq, if◌then◌else◌, is_some,
  is_empty,
}
use kidecar.Base.Maps.{Entries, GoMap, entries, lookup, insert}
use kidecar.Base.Outcome.{Outcome, ok, err, msg, wrap}
use kidecar.Process.{Gvr}

pub record ProbeMarkerPolicy : Type 0 where
  pub state : String
  pub labels : GoMap String
  pub annotations : GoMap String

pub record TargetKubeObject : Type 0 where
  pub group : String
  pub version : String
  pub resource : String
  pub namespace : String
  pub name : String
  pub pod_owner : Bool

pub record InKubeConfig : Type 0 where
  pub target : Option TargetKubeObject
  pub json_path : Option String
  pub annotation_key : Option String
  pub label_key : Option String
  pub marker_polices : List ProbeMarkerPolicy
  pub policy_map : GoMap ProbeMarkerPolicy
  pub preprocessd : Bool

pub record HttpMetricConfig : Type 0 where
  pub metric_name : String

abbrev pub type_in_kube : String
type_in_kube = "InKube"

abbrev pub type_http_metric : String
type_http_metric = "HTTPMetric"

pub record StorageConfig : Type 0 where
  pub type : String
  pub in_kube : Option InKubeConfig
  pub http_metric : Option HttpMetricConfig

-- What `Storage.Store` takes as an `interface{}`: one of the two pointers of a StorageConfig.
pub data AnyConfig : Type 0 where
  in_kube_config : Option InKubeConfig → AnyConfig
  http_metric_config : Option HttpMetricConfig → AnyConfig

-- TargetKubeObject.IsValid
unfoldable pub target_is_valid : TargetKubeObject → Outcome (Unit {0})
target_is_valid t =
    if str_eq t.version ""
    then err (msg "invalid version")
    else if str_eq t.resource ""
    then err (msg "invalid resource")
    else if str_eq t.name ""
    then err (msg "invalid name")
    else ok tt

-- TargetKubeObject.ToGvr
unfoldable pub to_gvr : TargetKubeObject → Gvr
to_gvr t = record { group = t.group; version = t.version; resource = t.resource }

unfoldable pub check_target : Option TargetKubeObject → Outcome (Unit {0})
unfolding target_is_valid
check_target none = ok tt
check_target (some t) = target_is_valid t

unfoldable pub check_keys : InKubeConfig → Outcome (Unit {0})
check_keys c =
    if not (is_some c.json_path)
      && not (is_some c.annotation_key)
      && not (is_some c.label_key)
      && is_empty c.marker_polices
    then err (msg "invalid annotationKey or labelKey or markerPolices")
    else ok tt

after_target : Outcome (Unit {0}) → InKubeConfig → Outcome (Unit {0})
unfolding check_keys
after_target (ok u) c = check_keys c
after_target (err e) c = err (wrap "invalid target" e)
after_target (Outcome.panic p) c = Outcome.panic p

-- InKubeConfig.IsValid
unfoldable pub in_kube_is_valid : InKubeConfig → Outcome (Unit {0})
unfolding check_target after_target
in_kube_is_valid c = after_target (check_target c.target) c

-- The loop of buildPolicyMap.
unfoldable pub add_policies :
    List ProbeMarkerPolicy → Entries ProbeMarkerPolicy → Entries ProbeMarkerPolicy
unfolding insert
add_policies [] m = m
add_policies (policy ∷ rest) m = add_policies rest (insert policy.state policy m)

unfoldable pub build_policy_map : InKubeConfig → InKubeConfig
unfolding add_policies
build_policy_map c =
    if is_empty c.marker_polices
    then c
    else if c.preprocessd
    then c
    else record c { policy_map = some (add_policies c.marker_polices []) }

unfoldable pub preprocess : InKubeConfig → InKubeConfig
unfolding build_policy_map
preprocess c = if c.preprocessd then c else record (build_policy_map c) { preprocessd = true }

unfoldable pub get_policy_of_state : InKubeConfig → String → Option ProbeMarkerPolicy
unfolding lookup
get_policy_of_state c state =
    if is_empty (entries c.policy_map) then none else lookup state (entries c.policy_map)
