-- ===== src/Store/InKube.antt =====
-- pkg/store/in_kube.go: results as annotations and labels of the current pod and of another object.
pub mod Escape
pub mod Patch
use Prim.Native.Char.{code}
use Prim.Native.String.{◌++◌ as str_append}
use kidecar.Base.{String, Option, none, some, List, [], ◌∷◌, ◌++◌, eqb, if◌then◌else◌, is_empty}
use kidecar.Base.Maps.{Entries, GoMap, entries, insert, put_all}
use kidecar.Base.Outcome.{Outcome, ok, err, msg, wrap, panic}
use kidecar.Base.Exec.{Exec, pure, wrapping, ◌>>=◌, ◌>>◌}
use kidecar.Process.{Environ, Process, KubeInterface, MetadataPatch, Operation, on_api}
use kidecar.Info.{get_current_pod}
use kidecar.Store.Config.{
  TargetKubeObject, InKubeConfig, AnyConfig, in_kube_config, http_metric_config, ProbeMarkerPolicy,
  in_kube_is_valid, preprocess, get_policy_of_state, to_gvr,
}

-- rfc6901Encoder: "~" becomes "~0", "/" becomes "~1"
unfoldable pub rfc6901_encode : String → String
rfc6901_encode String.[] = ""
rfc6901_encode (String.◌∷◌ c s) =
    let rest = rfc6901_encode s in
    if eqb (code c) b'~'
    then String.◌∷◌ "~" (String.◌∷◌ "0" rest)
    else if eqb (code c) b'/'
    then String.◌∷◌ "~" (String.◌∷◌ "1" rest)
    else String.◌∷◌ c rest

-- if k != nil { m[*k] = v }
set_key : Option String → String → Entries String → Entries String
unfolding insert
set_key none v m = m
set_key (some k) v m = insert k v m

unfoldable pub policy_annotations : Option ProbeMarkerPolicy → Entries String
policy_annotations none = []
policy_annotations (some p) = entries p.annotations

unfoldable pub policy_labels : Option ProbeMarkerPolicy → Entries String
policy_labels none = []
policy_labels (some p) = entries p.labels

-- if len(m) > 0 { metadata[...] = m }
if_any : Entries String → GoMap String
if_any [] = none
if_any (e ∷ m) = some (e ∷ m)

-- The body of the patch that storeInCurrentPod sends.
unfoldable pub patch_data : String → InKubeConfig → MetadataPatch
unfolding set_key policy_annotations policy_labels if_any put_all get_policy_of_state
patch_data text c =
    let policy = get_policy_of_state c text in
    record {
      annotations = if_any (put_all (policy_annotations policy) (set_key c.annotation_key text []));
      labels = if_any (put_all (policy_labels policy) (set_key c.label_key text []));
    }

replace_op : String → String → String → Operation
unfolding rfc6901_encode
replace_op prefix key value = record {
  op = "replace";
  path = str_append prefix (rfc6901_encode key);
  value = value;
}

key_op : String → Option String → String → List Operation
unfolding replace_op
key_op prefix none value = []
key_op prefix (some k) value = replace_op prefix k value ∷ []

range_ops : String → Entries String → List Operation
unfolding replace_op
range_ops prefix [] = []
range_ops prefix ((k, v) ∷ m) = replace_op prefix k v ∷ range_ops prefix m

abbrev pub annotations_prefix : String
annotations_prefix = "/metadata/annotations/"

abbrev pub labels_prefix : String
labels_prefix = "/metadata/labels/"

unfoldable pub generate_patch : String → InKubeConfig → List Operation
unfolding key_op range_ops policy_annotations policy_labels get_policy_of_state
generate_patch text c =
    let policy = get_policy_of_state c text in
    key_op annotations_prefix c.annotation_key text
    ++ (key_op labels_prefix c.label_key text
        ++ (range_ops annotations_prefix (policy_annotations policy)
            ++ range_ops labels_prefix (policy_labels policy)))

module _ {W : Type 0} (kube : KubeInterface W) (env : Environ) where
  unfoldable pub store_in_current_pod : String → InKubeConfig → Exec (Process W) (Unit {0})
  unfolding get_current_pod patch_data
  store_in_current_pod text c = do
    pod ← wrapping "failed to get current pod" (get_current_pod kube env)
    wrapping "failed to patch pod after mant retries" (
        on_api (kube.retry_on_conflict (kube.patch_pod pod.namespace pod.name (patch_data text c))))

  send_patch : TargetKubeObject → String → InKubeConfig → Exec (Process W) (Unit {0})
  unfolding generate_patch to_gvr
  send_patch target text c = wrapping "failed to patch inKube" (
      on_api
        (kube.patch_resource (to_gvr target) target.namespace target.name (generate_patch text c)))

  with_target : Option TargetKubeObject → String → InKubeConfig → Exec (Process W) (Unit {0})
  unfolding send_patch
  with_target none text c = pure tt
  with_target (some target) text c =
      if is_empty c.marker_polices then pure tt else send_patch target text c

  unfoldable pub store_in_other_object : String → InKubeConfig → Exec (Process W) (Unit {0})
  unfolding with_target
  store_in_other_object text c = with_target c.target text c

  store_both : String → InKubeConfig → Exec (Process W) (Unit {0})
  unfolding store_in_current_pod store_in_other_object
  store_both text c = do
    wrapping "failed to store in current pod" (store_in_current_pod text c)
    store_in_other_object text c

  with_config :
      InKubeConfig → Outcome (Unit {0}) × Process W → Outcome (Unit {0}) × (Process W × AnyConfig)
  with_config c (r, s) = (r, (s, in_kube_config (some c)))

  after_check :
      Outcome (Unit {0})
      → String
      → InKubeConfig
      → Process W
      → Outcome (Unit {0}) × (Process W × AnyConfig)
  unfolding store_both with_config preprocess
  after_check (ok u) text c s = with_config (preprocess c) (store_both text (preprocess c) s)
  after_check (err e) text c s = (err (wrap "invalid config" e), (s, in_kube_config (some c)))
  after_check (panic p) text c s = (panic p, (s, in_kube_config (some c)))

  -- inKube.Store. The configuration is behind a pointer and Preprocess changes it in place, so it
  -- is a part of the state.
  unfoldable pub in_kube_store : String → Exec (Process W × AnyConfig) (Unit {0})
  unfolding after_check in_kube_is_valid
  in_kube_store text (s, in_kube_config (some c)) = after_check (in_kube_is_valid c) text c s
  in_kube_store text (s, in_kube_config none) =
      (err (msg "invalid in kube config type"), (s, in_kube_config none))
  in_kube_store text (s, http_metric_config c) =
      (err (msg "invalid in kube config type"), (s, http_metric_config c))
