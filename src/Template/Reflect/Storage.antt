-- ===== src/Template/Reflect/Storage.antt =====
-- The structures of pkg/store/config.go, as the reflect library shows them to ParseConfig.
pub mod Walks
use kidecar.Base.{String, Bool, true, false, Option, none, some, List, ◌≡◌, refl, ap, ◌∙◌, inl, inr}
use kidecar.Base.Maps.{GoMap}
use kidecar.Base.Outcome.{Outcome, ok, err, panic, or_wrapped, Outcome-cases}
use kidecar.Base.Exec.{Exec, wrap_end, continue, with_second}
use kidecar.Kube.{Pod}
use kidecar.Process.{Environ, Process, KubeInterface}
use kidecar.Info.{get_current_pod}
use kidecar.Store.Config.{
  TargetKubeObject, InKubeConfig, StorageConfig, HttpMetricConfig, ProbeMarkerPolicy,
}
use kidecar.Template.{
  expression_replace_value, this_pod, parse_target, put_target, walk_target, parse_in_kube,
  put_in_kube, walk_in_kube, walk_http_metric, replace_target, replace_in_kube, replace_storage,
}
use kidecar.Template
use kidecar.Template.Reflect
use kidecar.Template.Reflect.{
  is_tagged, put_string, put_struct, put_pointer, put_rest, then_rest, walked_if, with_pod,
  current_pod, parse_string, parse_fields, parse_value, parse_pointee, with_pod_value, parse_elem,
  parse_given,
}
use kidecar.Template.Reflect.Values.{
  StructField, Value, string, struct, pointer, nil_pointer, other, Fields, end, field,
}

-- The values of the configuration that are no text and no structure.
pub data Plain : Type 0 where
  flag : Bool → Plain
  policies : List ProbeMarkerPolicy → Plain
  policies_by_state : GoMap ProbeMarkerPolicy → Plain

abbrev pub plain_field : String → StructField
plain_field name = record { name = name; exported = true; parse = none }

abbrev pub parsed_field : String → StructField
parsed_field name = record { name = name; exported = true; parse = some "true" }

abbrev pub inner_field : String → StructField
inner_field name = record { name = name; exported = false; parse = none }

abbrev pub target_fields : TargetKubeObject → Fields Plain
target_fields t = field (plain_field "Group") (string t.group) (
    field (plain_field "Version") (string t.version) (
      field (plain_field "Resource") (string t.resource) (
        field (parsed_field "Namespace") (string t.namespace) (
          field (parsed_field "Name") (string t.name)
            (field (plain_field "PodOwner") (other (flag t.pod_owner)) end)))))

abbrev pub text_pointer : Option String → Value Plain
text_pointer none = nil_pointer
text_pointer (some s) = pointer (string s)

abbrev pub target_pointer : Option TargetKubeObject → Value Plain
target_pointer none = nil_pointer
target_pointer (some t) = pointer (struct (target_fields t))

-- The fields of InKubeConfig behind the first.
abbrev pub key_fields : InKubeConfig → Fields Plain
key_fields c = field (plain_field "JsonPath") (text_pointer c.json_path) (
    field (plain_field "AnnotationKey") (text_pointer c.annotation_key) (
      field (plain_field "LabelKey") (text_pointer c.label_key) (
        field (plain_field "MarkerPolices") (other (policies c.marker_polices)) (
          field (inner_field "policyMap") (other (policies_by_state c.policy_map))
            (field (inner_field "preprocessd") (other (flag c.preprocessd)) end)))))

abbrev pub in_kube_fields : InKubeConfig → Fields Plain
in_kube_fields c = field (plain_field "Target") (target_pointer c.target) (key_fields c)

abbrev pub in_kube_pointer : Option InKubeConfig → Value Plain
in_kube_pointer none = nil_pointer
in_kube_pointer (some c) = pointer (struct (in_kube_fields c))

abbrev pub http_metric_pointer : Option HttpMetricConfig → Value Plain
http_metric_pointer none = nil_pointer
http_metric_pointer (some m) =
    pointer (struct (field (plain_field "MetricName") (string m.metric_name) end))

abbrev pub metric_fields : Option HttpMetricConfig → Fields Plain
metric_fields o = field (plain_field "HTTPMetric") (http_metric_pointer o) end

abbrev pub storage_fields : StorageConfig → Fields Plain
storage_fields c =
    field (plain_field "Type") (string c.type)
      (field (plain_field "InKube") (in_kube_pointer c.in_kube) (metric_fields c.http_metric))
