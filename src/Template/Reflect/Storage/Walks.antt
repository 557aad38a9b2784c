-- ===== src/Template/Reflect/Storage/Walks.antt =====
-- ParseConfig by reflection, at the configuration of a store, and its walks field by field.
use kidecar.Base.{String, Bool, true, false, Option, none, some, ◌≡◌, refl, ap, inl, inr}
use kidecar.Base.Outcome.{Outcome, ok, err, panic, Outcome-cases}
use kidecar.Base.Exec.{Exec, continue, with_second}
use kidecar.Kube.{Pod}
use kidecar.Process.{Environ, Process, KubeInterface}
use kidecar.Store.Config.{TargetKubeObject, InKubeConfig, StorageConfig, HttpMetricConfig}
use kidecar.Template.{
  expression_replace_value, this_pod, parse_target, put_target, walk_target, parse_in_kube,
  put_in_kube, walk_in_kube, walk_http_metric, replace_target, replace_in_kube, replace_storage,
}
use kidecar.Template
use kidecar.Template.Reflect
use kidecar.Template.Reflect.{
  is_tagged, put_string, put_struct, put_pointer, put_rest, then_rest, walked_if, with_pod,
  current_pod, parse_string, parse_fields, parse_value, parse_pointee, with_pod_value, parse_elem,
  parse_given,
}
use kidecar.Template.Reflect.Values.{StructField, string, struct, pointer, Fields, end, field}
use kidecar.Template.Reflect.Storage.{
  Plain, plain_field, target_fields, text_pointer, key_fields, in_kube_fields, in_kube_pointer,
  metric_fields, storage_fields,
}

-- A walk's end, with what it left as the reflect library shows it.
abbrev pub shown :
    {W C V : Type 0}
    → (C → V)
    → Outcome (Unit {0}) × (Process W × C)
    → Outcome (Unit {0}) × (Process W × V)
shown f (r, (p, c)) = (r, (p, f c))

module _ {W : Type 0} (kube : KubeInterface W) (env : Environ) where
  -- The walk over a structure, behind a pointer.
  abbrev struct_walk : Fields Plain → Process W → Outcome (Unit {0}) × (Process W × Fields Plain)
  struct_walk fs p = with_pod fs (λ own. parse_fields kube env true own fs) (current_pod kube env p)

  replace_target-shown :
      (t : TargetKubeObject) (pod : Pod) (p : Process W)
      → parse_fields kube env true pod (target_fields t) p
        ≡ shown target_fields (replace_target kube env pod (p, t))
  unfolding parse_fields replace_target parse_string then_rest put_rest walked_if put_string
      is_tagged
  replace_target-shown t pod p =
      elim (Outcome-cases (expression_replace_value env t.namespace pod)) [
        | inl (a, e) ↦ elim (Outcome-cases (expression_replace_value env t.name pod)) [
          | inl (b, f) ↦ rw (e, f) refl
          | inr (inl (g, f)) ↦ rw (e, f) refl
          | inr (inr (g, f)) ↦ rw (e, f) refl
        ]
        | inr (inl (g, e)) ↦ rw e refl
        | inr (inr (g, e)) ↦ rw e refl
      ]

  with_pod-shown :
      {C : Type 0} (f : C → Fields Plain) (c : C)
      (loop : Pod → Process W → Outcome (Unit {0}) × (Process W × Fields Plain))
      (walk : Pod → Exec (Process W × C) (Unit {0})) (x : Outcome Pod × Process W)
      → ((pod : Pod) (p : Process W) → loop pod p ≡ shown f (walk pod (p, c)))
      → with_pod (f c) loop x ≡ shown f (continue (with_second c x) walk)
  unfolding with_pod
  with_pod-shown f c loop walk (ok pod, p) h = h pod p
  with_pod-shown f c loop walk (err e, p) h = refl
  with_pod-shown f c loop walk (panic g, p) h = refl

  target-walk :
      (t : TargetKubeObject) (p : Process W)
      → struct_walk (target_fields t) p ≡ shown target_fields (parse_target kube env (p, t))
  unfolding parse_target this_pod current_pod
  target-walk t p =
      with_pod-shown target_fields t _ (replace_target kube env) (current_pod kube env p)
        (replace_target-shown t)

  text_pointer-kept :
      (a : Bool) (i : StructField) (pod : Pod) (o : Option String) (p : Process W)
      → parse_value kube env a i pod (text_pointer o) p ≡ (ok tt, (p, text_pointer o))
  unfolding parse_value put_pointer
  text_pointer-kept a i pod none p = refl
  text_pointer-kept a i pod (some s) p = refl

  keys-kept :
      (c : InKubeConfig) (pod : Pod) (p : Process W)
      → parse_fields kube env true pod (key_fields c) p ≡ (ok tt, (p, key_fields c))
  unfolding parse_fields walked_if then_rest put_rest
  keys-kept c pod p =
      rw
        (
          text_pointer-kept true (plain_field "JsonPath") pod c.json_path p,
          text_pointer-kept true (plain_field "AnnotationKey") pod c.annotation_key p,
          text_pointer-kept true (plain_field "LabelKey") pod c.label_key p,
        )
        refl

  put_target-shown :
      (c : InKubeConfig) (pod : Pod) (x : Outcome (Unit {0}) × (Process W × TargetKubeObject))
      → then_rest
          (plain_field "Target")
          (key_fields c)
          (parse_fields kube env true pod (key_fields c))
          (put_pointer (put_struct (shown target_fields x)))
        ≡ shown in_kube_fields (put_target kube env c x)
  unfolding then_rest put_pointer put_struct put_target put_rest
  put_target-shown c pod (ok u, (p, t)) = rw (keys-kept c pod p) refl
  put_target-shown c pod (err e, (p, t)) = refl
  put_target-shown c pod (panic f, (p, t)) = refl

  replace_in_kube-shown :
      (o : Option TargetKubeObject) (c : InKubeConfig) (pod : Pod) (p : Process W)
      → parse_fields kube env true pod (in_kube_fields (record c { target = o })) p
        ≡ shown in_kube_fields (replace_in_kube kube env (p, record c { target = o }))
  unfolding parse_fields replace_in_kube walk_target then_rest walked_if put_rest
  replace_in_kube-shown none c pod p = rw (keys-kept c pod p) refl
  replace_in_kube-shown (some t) c pod p =
      rw (target-walk t p) (put_target-shown c pod (parse_target kube env (p, t)))

  in_kube-walk :
      (c : InKubeConfig) (p : Process W)
      → struct_walk (in_kube_fields c) p ≡ shown in_kube_fields (parse_in_kube kube env (p, c))
  unfolding parse_in_kube this_pod current_pod
  in_kube-walk c p =
      with_pod-shown in_kube_fields c _ (λ pod. replace_in_kube kube env) (current_pod kube env p)
        (replace_in_kube-shown c.target c)

  http_metric-walked :
      (m : HttpMetricConfig) (c : StorageConfig) (x : Outcome Pod × Process W)
      → put_rest (plain_field "Type") (string c.type) (
          put_rest (plain_field "InKube") (in_kube_pointer c.in_kube) (
            then_rest
              (plain_field "HTTPMetric")
              end
              (λ p. (ok tt, (p, end)))
              (put_pointer (
                put_struct (
                  with_pod
                    (field (plain_field "MetricName") (string m.metric_name) end)
                    (λ own.
                      parse_fields kube env true own
                        (field (plain_field "MetricName") (string m.metric_name) end))
                    x)))))
        ≡ shown storage_fields
            (continue (with_second (record c { http_metric = some m }) x) (λ pod s. (ok tt, s)))
  unfolding then_rest put_pointer put_struct with_pod parse_fields walked_if put_rest
  http_metric-walked m c (ok pod, p) = refl
  http_metric-walked m c (err e, p) = refl
  http_metric-walked m c (panic f, p) = refl

  metric_fields-shown :
      (o : Option HttpMetricConfig) (a : Bool) (pod : Pod) (c : StorageConfig) (p : Process W)
      → put_rest (plain_field "Type") (string c.type) (
          put_rest
            (plain_field "InKube")
            (in_kube_pointer c.in_kube)
            (parse_fields kube env a pod (metric_fields o) p))
        ≡ shown storage_fields (walk_http_metric kube env o (p, record c { http_metric = o }))
  unfolding parse_fields walk_http_metric walked_if then_rest put_rest this_pod current_pod
  metric_fields-shown none a pod c p = refl
  metric_fields-shown (some m) a pod c p = http_metric-walked m c (current_pod kube env p)

  put_in_kube-shown :
      (a : Bool) (pod : Pod) (c : StorageConfig)
      (x : Outcome (Unit {0}) × (Process W × InKubeConfig))
      → put_rest (plain_field "Type") (string c.type) (
          then_rest
            (plain_field "InKube")
            (metric_fields c.http_metric)
            (parse_fields kube env a pod (metric_fields c.http_metric))
            (put_pointer (put_struct (shown in_kube_fields x))))
        ≡ shown storage_fields
            (continue (put_in_kube kube env c x) (λ u. walk_http_metric kube env c.http_metric))
  unfolding then_rest put_pointer put_struct put_in_kube put_rest
  put_in_kube-shown a pod c (ok u, (p, k)) =
      metric_fields-shown c.http_metric a pod (record c { in_kube = some k }) p
  put_in_kube-shown a pod c (err e, (p, k)) = refl
  put_in_kube-shown a pod c (panic f, (p, k)) = refl

  replace_storage-shown :
      (o : Option InKubeConfig) (a : Bool) (c : StorageConfig) (pod : Pod) (p : Process W)
      → parse_fields kube env a pod (storage_fields (record c { in_kube = o })) p
        ≡ shown storage_fields (replace_storage kube env (p, record c { in_kube = o }))
  unfolding parse_fields replace_storage walk_in_kube walked_if then_rest parse_string is_tagged
  replace_storage-shown none a c pod p =
      metric_fields-shown c.http_metric a pod (record c { in_kube = none }) p
  replace_storage-shown (some k) a c pod p =
      rw (in_kube-walk k p) (put_in_kube-shown a pod c (parse_in_kube kube env (p, k)))

  given-shown :
      (c : StorageConfig) (x : Outcome Pod × Process W)
      → with_pod_value kube env
          (parse_given kube env (struct (storage_fields c)))
          (struct (storage_fields c))
          x
        ≡ shown
            (λ d. struct (storage_fields d))
            (continue (with_second c x) (λ pod. replace_storage kube env))
  unfolding with_pod_value parse_given put_struct
  given-shown c (ok pod, p) = ap put_struct (replace_storage-shown c.in_kube false c pod p)
  given-shown c (err e, p) = refl
  given-shown c (panic f, p) = refl

  pointer_given-shown :
      (c : StorageConfig) (x : Outcome Pod × Process W)
      → with_pod_value kube env
          (parse_given kube env (pointer (struct (storage_fields c))))
          (pointer (struct (storage_fields c)))
          x
        ≡ shown
            (λ d. pointer (struct (storage_fields d)))
            (continue (with_second c x) (λ pod. replace_storage kube env))
  unfolding with_pod_value parse_given parse_elem put_struct put_pointer
  pointer_given-shown c (ok pod, p) =
      ap (λ y. put_pointer (put_struct y)) (replace_storage-shown c.in_kube true c pod p)
  pointer_given-shown c (err e, p) = refl
  pointer_given-shown c (panic f, p) = refl

  -- ParseConfig, at a StorageConfig as the reflect library shows it, ends and leaves the configuration
  -- as the walks over the fields of a StorageConfig one by one do: of a pointer to the structure, as the
  -- plugin http_probe calls it, and of a copy, as hot_update does. A copy is not addressable, and no
  -- write panics on that, since the texts to replace stand behind a pointer.
  pub parse_config-storage :
      (c : StorageConfig) (p : Process W)
      → (Reflect.parse_config kube env (pointer (struct (storage_fields c))) p
          ≡ shown
              (λ d. pointer (struct (storage_fields d)))
              (Template.parse_config kube env (p, c)))
        × (Reflect.parse_config kube env (struct (storage_fields c)) p
            ≡ shown (λ d. struct (storage_fields d)) (Template.parse_config kube env (p, c)))
  unfolding Reflect.parse_config Template.parse_config this_pod current_pod
  parse_config-storage c p =
      (pointer_given-shown c (current_pod kube env p), given-shown c (current_pod kube env p))
