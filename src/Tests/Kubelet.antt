-- ===== src/Tests/Kubelet.antt =====
-- A kubelet that knows the downward API and configmaps as volumes.
use Prim.Native.String.{◌++◌ as str_append}
use text.Mathlib.TextLemmas.{append_cancel_left}
use kidecar.Base.{
  ◌≡◌, ap, ◌∙◌, String, Bool-cases, true, inl, inr, Option, none, some, List, [], ◌∷◌, map, str_eq,
  eq_iff, eq_refl, arith, if◌then◌else◌,
}
use kidecar.Base.Maps.{Entries, entries, find, lookup}
use kidecar.Base.Outcome.{Outcome, ok, err, msg}
use kidecar.Kube.{EnvVar, Container, Pod, ConfigMap, Volume, VolumeMount}
use kidecar.Process.{Environ}
use kidecar.Deployment.{Kubelet, KubeletLaws, variables, volumes_by_name}

abbrev field_of : Pod → String → Option String → String
field_of pod value none = value
field_of pod value (some path) =
    if str_eq path "metadata.name"
    then pod.name
    else if str_eq path "metadata.namespace"
    then pod.namespace
    else ""

abbrev resolve : Pod → EnvVar → String
resolve pod v = field_of pod v.value v.field_path

abbrev resolved : Pod → List EnvVar → Environ
resolved pod env = map (λ v. (v.name, resolve pod v)) env

abbrev joined : String → Entries String → Entries String
joined path es = map (λ e. (str_append path (str_append "/" e.0), e.1)) es

abbrev answer : Option String → Outcome String
answer none = err (msg "no such file")
answer (some text) = ok text

abbrev file_of : String → String → Option ConfigMap → Outcome String
file_of at path none = err (msg "no configmap")
file_of at path (some cm) = answer (lookup path (joined at (entries cm.contents)))

abbrev source_of : (String → Option ConfigMap) → Option String → Option ConfigMap
source_of configmaps none = none
source_of configmaps (some name) = configmaps name

abbrev in_volume : (String → Option ConfigMap) → String → String → Option Volume → Outcome String
in_volume configmaps at path none = err (msg "no volume")
in_volume configmaps at path (some volume) =
    file_of at path (source_of configmaps volume.config_map)

abbrev in_mounts : (String → Option ConfigMap) → Pod → String → List VolumeMount → Outcome String
in_mounts configmaps pod path [] = err (msg "no mount")
in_mounts configmaps pod path (m ∷ ms) =
    in_volume configmaps m.mount_path path (lookup m.name (volumes_by_name pod.volumes))

abbrev pub kubelet : Kubelet
kubelet = record {
  environ = λ pod c. resolved pod c.env;
  read_file = λ configmaps pod c path. in_mounts configmaps pod path c.volume_mounts;
}

resolved_lem :
    (pod : Pod) (env : List EnvVar) (k : String) (v : EnvVar)
    → lookup k (variables env) ≡ some v
    → lookup k (resolved pod env) ≡ some (resolve pod v)
unfolding lookup
resolved_lem pod [] k v h = cc
resolved_lem pod (u ∷ us) k v h = elim (Bool-cases (str_eq u.name k)) [
  | inl e ↦ rw e (ap (λ o. elim o [ none ↦ none | some w ↦ some (resolve pod w) ]) (rw e at h))
  | inr e ↦ rw e (resolved_lem pod us k v (rw e at h))
]

joined_lem :
    (path : String) (es : Entries String) (k text : String)
    → lookup k es ≡ some text
    → lookup (str_append path (str_append "/" k)) (joined path es) ≡ some text
unfolding lookup
joined_lem path [] k text h = cc
joined_lem path ((j, t) ∷ es) k text h = elim (Bool-cases (str_eq j k)) [
  | inl e ↦
      let q : j ≡ k = (eq_iff j k).0 e in
      rw (q, eq_refl (str_append path (str_append "/" k))) (rw e at h)
  | inr e ↦
      elim (Bool-cases
        (str_eq (str_append path (str_append "/" j)) (str_append path (str_append "/" k)))) [
          | inl f ↦
              let p =
                (eq_iff (str_append path (str_append "/" j)) (str_append path (str_append "/" k))).0
                  f in
              let q : j ≡ k =
                append_cancel_left "/" j k
                  (append_cancel_left path (str_append "/" j) (str_append "/" k) p) in
              let g : str_eq j k ≡ true = (eq_iff j k).1 q in ground (arith, e, g)
          | inr f ↦ rw f (joined_lem path es k text (rw e at h))
        ]
]

mounted_lem :
    (configmaps : String → Option ConfigMap) (pod : Pod) (c : Container) (mount : VolumeMount)
    (volume : Volume) (name file text : String) (cm : ConfigMap)
    → c.volume_mounts ≡ mount ∷ []
    → lookup mount.name (volumes_by_name pod.volumes) ≡ some volume
    → volume.config_map ≡ some name
    → configmaps name ≡ some cm
    → find file cm.contents ≡ some text
    → in_mounts configmaps pod (str_append mount.mount_path (str_append "/" file)) c.volume_mounts
      ≡ ok text
mounted_lem configmaps pod c mount volume name file text cm m v n held t =
    let path = str_append mount.mount_path (str_append "/" file) in
    ap (in_mounts configmaps pod path) m
    ∙ ap (in_volume configmaps mount.mount_path path) v
    ∙ ap (λ o. file_of mount.mount_path path (source_of configmaps o)) n
    ∙ ap (file_of mount.mount_path path) held
    ∙ ap answer (joined_lem mount.mount_path (entries cm.contents) file text t)

pub kubelet_laws : KubeletLaws kubelet
kubelet_laws = record {
  own_name = λ pod c k v once held path.
      resolved_lem pod c.env k v held ∙ ap (λ o. some (field_of pod v.value o)) path;
  own_namespace = λ pod c k v once held path.
      resolved_lem pod c.env k v held ∙ ap (λ o. some (field_of pod v.value o)) path;
  mounted = mounted_lem;
}
