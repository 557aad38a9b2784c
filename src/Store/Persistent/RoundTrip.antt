-- ===== src/Store/Persistent/RoundTrip.antt =====
-- What SetPersistenceInfo writes, GetPersistenceInfo reads.
use kidecar.Base.{
  Bool-cases, str_eq, inl, inr, String, ◌≡◌, refl, sym, ap, ◌∙◌, subst, none, some, [], eq_refl,
}
use kidecar.Base.Maps.{HasKeysOnce, entries, find, lookup, insert, or_else, lookup-insert}
use kidecar.Base.Outcome.{ok}
use kidecar.Base.Exec.{Exec, wrapping, continue}
use kidecar.Base.Inversion.{continue-ok, wrap_end-ok}
use kidecar.Kube.{ConfigMap}
use kidecar.Process.{Environ, Process, KubeInterface, on_api, on_api-ok}
use kidecar.Info.{get_current_pod_info, get_configmap, update_configmap}
use kidecar.Store.Persistent.{
  set_persistence_info, get_persistence_info, Results, Yaml, PersistentConfig,
  result_configmap_name, result_configmap_namespace, decode, new_text, results_of, set_checked,
  get_checked, read_configmap, pod_key,
}
use kidecar.Store.Persistent.Put.{held}
use kidecar.Store.Persistent.Text.{YamlLaws, new_text-held, own_results-held}

-- What the API server documents of configmaps: it is asked by name and answers with the object of
-- that name, and after an update that it accepted it answers with the object that was sent. The
-- second law leaves out that others write to the object in between.
pub record ConfigmapLaws {W : Type 0} (kube : KubeInterface W) : Type 0 where
  pub named :
      (namespace name : String) (w w' : W) (cm : ConfigMap)
      → kube.get_configmap namespace name w ≡ (ok cm, w')
      → (cm.namespace ≡ namespace) × (cm.name ≡ name)
  pub served :
      (cm : ConfigMap) (w w' : W)
      → kube.update_configmap cm w ≡ (ok tt, w')
      → kube.get_configmap cm.namespace cm.name w' ≡ (ok cm, w')

module _ {W : Type 0} (kube : KubeInterface W) (yaml : Yaml) (env : Environ) where
  -- The end of SetPersistenceInfo.
  abbrev sends : ConfigMap → String → String → Exec (Process W) (Unit {0})
  sends cm key text = wrapping "failed to update hotupdate configmap sidecar-result/kube-system" (
      on_api (
        kube.update_configmap
          (record cm { contents = some (insert key text (entries cm.contents)) })))

  -- What SetPersistenceInfo reads, and what it writes.
  set_checked-ok :
      (p : PersistentConfig) (s s' : Process W) (w1 : W) (cm : ConfigMap) (key : String)
      → get_current_pod_info env ≡ ok key
      → kube.get_configmap result_configmap_namespace result_configmap_name s.api ≡ (ok cm, w1)
      → set_checked kube yaml env p s ≡ (ok tt, s')
      → (text : String) × (new_text kube yaml env p (lookup key (entries cm.contents)) ≡ ok text)
        × (kube.update_configmap
              (record cm { contents = some (insert key text (entries cm.contents)) })
              w1
            ≡ (ok tt, s'.api))
  unfolding set_checked read_configmap pod_key get_configmap update_configmap
  set_checked-ok p s s' w1 cm key k g h =
      let old = lookup key (entries cm.contents) in
      let i : continue (new_text kube yaml env p old, record s { api = w1 }) (sends cm key)
          ≡ (ok tt, s') =
        rw (g, k) at h in
      let t =
        continue-ok (new_text kube yaml env p old, record s { api = w1 }) (sends cm key) tt s' i in
      let e =
        wrap_end-ok "failed to update hotupdate configmap sidecar-result/kube-system"
          (on_api
            (kube.update_configmap
              (record cm { contents = some (insert key t.0 (entries cm.contents)) }))
            t.1)
          tt s' t.3 in
      let r =
        on_api-ok
          (kube.update_configmap
            (record cm { contents = some (insert key t.0 (entries cm.contents)) }) t.1.api)
          tt t.1 s' e in
      (
        t.0,
        ap (λ x. x.0) t.2,
        subst
            (λ (w : W).
              kube.update_configmap
                (record cm { contents = some (insert key t.0 (entries cm.contents)) }) w
              ≡ (ok tt, s'.api))
            (sym (ap (λ x. x.1.api) t.2)) r,
      )

  -- What GetPersistenceInfo reads from a configmap that has a text for the pod.
  get_checked-ok :
      (p : PersistentConfig) (s : Process W) (cm : ConfigMap) (key text : String) (after : Results)
      → get_current_pod_info env ≡ ok key
      → kube.get_configmap result_configmap_namespace result_configmap_name s.api ≡ (ok cm, s.api)
      → lookup key (entries cm.contents) ≡ some text
      → yaml.unmarshal text (some []) ≡ ok after
      → (q : PersistentConfig) × (get_checked kube yaml env p s ≡ (ok q, s))
        × ((version : String) → find version q.result ≡ held p.type version after)
  unfolding get_checked read_configmap pod_key get_configmap results_of
  get_checked-ok p s cm key text after k g f d =
      let r = own_results-held kube yaml env p.type text after d in
      (record p { result = r.0 }, rw (g, k, f, r.1) refl, r.2)

  round_trip :
      (p : PersistentConfig) (s s' : Process W) (w1 : W) (cm : ConfigMap) (key : String)
      (before : Results)
      → YamlLaws yaml
      → ConfigmapLaws kube
      → HasKeysOnce (entries p.result)
      → get_current_pod_info env ≡ ok key
      → kube.get_configmap result_configmap_namespace result_configmap_name s.api ≡ (ok cm, w1)
      → decode yaml (lookup key (entries cm.contents)) ≡ ok before
      → set_checked kube yaml env p s ≡ (ok tt, s')
      → (q : PersistentConfig) × (get_checked kube yaml env (record p { result = none }) s'
          ≡ (ok q, s'))
        × ((version : String)
            → find version q.result ≡ or_else (find version p.result) (held p.type version before))
  round_trip p s s' w1 cm key before yl cl once k g d h =
      let old = lookup key (entries cm.contents) in
      let w = set_checked-ok p s s' w1 cm key k g h in
      let new = record cm { contents = some (insert key w.0 (entries cm.contents)) } in
      let n = cl.named result_configmap_namespace result_configmap_name s.api w1 cm g in
      let t = new_text-held kube yaml env p old before w.0 yl once d w.1 in
      let served = cl.served new w1 s'.api w.2 in
      let r =
        get_checked-ok (record p { result = none }) s' new key w.0 t.0 k (cc (served, n.0, n.1))
          (rw (lookup-insert, eq_refl) refl) t.1 in
      (r.0, r.1, λ version. r.2 version ∙ t.2 version)

  -- Under the laws of the API server and of the YAML library, for a pod whose environment names it:
  -- if the pod's text in the configmap decodes (a pod without one counts as an empty map), and
  -- SetPersistenceInfo ends without an error, then GetPersistenceInfo for the same type succeeds,
  -- leaves the state as it is, and finds for every version the URL that was set, or else the one
  -- that was held before.
  pub persist_round_trip :
      (p : PersistentConfig) (s s' : Process W) (w1 : W) (cm : ConfigMap) (key : String)
      (before : Results)
      → YamlLaws yaml
      → ConfigmapLaws kube
      → HasKeysOnce (entries p.result)
      → get_current_pod_info env ≡ ok key
      → kube.get_configmap result_configmap_namespace result_configmap_name s.api ≡ (ok cm, w1)
      → decode yaml (lookup key (entries cm.contents)) ≡ ok before
      → set_persistence_info kube yaml env (some p) s ≡ (ok tt, s')
      → (q : PersistentConfig) × (get_persistence_info kube yaml env
            (some (record p { result = none }))
            s'
          ≡ (ok q, s'))
        × ((version : String)
            → find version q.result ≡ or_else (find version p.result) (held p.type version before))
  unfolding set_persistence_info get_persistence_info
  persist_round_trip p s s' w1 cm key before yl cl once k g d h =
      elim (Bool-cases (str_eq p.type "")) [
        | inl e ↦ let i = rw e at h in cc i
        | inr e ↦ rw e (round_trip p s s' w1 cm key before yl cl once k g d (rw e at h))
      ]
