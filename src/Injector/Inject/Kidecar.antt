-- ===== src/Injector/Inject/Kidecar.antt =====
-- The pod that an injection of kidecar leaves.
use kidecar.Base.{
  ◌≡◌, refl, sym, ap, ◌∙◌, String, Bool, true, false, none, some, [], ◌∷◌, ◌++◌, List,
}
use kidecar.Base.Outcome.{ok}
use kidecar.Base.Inversion.{continue-ok}
use kidecar.Kube.{Pod, Container}
use kidecar.Api.{SidecarConfig}
use kidecar.Injector.Client.{Request}
use kidecar.Injector.Mutate.{
  set_service_account, add_kidecar_container, kidecar_container, kidecar_volume,
}
use kidecar.Injector.Inject.{
  Controller, inject_with, inject_containers, inject_service_account, is_set,
}
use kidecar.Injector.Inject.Shape.{tail-body, account-pod}

-- The container of kidecar stands last, among the init containers if it is a native sidecar.
abbrev pub HasKidecar : String → Bool → Pod → Type 0
HasKidecar image true pod =
    (cs : List Container) × (pod.init_containers
      ≡ cs ++ (kidecar_container image (some "Always") ∷ []))
HasKidecar image false pod =
    (cs : List Container) × (pod.containers ≡ cs ++ (kidecar_container image none ∷ []))

placed :
    (image : String) (native : Bool) (config : SidecarConfig) (pod new : Pod)
    → config.spec.injection.use_kube_native_sidecar ≡ native
    → new.containers ≡ (add_kidecar_container image config pod).containers
    → new.init_containers ≡ (add_kidecar_container image config pod).init_containers
    → HasKidecar image native new
unfolding add_kidecar_container
placed image true config pod new n c i = (pod.init_containers, rw n at i)
placed image false config pod new n c i = (pod.containers, rw n at c)

module _ {W J : Type 0} (ctl : Controller W J) where
  kidecar-pod :
      (config : SidecarConfig) (r s : Request W)
      → config.spec.injection.inject_kidecar ≡ true
      → inject_containers ctl config r ≡ (ok tt, s)
      → s.pod ≡ add_kidecar_container ctl.image config r.pod
  unfolding inject_containers
  kidecar-pod config r s k h = sym (ap (λ x. x.1.pod) (rw k at h))

  add_kidecar_container-volumes :
      (config : SidecarConfig) (pod : Pod) (native : Bool)
      → config.spec.injection.use_kube_native_sidecar ≡ native
      → (add_kidecar_container ctl.image config pod).volumes ≡ pod.volumes ++ (kidecar_volume ∷ [])
  unfolding add_kidecar_container
  add_kidecar_container-volumes config pod true n = rw n refl
  add_kidecar_container-volumes config pod false n = rw n refl

  -- If InjectPod injects kidecar and ends without an error, then the container of kidecar stands last
  -- in the pod, and the pod's volumes are the configured ones, its own, and the configmap of kidecar.
  pub inject_with-HasKidecar :
      (config : SidecarConfig) (r r' : Request W)
      → config.spec.injection.inject_kidecar ≡ true
      → inject_with ctl config r ≡ (ok tt, r')
      → HasKidecar ctl.image config.spec.injection.use_kube_native_sidecar r'.pod
        × (r'.pod.volumes
            ≡ config.spec.injection.volumes ++ (r.pod.volumes ++ (kidecar_volume ∷ [])))
  unfolding inject_with set_service_account
  inject_with-HasKidecar config r r' k h =
      let name = config.spec.injection.service_account_name in
      let force = is_set config.spec.injection.force_inject_service_account in
      let w = continue-ok (inject_service_account ctl name force r) _ tt r' h in
      let v = continue-ok (inject_containers ctl config w.1) _ tt r' w.3 in
      let body = tail-body ctl config v.1 r' v.3 in
      let added = kidecar-pod config w.1 v.1 k v.2 in
      let account = account-pod ctl name force r w.1 w.2 in
      let native = config.spec.injection.use_kube_native_sidecar in
      (
        placed ctl.image native config w.1.pod r'.pod refl (body.0 ∙ ap (λ p. p.containers) added)
            (body.1 ∙ ap (λ p. p.init_containers) added),
        body.2
            ∙ ap (λ p. config.spec.injection.volumes ++ p.volumes) added
            ∙ ap (λ vs. config.spec.injection.volumes ++ vs)
                (add_kidecar_container-volumes config w.1.pod native refl)
            ∙ ap (λ p. config.spec.injection.volumes ++ (p.volumes ++ (kidecar_volume ∷ [])))
                account,
      )
