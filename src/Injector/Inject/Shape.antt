-- ===== src/Injector/Inject/Shape.antt =====
-- What an injected pod looks like.
use kidecar.Base.{String, ◌≡◌, refl, sym, ap, ◌∙◌, subst, Bool, true, false, ◌++◌, map, arith}
use kidecar.Base.Outcome.{ok}
use kidecar.Base.Exec.{◌>>◌}
use kidecar.Base.Inversion.{continue-ok}
use kidecar.Kube.{Pod}
use kidecar.Api.{SidecarConfig}
use kidecar.Injector.Client.{Request}
use kidecar.Injector.Mutate.{share_process_namespace, prune_container, set_service_account}
use kidecar.Injector.Mutate.Mounts.{
  add_volume_mounts-pod, add_containers-pod, add_init_containers-pod, add_volumes-pod,
}
use kidecar.Injector.Inject.{
  Controller, inject_with, inject_containers, inject_service_account, check_account, update_status,
  finish, is_set,
}
use kidecar.Injector.Inject.Once.{update_status-pod}

-- The parts of the pod that are not touched behind the containers, and the volumes.
abbrev pub SameBody : SidecarConfig → Pod → Pod → Type 0
SameBody config old new =
    (new.containers ≡ old.containers)
    × (new.init_containers ≡ old.init_containers)
    × (new.volumes ≡ config.spec.injection.volumes ++ old.volumes)

share-body :
    (share : Bool) (pod : Pod)
    → ((share_process_namespace share pod).containers ≡ pod.containers)
      × ((share_process_namespace share pod).init_containers ≡ pod.init_containers)
      × ((share_process_namespace share pod).volumes ≡ pod.volumes)
unfolding share_process_namespace
share-body true pod = (refl, refl, refl)
share-body false pod = (refl, refl, refl)

module _ {W J : Type 0} (ctl : Controller W J) where
  finish-body :
      (config : SidecarConfig) (r : Request W) → SameBody config r.pod (finish ctl config r).1.pod
  unfolding finish
  finish-body config r =
      simp (add_volume_mounts-pod, add_volumes-pod)
        (share-body (is_set config.spec.injection.share_process_namespace)
          (record (r.pod) { volumes = config.spec.injection.volumes ++ r.pod.volumes }))

  pub tail-body :
      (config : SidecarConfig) (s r' : Request W)
      → (finish ctl config >> update_status ctl config) s ≡ (ok tt, r')
      → SameBody config s.pod r'.pod
  unfolding finish
  tail-body config s r' h =
      subst (λ q. SameBody config s.pod q.pod) (ap (λ x. x.1) h)
        (rw (update_status-pod ctl config (finish ctl config s).1) (finish-body config s))

  check-pod : (name : String) (r : Request W) → (check_account ctl name r).1.pod ≡ r.pod
  unfolding check_account
  check-pod name r = ground arith

  -- The pod behind injectServiceAccount, if that succeeds.
  pub account-pod :
      (name : String) (force : Bool) (r s : Request W)
      → inject_service_account ctl name force r ≡ (ok tt, s)
      → s.pod ≡ set_service_account name force r.pod
  unfolding inject_service_account
  account-pod name force r s h =
      let c = continue-ok (check_account ctl name r) _ tt s h in
      sym (ap (λ x. x.1.pod) c.3)
      ∙ ap (set_service_account name force) (sym (ap (λ x. x.1.pod) c.2) ∙ check-pod name r)

  user-pod :
      (config : SidecarConfig) (r s : Request W)
      → config.spec.injection.inject_kidecar ≡ false
      → inject_containers ctl config r ≡ (ok tt, s)
      → s.pod ≡ record (r.pod) {
        containers = config.spec.injection.containers ++ r.pod.containers;
        init_containers = config.spec.injection.init_containers ++ r.pod.init_containers;
      }
  unfolding inject_containers
  user-pod config r s k h =
      sym (ap (λ x. x.1.pod) (rw k at h)) ∙ simp (add_containers-pod, add_init_containers-pod)

  -- If InjectPod injects the containers of the SidecarConfig (and not kidecar) and ends without an
  -- error, then the pod has the configured containers in front of its own, whose mounts of the
  -- token are pruned, the configured init containers in front of its own, and the configured
  -- volumes in front of its own, each in the order in which the SidecarConfig lists them. No configured volume mount is in it but those that the configured
  -- containers bring.
  pub inject_with-user_containers :
      (config : SidecarConfig) (r r' : Request W)
      → config.spec.injection.inject_kidecar ≡ false
      → inject_with ctl config r ≡ (ok tt, r')
      → (r'.pod.containers
          ≡ config.spec.injection.containers ++ map prune_container r.pod.containers)
        × (r'.pod.init_containers ≡ config.spec.injection.init_containers ++ r.pod.init_containers)
        × (r'.pod.volumes ≡ config.spec.injection.volumes ++ r.pod.volumes)
  unfolding inject_with inject_containers set_service_account
  inject_with-user_containers config r r' k h =
      let name = config.spec.injection.service_account_name in
      let force = is_set config.spec.injection.force_inject_service_account in
      let w = continue-ok (inject_service_account ctl name force r) _ tt r' h in
      let v = continue-ok (inject_containers ctl config w.1) _ tt r' w.3 in
      let body = tail-body config v.1 r' v.3 in
      let user = user-pod config w.1 v.1 k v.2 in
      let account = account-pod name force r w.1 w.2 in
      let inject = config.spec.injection in
      (
        body.0 ∙ ap (λ p. p.containers) user ∙ ap (λ p. inject.containers ++ p.containers) account,
        body.1
            ∙ ap (λ p. p.init_containers) user
            ∙ ap (λ p. inject.init_containers ++ p.init_containers) account,
        body.2
            ∙ ap (λ p. inject.volumes ++ p.volumes) user
            ∙ ap (λ p. inject.volumes ++ p.volumes) account,
      )
