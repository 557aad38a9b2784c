-- ===== src/Injector/Inject/Once.antt =====
-- A pod is injected once, and only an injection that ran to its end marks it.
use kidecar.Base.{
  ◌≡◌, Bool-cases, inl, inr, subst, refl, ap, Bool, true, some, none, Option, arith, is_some,
}
use kidecar.Base.Maps.{find, lookup-insert}
use kidecar.Base.Outcome.{Outcome, ok, err, panic}
use kidecar.Base.Exec.{continue, ◌>>◌}
use kidecar.Base.Inversion.{continue-ok}
use kidecar.Kube.{Pod}
use kidecar.Api.{SidecarConfig}
use kidecar.Injector.Client.{Request, on_server}
use kidecar.Injector.Match.{get_sidecar_config_of_pod}
use kidecar.Injector.Mutate.{inject_annotation_key}
use kidecar.Injector.Inject.{
  Controller, inject_pod, inject_with, inject_containers, inject_service_account, update_status,
  finish, is_set, if_matched, unless_injected,
}

abbrev is_annotated : Pod → Bool
is_annotated pod = is_some (find inject_annotation_key pod.annotations)

module _ {W J : Type 0} (ctl : Controller W J) where
  pub update_status-pod :
      (config : SidecarConfig) (r : Request W) → (update_status ctl config r).1.pod ≡ r.pod
  unfolding update_status
  update_status-pod config r = ground arith

  finish-annotated :
      (config : SidecarConfig) (r : Request W) → is_annotated (finish ctl config r).1.pod ≡ true
  unfolding finish
  finish-annotated config r = rw lookup-insert refl

  tail-annotated :
      (config : SidecarConfig) (s r' : Request W)
      → (finish ctl config >> update_status ctl config) s ≡ (ok tt, r')
      → is_annotated r'.pod ≡ true
  unfolding finish
  tail-annotated config s r' h =
      subst (λ q. is_annotated q.pod ≡ true) (ap (λ x. x.1) h)
        (rw (update_status-pod config (finish ctl config s).1) (finish-annotated config s))

  inject_with-annotated :
      (config : SidecarConfig) (r r' : Request W)
      → inject_with ctl config r ≡ (ok tt, r')
      → is_annotated r'.pod ≡ true
  unfolding inject_with
  inject_with-annotated config r r' h =
      let name = config.spec.injection.service_account_name in
      let force = is_set config.spec.injection.force_inject_service_account in
      let w = continue-ok (inject_service_account ctl name force r) _ tt r' h in
      let v = continue-ok (inject_containers ctl config w.1) _ tt r' w.3 in
      tail-annotated config v.1 r' v.3

  unless_injected-annotated :
      (config : SidecarConfig) (r r' : Request W)
      → unless_injected ctl config r ≡ (ok tt, r')
      → is_annotated r'.pod ≡ true
  unfolding unless_injected
  unless_injected-annotated config r r' h = elim (Bool-cases (is_annotated r.pod)) [
    | inl e ↦ ground (arith, e)
    | inr e ↦ inject_with-annotated config r r' (rw (← h, e) refl)
  ]

  stays :
      (x : Outcome (Option SidecarConfig) × W) (pod : Pod)
      → is_annotated pod ≡ true
      → (continue (on_server (λ _. x) (record { pod = pod; server = x.1 })) (if_matched ctl)).1.pod
        ≡ pod
  unfolding if_matched unless_injected
  stays (ok none, w) pod h = refl
  stays (ok (some c), w) pod h = rw h refl
  stays (err e, w) pod h = refl
  stays (panic p, w) pod h = refl

  marks :
      (x : Outcome (Option SidecarConfig) × W) (pod : Pod) (config : SidecarConfig) (r' : Request W)
      → x.0 ≡ ok (some config)
      → continue (on_server (λ _. x) (record { pod = pod; server = x.1 })) (if_matched ctl)
        ≡ (ok tt, r')
      → is_annotated r'.pod ≡ true
  unfolding if_matched
  marks (ok none, w) pod config r' m h = cc
  marks (ok (some c), w) pod config r' m h =
      unless_injected-annotated c (record { pod = pod; server = w }) r' h
  marks (err e, w) pod config r' m h = cc
  marks (panic p, w) pod config r' m h = cc

  -- If a pod falls under a SidecarConfig and InjectPod ends without an error, then InjectPod leaves
  -- the resulting pod as it is, whatever the API server holds by then and however the call ends.
  pub inject_pod-once :
      (r r' : Request W) (w : W) (config : SidecarConfig)
      → (get_sidecar_config_of_pod ctl.client r.pod r.server).0 ≡ ok (some config)
      → inject_pod ctl r ≡ (ok tt, r')
      → (inject_pod ctl (record r' { server = w })).1.pod ≡ r'.pod
  unfolding inject_pod
  inject_pod-once r r' w config m h =
      stays (get_sidecar_config_of_pod ctl.client r'.pod w) r'.pod
        (marks (get_sidecar_config_of_pod ctl.client r.pod r.server) r.pod config r' m h)
