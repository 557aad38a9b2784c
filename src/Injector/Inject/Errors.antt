-- ===== src/Injector/Inject/Errors.antt =====
-- An injection that fails does not mark the pod.
use kidecar.Base.{
  is_some, ◌≡◌, ap, sym, ◌∙◌, Bool, Bool-cases, inl, inr, Option, none, some, String, arith,
}
use kidecar.Base.Maps.{find}
use kidecar.Base.Outcome.{Err, Outcome, ok, err, panic}
use kidecar.Base.Exec.{caught_end, pure, continue, ◌>>◌}
use kidecar.Base.Inversion.{continue-err}
use kidecar.Api.{SidecarConfig}
use kidecar.Injector.Client.{Request, on_server}
use kidecar.Injector.Match.{get_sidecar_config_of_pod}
use kidecar.Injector.Mutate.{inject_annotation_key, set_service_account}
use kidecar.Injector.Inject.{
  Controller, inject_pod, inject_with, inject_containers, inject_service_account, update_status,
  finish, is_set, if_matched, unless_injected, check_account,
}
use kidecar.Injector.Mutate.Notes.{add_kidecar_container-notes, add_containers-notes}

module _ {W J : Type 0} (ctl : Controller W J) where
  account-notes :
      (name : String) (force : Bool) (r : Request W)
      → (inject_service_account ctl name force r).1.pod.annotations ≡ r.pod.annotations
  unfolding inject_service_account set_service_account check_account
  account-notes name force r = ground arith

  containers-notes :
      (config : SidecarConfig) (r : Request W)
      → (inject_containers ctl config r).1.pod.annotations ≡ r.pod.annotations
  unfolding inject_containers
  containers-notes config r = elim (Bool-cases config.spec.injection.inject_kidecar) [
    | inl k ↦ rw k (add_kidecar_container-notes ctl.image config r.pod)
    | inr k ↦ rw k (add_containers-notes config r.pod)
  ]

  logged-ends :
      (x : Outcome (Unit {0}) × Request W) (e : Err) (r' : Request W)
      → continue (caught_end x) (λ _. pure tt) ≡ (err e, r')
      → ⊥
  logged-ends (ok a, s) e r' h = cc
  logged-ends (err f, s) e r' h = cc
  logged-ends (panic f, s) e r' h = cc

  finish-ends :
      (config : SidecarConfig) (s : Request W) (e : Err) (r' : Request W)
      → (finish ctl config >> update_status ctl config) s ≡ (err e, r')
      → ⊥
  unfolding finish update_status
  finish-ends config s e r' h = logged-ends _ e r' h

  with-notes :
      (config : SidecarConfig) (r : Request W) (e : Err) (r' : Request W)
      → inject_with ctl config r ≡ (err e, r')
      → r'.pod.annotations ≡ r.pod.annotations
  unfolding inject_with
  with-notes config r e r' h =
      let name = config.spec.injection.service_account_name in
      let force = is_set config.spec.injection.force_inject_service_account in
      elim (continue-err (inject_service_account ctl name force r) _ e r' h) [
        | inl a ↦ sym (ap (λ x. x.1.pod.annotations) a) ∙ account-notes name force r
        | inr a ↦ elim (continue-err (inject_containers ctl config a.1) _ e r' a.3) [
          | inl c ↦
              sym (ap (λ x. x.1.pod.annotations) c)
              ∙ containers-notes config a.1
              ∙ sym (ap (λ x. x.1.pod.annotations) a.2)
              ∙ account-notes name force r
          | inr c ↦ absurd (finish-ends config c.1 e r' c.3)
        ]
      ]

  unless_injected-notes :
      (config : SidecarConfig) (r : Request W) (e : Err) (r' : Request W)
      → unless_injected ctl config r ≡ (err e, r')
      → r'.pod.annotations ≡ r.pod.annotations
  unfolding unless_injected
  unless_injected-notes config r e r' h =
      elim (Bool-cases (is_some (find inject_annotation_key r.pod.annotations))) [
        | inl k ↦ let q = rw k at h in cc q
        | inr k ↦ with-notes config r e r' (rw k at h)
      ]

  matched-notes :
      (x : Outcome (Option SidecarConfig) × W) (r : Request W) (e : Err) (r' : Request W)
      → continue (on_server (λ _. x) r) (if_matched ctl) ≡ (err e, r')
      → r'.pod.annotations ≡ r.pod.annotations
  unfolding if_matched
  matched-notes (ok none, w) r e r' h = cc
  matched-notes (ok (some c), w) r e r' h = unless_injected-notes c (record r { server = w }) e r' h
  matched-notes (err f, w) r e r' h = sym (ap (λ x. x.1.pod.annotations) h)
  matched-notes (panic f, w) r e r' h = cc

  -- If InjectPod ends with an error then the pod's annotations are as they were: whatever else of the
  -- pod has been changed by then, the pod is not marked as injected.
  pub inject_pod-error :
      (r : Request W) (e : Err) (r' : Request W)
      → inject_pod ctl r ≡ (err e, r')
      → r'.pod.annotations ≡ r.pod.annotations
  unfolding inject_pod
  inject_pod-error r e r' h =
      matched-notes (get_sidecar_config_of_pod ctl.client r.pod r.server) r e r' h
