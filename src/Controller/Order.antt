-- ===== src/Controller/Order.antt =====
-- What the program sets up, in which order, and how it ends.
use kidecar.Base.{
  ◌≡◌, refl, ℕ, String, Bool, true, false, inl, inr, Option, none, some, Option-cases, List, [],
  ◌∷◌, ◌++◌, str_eq, if◌then◌else◌,
}
use kidecar.Base.Outcome.{Err, Outcome, ok, err}
use kidecar.Base.Exec.{Exec, continue, wrap_end}
use kidecar.Process.{Environ}
use kidecar.Info.{getenv}
use kidecar.Controller.{
  Flags, ManagerOptions, Served, sidecar_configs, pods, Runtime, manager_options, run_manager,
  with_webhooks, set_up, exit_code, setup_controller, setup_config_webhook, setup_pod_webhook,
  start_pod_info_collector, main,
}

-- A call of the library.
pub data Call : Type 0 where
  adds_to_scheme : String → Call
  reads_config : Call
  makes_manager : ManagerOptions → Call
  completes_controller : String → Call
  completes_webhook : Served → Call
  adds_healthz_check adds_readyz_check : String → Call
  adds_collector : Call
  starts : Call

-- The calls of the program, if none fails.
abbrev pub calls_behind : List Call
calls_behind =
    adds_healthz_check "healthz" ∷ adds_readyz_check "readyz" ∷ adds_collector ∷ starts ∷ []

abbrev pub calls : Flags → Bool → List Call
calls flags webhooks =
    reads_config
    ∷ makes_manager (manager_options flags)
    ∷ completes_controller "SidecarConfig"
    ∷ (if webhooks
        then completes_webhook sidecar_configs ∷ completes_webhook pods ∷ calls_behind
        else calls_behind)

-- Of the calls, those up to the first that fails, and the exit code: 0 if none fails.
module _ (fails : Call → Option Err) where
  unfoldable pub until_failure : List Call → List Call → Outcome ℕ × List Call
  until_failure [] made = (ok 0, made)
  until_failure (c ∷ cs) made =
      let rest = until_failure cs (made ++ (c ∷ [])) in
      elim (fails c) [ some e ↦ (ok 1, made ++ (c ∷ [])) | none ↦ rest ]

  answer : Option Err → Outcome (Unit {0})
  answer none = ok tt
  answer (some e) = err e

  pub record_call : Call → Exec (List Call) (Unit {0})
  unfolding answer
  record_call c made = (answer (fails c), made ++ (c ∷ []))

  -- A library that writes down its calls, and fails as `fails` says.
  abbrev pub recorded : Runtime (List Call)
  recorded = record {
    add_to_scheme = λ path. record_call (adds_to_scheme path);
    get_config = record_call reads_config;
    new_manager = λ o. record_call (makes_manager o);
    complete_controller = λ kind. record_call (completes_controller kind);
    complete_webhook = λ served. record_call (completes_webhook served);
    add_healthz_check = λ name. record_call (adds_healthz_check name);
    add_readyz_check = λ name. record_call (adds_readyz_check name);
    add_collector = record_call adds_collector;
    start = record_call starts;
  }

  -- The rest of the set-up is run if the call has not failed.
  step :
      (c : Call) (cs : List Call) (k : Exec (List Call) (Unit {0})) (made : List Call)
      → ((m : List Call) → exit_code recorded (k m) ≡ until_failure cs m)
      → exit_code recorded (continue (record_call c made) (λ u. k)) ≡ until_failure (c ∷ cs) made
  unfolding until_failure record_call exit_code
  step c cs k made h = elim (Option-cases (fails c)) [
    | inl e ↦ rw (until_failure, e) (h (made ++ (c ∷ [])))
    | inr (f, e) ↦ rw (until_failure, e) refl
  ]

  logged_step :
      (t : String) (c : Call) (cs : List Call) (k : Exec (List Call) (Unit {0})) (made : List Call)
      → ((m : List Call) → exit_code recorded (k m) ≡ until_failure cs m)
      → exit_code recorded (continue (wrap_end t (record_call c made)) (λ u. k))
        ≡ until_failure (c ∷ cs) made
  unfolding until_failure record_call exit_code
  logged_step t c cs k made h = elim (Option-cases (fails c)) [
    | inl e ↦ rw (until_failure, e) (h (made ++ (c ∷ [])))
    | inr (f, e) ↦ rw (until_failure, e) refl
  ]

  last_step :
      (t : String) (c : Call) (made : List Call)
      → exit_code recorded (wrap_end t (record_call c made)) ≡ until_failure (c ∷ []) made
  unfolding until_failure record_call exit_code
  last_step t c made = elim (Option-cases (fails c)) [
    | inl e ↦ rw (until_failure, e) refl
    | inr (f, e) ↦ rw (until_failure, e) refl
  ]

  run_manager-calls :
      (made : List Call)
      → exit_code recorded (run_manager recorded made) ≡ until_failure calls_behind made
  unfolding run_manager start_pod_info_collector
  run_manager-calls made = logged_step _ (adds_healthz_check "healthz") _ _ made (λ m.
      logged_step _ (adds_readyz_check "readyz") _ _ m
        (λ n. logged_step _ adds_collector _ _ n (last_step _ starts)))

  with_webhooks-calls :
      (b : Bool) (made : List Call)
      → exit_code recorded (with_webhooks recorded b made)
        ≡ until_failure
            (if b
              then completes_webhook sidecar_configs ∷ completes_webhook pods ∷ calls_behind
              else calls_behind)
            made
  unfolding with_webhooks setup_config_webhook setup_pod_webhook
  with_webhooks-calls false made = run_manager-calls made
  with_webhooks-calls true made =
      logged_step _ (completes_webhook sidecar_configs) _ _ made
        (λ m. logged_step _ (completes_webhook pods) _ _ m run_manager-calls)

  -- Whatever calls of the library fail, the program makes the calls of the set-up in their order up to
  -- the first that fails, and no other, and exits with 1 then; if none fails it ends with 0 when the
  -- manager does. It registers the two webhooks, behind the controller, unless the variable
  -- ENABLE_WEBHOOKS is "false", and it starts the manager last.
  pub main-until_failure :
      (flags : Flags) (env : Environ) (made : List Call)
      → main recorded flags env made
        ≡ until_failure
            (calls flags (if str_eq (getenv env "ENABLE_WEBHOOKS") "false" then false else true))
            made
  unfolding main set_up setup_controller
  main-until_failure flags env made = step reads_config _ _ made (λ m.
      logged_step _ (makes_manager (manager_options flags)) _ _ m (λ n.
        logged_step _ (completes_controller "SidecarConfig") _ _ n (
          with_webhooks-calls
            (if str_eq (getenv env "ENABLE_WEBHOOKS") "false" then false else true))))
