-- ===== src/Tests/Controller.antt =====
-- The program of the webhook, where the ready check cannot be set up.
use kidecar.Base.{◌≡◌, ◌↔◌, true, false, Option, none, some, [], ◌∷◌, str_eq, if◌then◌else◌}
use kidecar.Base.Outcome.{Err, msg}
use kidecar.Process.{Environ}
use kidecar.Info.{getenv}
use kidecar.Controller.{
  default_flags, TlsConfig, with_authentication_and_authorization, manager_options, main,
}
use kidecar.Controller.Options.{apply_options, manager_options-apply_options}
use kidecar.Controller.Order.{
  Call, adds_readyz_check, recorded, calls, until_failure, main-until_failure,
}

abbrev both : TlsConfig
both = record { next_protos = "h2" ∷ "http/1.1" ∷ [] }

manager_options-apply_options_example :
    ((apply_options (manager_options default_flags).webhook_tls_opts both).next_protos
      ≡ (if default_flags.enable_http2 then both.next_protos else "http/1.1" ∷ []))
    × (apply_options (manager_options default_flags).metrics.tls_opts both
        ≡ apply_options (manager_options default_flags).webhook_tls_opts both)
    × ((manager_options default_flags).metrics.filter_provider
          ≡ some with_authentication_and_authorization
        ↔ (manager_options default_flags).metrics.secure_serving ≡ true)
manager_options-apply_options_example = manager_options-apply_options default_flags both

abbrev env : Environ
env = ("ENABLE_WEBHOOKS", "false") ∷ []

abbrev not_ready : Call → Option Err
not_ready (adds_readyz_check name) = some (msg "already started")
not_ready c = none

main-until_failure_example :
    main (recorded not_ready) default_flags env []
    ≡ until_failure not_ready
        (calls default_flags
          (if str_eq (getenv env "ENABLE_WEBHOOKS") "false" then false else true))
        []
main-until_failure_example = main-until_failure not_ready default_flags env []
