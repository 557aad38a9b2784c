-- ===== src/Controller/Options.antt =====
-- The servers of the program by its flags.
use kidecar.Base.{◌≡◌, ◌↔◌, refl, ap, arith, Bool, true, false, some, List, [], ◌∷◌, if◌then◌else◌}
use kidecar.Controller.{
  Flags, TlsConfig, with_authentication_and_authorization, disable_http2, tls_options,
  metrics_options, manager_options,
}

-- A server's configuration, after its options: each is applied in turn.
unfoldable pub apply_options : List (TlsConfig → TlsConfig) → TlsConfig → TlsConfig
apply_options [] c = c
apply_options (f ∷ fs) c = apply_options fs (f c)

offered :
    (b : Bool) (c : TlsConfig)
    → apply_options (tls_options b) c
      ≡ record { next_protos = if b then c.next_protos else "http/1.1" ∷ [] }
unfolding apply_options tls_options disable_http2
offered true c = refl
offered false c = refl

-- The webhook server and the metrics server get the same treatment: unless the flag `enable-http2` is
-- set, they offer HTTP/1.1 alone, whatever they would offer else, and if it is set, they keep what
-- they offer. The metrics server asks for authentication and authorization if and only if it serves
-- over HTTPS.
pub manager_options-apply_options :
    (flags : Flags) (c : TlsConfig)
    → ((apply_options (manager_options flags).webhook_tls_opts c).next_protos
        ≡ (if flags.enable_http2 then c.next_protos else "http/1.1" ∷ []))
      × (apply_options (manager_options flags).metrics.tls_opts c
          ≡ apply_options (manager_options flags).webhook_tls_opts c)
      × ((manager_options flags).metrics.filter_provider
            ≡ some with_authentication_and_authorization
          ↔ (manager_options flags).metrics.secure_serving ≡ true)
unfolding manager_options metrics_options
manager_options-apply_options flags c =
    (ap (λ t. t.next_protos) (offered flags.enable_http2 c), refl, ground arith)
