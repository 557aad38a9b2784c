-- ===== src/HttpProbe/Plugin/Defaults.antt =====
-- What Init leaves.
use kidecar.Base.{◌≡◌, refl, subst, true, none, some, arith}
use kidecar.Base.Int.{ℤ, pos, is_positive}
use kidecar.Base.Outcome.{ok}
use kidecar.Store.Factory.{new_storage_factory}
use kidecar.HttpProbe.Health.{new_status}
use kidecar.HttpProbe.Plugin.{
  HttpProber, InitConfig, http_probe_config, other_config, init, or_default, with_defaults,
}

-- The plugin waits before its first probe and between two probes, and it has stores that hold nothing.
abbrev pub IsInitialized : HttpProber → Type 0
IsInitialized h =
    (is_positive h.config.start_delay_seconds ≡ true)
    × (is_positive h.config.probe_interval_seconds ≡ true)
    × (h.factory ≡ new_storage_factory)
    × (h.status ≡ some new_status)

or_default-positive :
    (n default : ℤ) → is_positive default ≡ true → is_positive (or_default n default) ≡ true
unfolding or_default
or_default-positive n default h = ground arith

-- After an Init that ends without an error, whatever the plugin was before, both waits are at least
-- one second, whatever the configuration says: a zero or a negative number is replaced.
init-IsInitialized : (c : InitConfig) (h h' : HttpProber) → init c h ≡ ok h' → IsInitialized h'
unfolding init with_defaults
init-IsInitialized other_config h h' e = cc
init-IsInitialized (http_probe_config none) h h' e = cc
init-IsInitialized (http_probe_config (some c)) h h' e =
    let new : HttpProber = record {
      config = with_defaults c;
      factory = new_storage_factory;
      status = some new_status;
    } in
    let q : new ≡ h' = cc e in
    subst IsInitialized q (
      or_default-positive c.start_delay_seconds (pos 30) refl,
      or_default-positive c.probe_interval_seconds (pos 5) refl,
      refl,
      refl,
    )
