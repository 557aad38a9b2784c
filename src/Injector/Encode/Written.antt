-- ===== src/Injector/Encode/Written.antt =====
-- The configuration file, as a text.
use kidecar.Base.{String, ◌≡◌, refl}
use kidecar.Base.Outcome.{Outcome, ok, err, panic}
use kidecar.Api
use kidecar.Api.Sidecar
use kidecar.Injector.Encode.{
  Encoder, convert_kube_config_to_sidecar_config, marshalled, build_config_yaml,
}

module _ {J : Type 0} (encoder : Encoder J) where
  marshalled-ok :
      (x : Outcome String) (text : String) → marshalled encoder x ≡ ok text → x ≡ ok text
  unfolding marshalled
  marshalled-ok (ok t) text h = h
  marshalled-ok (err e) text h = cc
  marshalled-ok (panic p) text h = cc

  built :
      (config : Api.KidecarConfig) (x : Outcome (Sidecar.SidecarConfig J)) (text : String)
      → convert_kube_config_to_sidecar_config encoder config ≡ x
      → build_config_yaml encoder config ≡ ok text
      → (c : Sidecar.SidecarConfig J) × (x ≡ ok c) × (encoder.marshal c ≡ ok text)
  unfolding build_config_yaml
  built config (ok c) text e h =
      (c, refl, marshalled-ok (encoder.marshal c) text (rw (build_config_yaml, e) at h))
  built config (err f) text e h = let k = rw (build_config_yaml, e) at h in cc k
  built config (panic p) text e h = let k = rw (build_config_yaml, e) at h in cc k

  -- A text that was built is that of the converted configuration.
  pub build_config_yaml-ok :
      (config : Api.KidecarConfig) (text : String)
      → build_config_yaml encoder config ≡ ok text
      → (c : Sidecar.SidecarConfig J) × (convert_kube_config_to_sidecar_config encoder config
          ≡ ok c)
        × (encoder.marshal c ≡ ok text)
  build_config_yaml-ok config text h =
      built config (convert_kube_config_to_sidecar_config encoder config) text refl h
