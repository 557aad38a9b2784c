-- ===== src/Injector/Encode/Plugins.antt =====
-- The plugins of the configuration file against those of the SidecarConfig.
use kidecar.Base.{subst, ◌≡◌, refl, Option, List, [], ◌∷◌}
use kidecar.Base.Outcome.{Outcome, ok, err, panic}
use kidecar.Api
use kidecar.Api.Sidecar
use kidecar.Injector.Encode.{Encoder, convert_plugins, convert_raw_to_map}

module _ {J : Type 0} (encoder : Encoder J) where
  -- The two lists go together: plugin by plugin the name, the binary and the boot order are the
  -- same, and the configuration is the decoded one.
  unfoldable pub SamePlugins : List Api.PluginConfig → List (Sidecar.PluginConfig J) → Type 0
  SamePlugins [] [] = Unit
  SamePlugins (p ∷ ps) (q ∷ qs) =
      (q.name ≡ p.name)
      × (q.binary ≡ p.binary)
      × (q.boot_order ≡ p.boot_order)
      × (convert_raw_to_map encoder p.config ≡ ok q.config)
      × SamePlugins ps qs
  SamePlugins [] (q ∷ qs) = ⊥
  SamePlugins (p ∷ ps) [] = ⊥

  joined :
      (p : Api.PluginConfig) (ps : List Api.PluginConfig) (c : Outcome (Option J))
      (r : Outcome (List (Sidecar.PluginConfig J))) (qs : List (Sidecar.PluginConfig J))
      → convert_raw_to_map encoder p.config ≡ c
      → convert_plugins encoder ps ≡ r
      → ((rest : List (Sidecar.PluginConfig J)) → r ≡ ok rest → SamePlugins ps rest)
      → convert_plugins encoder (p ∷ ps) ≡ ok qs
      → SamePlugins (p ∷ ps) qs
  unfolding convert_plugins SamePlugins
  joined p ps (ok config) (ok rest) qs e d f h =
      let new : Sidecar.PluginConfig J = record {
        name = p.name;
        binary = p.binary;
        config = config;
        boot_order = p.boot_order;
      } in
      let q : new ∷ rest ≡ qs = let k = rw (convert_plugins, e, d) at h in cc k in
      subst (SamePlugins (p ∷ ps)) q (refl, refl, refl, e, f rest refl)
  joined p ps (ok config) (err x) qs e d f h = let k = rw (convert_plugins, e, d) at h in cc k
  joined p ps (ok config) (panic x) qs e d f h = let k = rw (convert_plugins, e, d) at h in cc k
  joined p ps (err x) r qs e d f h = let k = rw (convert_plugins, e) at h in cc k
  joined p ps (panic x) r qs e d f h = let k = rw (convert_plugins, e) at h in cc k

  -- If the plugins of a SidecarConfig are converted, then the file lists the same plugins in the same
  -- order, each with its own name, binary and boot order, and with its decoded configuration.
  pub convert_plugins-SamePlugins :
      (ps : List Api.PluginConfig) (qs : List (Sidecar.PluginConfig J))
      → convert_plugins encoder ps ≡ ok qs
      → SamePlugins ps qs
  unfolding convert_plugins SamePlugins
  convert_plugins-SamePlugins [] [] h = tt
  convert_plugins-SamePlugins [] (q ∷ qs) h = cc
  convert_plugins-SamePlugins (p ∷ ps) qs h =
      joined p ps (convert_raw_to_map encoder p.config) (convert_plugins encoder ps) qs refl refl
        (λ rest. convert_plugins-SamePlugins ps rest) h
