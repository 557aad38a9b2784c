-- ===== src/Collector/Sync.antt =====
-- How a sync goes through the SidecarConfigs.
use kidecar.Base.{◌≡◌, refl, ap, List, [], ◌∷◌, ◌++◌, inl, inr, ◌⊎◌}
use kidecar.Base.Outcome.{Err, Fault, Outcome, ok, err, panic}
use kidecar.Base.Exec.{continue, caught_end}
use kidecar.Api.{SidecarConfig}
use kidecar.Injector.Client.{Client}
use kidecar.Collector.{
  collect_pod_and_update_status, collect_all, sync_pod_info_to_sidecar_set, sync_items, recovered,
}

module _ {W : Type 0} (client : Client W) where
  -- The configurations of the list are collected one after the other, each to its end or to an
  -- error, from one state of the server to another.
  pub Collected : List SidecarConfig → W → W → Type 0
  Collected [] w w' = w ≡ w'
  Collected (config ∷ rest) w w' =
      (r : Err ⊎ Unit {0}) × (v : W) × (caught_end (collect_pod_and_update_status client config w)
        ≡ (ok r, v))
      × Collected rest v w'

  -- The sweep broke off in a panic at a configuration, and those behind it were not looked at.
  abbrev pub BrokeOff : List SidecarConfig → W → W → Type 0
  BrokeOff items w w' =
      (before : List SidecarConfig) × (config : SidecarConfig) × (after : List SidecarConfig)
      × (v : W) × (p : Fault) × (items ≡ before ++ config ∷ after)
      × Collected before w v
      × (collect_pod_and_update_status client config v ≡ (panic p, w'))

  -- What is left of a call that may panic.
  abbrev Ends : List SidecarConfig → W → Outcome (Unit {0}) × W → Type 0
  Ends items w (ok tt, w') = Collected items w w'
  Ends items w (panic p, w') = BrokeOff items w w'
  Ends items w (err e, w') = ⊥

  later :
      (config : SidecarConfig) (rest : List SidecarConfig) (r : Err ⊎ Unit {0}) (w v : W)
      (x : Outcome (Unit {0}) × W)
      → caught_end (collect_pod_and_update_status client config w) ≡ (ok r, v)
      → Ends rest v x
      → Ends (config ∷ rest) w x
  unfolding Collected
  later config rest r w v (ok tt, w') e c = (r, v, e, c)
  later config rest r w v (panic p, w') e c =
      (config ∷ c.0, c.1, c.2, c.3, c.4, ap (◌∷◌ config) c.5, (r, v, e, c.6), c.7)
  later config rest r w v (err f, w') e c = c

  collected :
      (config : SidecarConfig) (rest : List SidecarConfig) (w : W) (x : Outcome (Unit {0}) × W)
      → collect_pod_and_update_status client config w ≡ x
      → ((v : W) → Ends rest v (collect_all client rest v))
      → Ends (config ∷ rest) w (continue (caught_end x) (λ _. collect_all client rest))
  unfolding Collected
  collected config rest w (ok tt, v) e f =
      later config rest (inr tt) w v (collect_all client rest v) (ap caught_end e) (f v)
  collected config rest w (err g, v) e f =
      later config rest (inl g) w v (collect_all client rest v) (ap caught_end e) (f v)
  collected config rest w (panic p, v) e f = ([], config, rest, w, p, refl, refl, e)

  collect_all-Ends :
      (items : List SidecarConfig) (w : W) → Ends items w (collect_all client items w)
  unfolding collect_all Collected
  collect_all-Ends [] w = refl
  collect_all-Ends (config ∷ rest) w =
      collected config rest w (collect_pod_and_update_status client config w) refl
        (collect_all-Ends rest)

  abbrev pub IsSwept : List SidecarConfig → W → Outcome (Unit {0}) × W → Type 0
  IsSwept items w x = (x.0 ≡ ok tt) × (Collected items w x.1 ⊎ BrokeOff items w x.1)

  swept :
      (items : List SidecarConfig) (w : W) (x : Outcome (Unit {0}) × W)
      → Ends items w x
      → IsSwept items w (recovered client x)
  unfolding recovered
  swept items w (ok tt, w') e = (refl, inl e)
  swept items w (panic p, w') e = (refl, inr e)
  swept items w (err f, w') e = absurd e

  -- If the SidecarConfigs can be listed, then a sync ends without an error and without a panic. It
  -- has gone through all of them, an error with one not keeping it from the others; or the
  -- collection for one of them has panicked, and those behind that one were left out.
  pub sync_pod_info_to_sidecar_set-IsSwept :
      (items : List SidecarConfig) (w0 w : W)
      → client.list_sidecar_configs w0 ≡ (ok items, w)
      → IsSwept items w (sync_pod_info_to_sidecar_set client w0)
  unfolding sync_pod_info_to_sidecar_set sync_items
  sync_pod_info_to_sidecar_set-IsSwept items w0 w h =
      rw h (swept items w (collect_all client items w) (collect_all-Ends items w))
