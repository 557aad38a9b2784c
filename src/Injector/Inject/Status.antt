-- ===== src/Injector/Inject/Status.antt =====
-- The count of matched pods in the status of a SidecarConfig.
use kidecar.Base.{String, ◌≡◌, refl, Option, some}
use kidecar.Base.Outcome.{ok}
use kidecar.Base.Inversion.{continue-ok}
use kidecar.Api.{SidecarConfig}
use kidecar.Injector.Client.{Client}
use kidecar.Injector.Inject.{Controller, next_int32, update_status_once, count_match}

-- What the API server documents of the SidecarConfig objects: `held` is the one that it has.
pub record ConfigServer {W : Type 0} (client : Client W) : Type 0 where
  pub held : W → String → String → Option SidecarConfig
  pub got :
      (namespace name : String) (w w' : W) (c : SidecarConfig)
      → client.get_sidecar_config namespace name w ≡ (ok c, w')
      → (c.namespace ≡ namespace) × (c.name ≡ name)
  pub updated :
      (c : SidecarConfig) (w w' : W)
      → client.update_status c w ≡ (ok tt, w')
      → held w' c.namespace c.name ≡ some c

module _ {W J : Type 0} (ctl : Controller W J) (server : ConfigServer ctl.client) where
  -- The count of the object that the server holds is one more than that of a given object.
  abbrev pub IsCounted : SidecarConfig → W → Type 0
  IsCounted config w =
      (c : SidecarConfig) × (server.held w config.namespace config.name ≡ some c)
      × (c.status.matched_pods ≡ next_int32 config.status.matched_pods)

  -- Whatever count the server holds by the time of the update, an update of the status that ends
  -- without an error leaves there the count of the SidecarConfig that was listed for the pod, plus
  -- one: a count that other pods have raised since the list is lost.
  pub update_status_once-IsCounted :
      (config : SidecarConfig) (w w' : W)
      → update_status_once ctl config w ≡ (ok tt, w')
      → IsCounted config w'
  unfolding update_status_once count_match
  update_status_once-IsCounted config w w' h =
      let g =
        continue-ok (ctl.client.get_sidecar_config config.namespace config.name w) _ tt w' h in
      let new = record (g.0) { status = count_match ctl config.status g.0 } in
      let n = server.got config.namespace config.name w g.1 g.0 g.2 in
      (new, cc (server.updated new g.1 w' g.3, n.0, n.1), refl)
