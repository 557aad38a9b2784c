-- ===== src/Injector/Configmap/Ensure.antt =====
-- What EnsureConfigmap leaves on the API server.
use kidecar.Base.{String, ◌≡◌, ◌≢◌, ap, true, false, Option, none, some, arith, eq_iff}
use kidecar.Base.Maps.{find, lookup}
use kidecar.Base.Outcome.{Err, Fault, Outcome, ok, err, panic, nil_map}
use kidecar.Base.Exec.{Exec}
use kidecar.Kube.{ConfigMap}
use kidecar.Injector.Client.{Client}
use kidecar.Injector.Mutate.{kidecar_configmap_name}
use kidecar.Injector.Configmap.{
  config_file, is_config_changed, update_once, update_configmap, create_configmap, new_configmap,
  ensure_configmap, ensure_from, assign,
}

-- What the API server and the retry document: `held` is the configmap that the server has. What Get
-- returns is of the key that it was asked for; it may be an older configmap than the one that is held,
-- since the client of the manager reads from its cache.
pub record Server {W : Type 0} (client : Client W) : Type 0 where
  pub held : W → String → String → Option ConfigMap
  pub named :
      (ns name : String) (w w' : W) (cm : ConfigMap)
      → client.get_configmap ns name w ≡ (ok cm, w')
      → (cm.namespace ≡ ns) × (cm.name ≡ name)
  pub created :
      (cm : ConfigMap) (w w' : W)
      → client.create_configmap cm w ≡ (ok tt, w')
      → held w' cm.namespace cm.name ≡ some cm
  pub updated :
      (cm : ConfigMap) (w w' : W)
      → client.update_configmap cm w ≡ (ok tt, w')
      → held w' cm.namespace cm.name ≡ some cm
  -- a retry that succeeds ends with a call that does
  pub retried :
      (fn : Exec W (Unit {0})) (w w' : W)
      → client.retry_on_conflict fn w ≡ (ok tt, w')
      → (v : W) × (fn v ≡ (ok tt, w'))
  -- a panic goes through the retry
  pub retry_panics :
      (fn : Exec W (Unit {0})) (w w' : W) (p : Fault)
      → fn w ≡ (panic p, w')
      → client.retry_on_conflict fn w ≡ (panic p, w')

module _ {W : Type 0} (client : Client W) (hash : String → String) (server : Server client) where
  -- The server holds a configmap with the text of the configuration and its hash.
  abbrev pub IsCurrent : W → String → String → Type 0
  IsCurrent w ns yaml =
      (cm : ConfigMap) × (server.held w ns kidecar_configmap_name ≡ some cm)
      × (find config_file cm.contents ≡ some yaml)
      × (is_config_changed client hash yaml cm ≡ false)

  -- The configmap that was read has the hash of the configuration, and nothing was called behind that.
  abbrev pub WasRead : W → W → String → String → Type 0
  WasRead w w' ns yaml =
      (cm : ConfigMap) × (client.get_configmap ns kidecar_configmap_name w ≡ (ok cm, w'))
      × (is_config_changed client hash yaml cm ≡ false)

  -- The create found that another had created the configmap in the meantime.
  abbrev pub WasRaced : W → String → String → Type 0
  WasRaced w' ns yaml =
      (w : W) × (e : Err) × (client.create_configmap (new_configmap client hash ns yaml) w
        ≡ (err e, w'))
      × (client.is_already_exists e ≡ true)

  update_once-panics :
      (ns yaml : String) (cm : ConfigMap) (w w' : W)
      → client.get_configmap ns kidecar_configmap_name w ≡ (ok cm, w')
      → cm.annotations ≡ none
      → (update_once client hash ns yaml w).0 ≡ panic nil_map
  unfolding update_once assign
  update_once-panics ns yaml cm w w' g a = rw g (ground (arith, a))

  changed_without :
      (yaml : String) (cm : ConfigMap)
      → cm.annotations ≡ none
      → hash yaml ≢ ""
      → is_config_changed client hash yaml cm ≡ true
  unfolding is_config_changed lookup
  changed_without yaml cm a h = rw a (ground (arith, eq_iff "" (hash yaml), h))

  -- If the namespace has a configmap of that name without annotations, and reading it changes
  -- nothing on the server, then EnsureConfigmap panics on a write to a nil map, for every
  -- configuration whose hash is not the empty text.
  ensure_configmap-panics :
      (ns yaml : String) (cm : ConfigMap) (w : W)
      → client.get_configmap ns kidecar_configmap_name w ≡ (ok cm, w)
      → cm.annotations ≡ none
      → hash yaml ≢ ""
      → (ensure_configmap client hash (ok yaml) ns w).0 ≡ panic nil_map
  unfolding ensure_configmap ensure_from update_configmap
  ensure_configmap-panics ns yaml cm w g a h =
      let once = update_once client hash ns yaml w in
      rw (g, changed_without yaml cm a h)
        (ap (λ x. x.0)
          (server.retry_panics (update_once client hash ns yaml) w once.1 nil_map
            (ap (λ (o : Outcome (Unit {0})). (o, once.1)) (update_once-panics ns yaml cm w w g a))))
