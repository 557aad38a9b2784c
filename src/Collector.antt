-- ===== src/Collector.antt =====
-- pkg/collector/pods.go: how many pods of each SidecarConfig there are, and how many of them run.
pub mod Counts
pub mod Sync
use kidecar.Base.{
  ℕ, ◌+◌, ◌%◌, ◌^◌, String, ◌⊎◌, inl, inr, Option, none, some, List, [], ◌∷◌, str_eq, if◌then◌else◌,
}
use kidecar.Base.Outcome.{Err, Outcome, ok, err, panic}
use kidecar.Base.Exec.{Exec, pure, lift, wrapping, attempt, ◌>>=◌, ◌>>◌}
use kidecar.Kube.{Pod}
use kidecar.Api.{SidecarConfig, SidecarConfigStatus}
use kidecar.Injector.Client.{Client}

-- int32(n), as its 32 bits
to_int32 : ℕ → ℕ
to_int32 n = n % 2 ^ 32

-- The loop over podList.Items, from the counts so far.
pub count_from : ℕ → ℕ → List Pod → ℕ × ℕ
count_from updated ready [] = (updated, ready)
count_from updated ready (pod ∷ pods) =
    count_from (updated + 1) (if str_eq pod.phase "Running" then ready + 1 else ready) pods

-- client.InNamespace is given only if the configuration names a namespace.
in_namespace : String → Option String
in_namespace namespace = if str_eq namespace "" then none else some namespace

pub put_counts : ℕ × ℕ → SidecarConfig → SidecarConfig
unfolding to_int32
put_counts counts config = record config {
  status = record (config.status) {
    updated_pods = to_int32 counts.0;
    ready_pods = to_int32 counts.1;
  };
}

-- What the collector's Start is told: that ten seconds have passed, or that its context is done.
pub data Event : Type 0 where
  tick : Event
  done : Err → Event

module _ {W : Type 0} (client : Client W) where
  pub list_matching : SidecarConfig → Exec W (List Pod)
  unfolding in_namespace
  list_matching config = do
    matches ←
        wrapping "failed to convert label selector"
          (lift (client.label_selector_as_selector config.spec.injection.selector))
    wrapping "failed to list pods"
        (client.list_pods (in_namespace config.spec.injection.namespace) matches)

  -- The function that the update of the status retries; it reads the object again.
  update_counts : SidecarConfig → ℕ × ℕ → Exec W (Unit {0})
  unfolding put_counts
  update_counts config counts = do
    origin ← client.get_sidecar_config config.namespace config.name
    client.update_status (put_counts counts origin)

  unfoldable pub collect_pod_and_update_status : SidecarConfig → Exec W (Unit {0})
  unfolding list_matching update_counts count_from
  collect_pod_and_update_status config = do
    pods ← list_matching config
    wrapping "failed to update SidecarConfig status"
        (client.retry_on_conflict (update_counts config (count_from 0 0 pods)))

  -- The loop over sidecarConfigList.Items: an error is logged, and the loop goes on.
  collect_all : List SidecarConfig → Exec W (Unit {0})
  unfolding collect_pod_and_update_status
  collect_all [] = pure tt
  collect_all (config ∷ rest) = do
    logged ← attempt (collect_pod_and_update_status config)
    collect_all rest

  -- The deferred functions of the loop run when the sync ends, and take its panic.
  recovered : Outcome (Unit {0}) × W → Outcome (Unit {0}) × W
  recovered (panic p, w) = (ok tt, w)
  recovered (ok u, w) = (ok u, w)
  recovered (err e, w) = (err e, w)

  sync_items : Err ⊎ List SidecarConfig → Exec W (Unit {0})
  unfolding collect_all recovered
  sync_items (inl e) w = (ok tt, w)
  sync_items (inr items) w = recovered (collect_all items w)

  pub sync_pod_info_to_sidecar_set : Exec W (Unit {0})
  unfolding sync_items
  sync_pod_info_to_sidecar_set = do items ← attempt client.list_sidecar_configs; sync_items items

  -- Start, for the events that have come: `none` while it goes on.
  start : List Event → Exec W (Option Err)
  unfolding sync_pod_info_to_sidecar_set
  start [] = pure none
  start (done e ∷ events) = pure (some e)
  start (tick ∷ events) = sync_pod_info_to_sidecar_set >> start events
