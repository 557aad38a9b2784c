-- ===== src/Tests/Collector.antt =====
-- A collection over two pods, one of which runs.
use kidecar.Base.{refl, ◌≡◌, ◌≤◌, List, [], ◌∷◌, length, arith}
use kidecar.Base.Outcome.{ok}
use kidecar.Kube.{Pod}
use kidecar.Injector.Client.{Client, RetryLaws}
use kidecar.Injector.Inject.Status.{ConfigServer}
use kidecar.Collector.{
  count_from, put_counts, collect_pod_and_update_status, sync_pod_info_to_sidecar_set,
}
use kidecar.Collector.Counts.{running, put_counts_bounds}
use kidecar.Collector.Sync.{IsSwept, sync_pod_info_to_sidecar_set-IsSwept}
use kidecar.Tests.World.{World, client, config_server, own_pod}
use kidecar.Tests.Injector.{config, world}

abbrev two_pods : List Pod
two_pods = own_pod ∷ record own_pod { name = "web-1"; phase = "Pending" } ∷ []

abbrev collecting : Client World
collecting = record client { list_pods = λ ns labels w. (ok two_pods, w) }

abbrev collecting_server : ConfigServer collecting
collecting_server = record {
  held = config_server.held;
  got = config_server.got;
  updated = config_server.updated;
}

abbrev collecting_retry : RetryLaws collecting
collecting_retry = record { retried = λ fn w w' h. (w, h) }

abbrev counted : World
unfolding collect_pod_and_update_status
counted = (collect_pod_and_update_status collecting config world).1

put_counts_bounds_example :
    ((put_counts (count_from 0 0 two_pods) config).status.updated_pods ≡ length two_pods)
    × ((put_counts (count_from 0 0 two_pods) config).status.ready_pods ≡ running two_pods)
    × ((put_counts (count_from 0 0 two_pods) config).status.ready_pods
        ≤ (put_counts (count_from 0 0 two_pods) config).status.updated_pods)
put_counts_bounds_example = put_counts_bounds two_pods config (omega arith)

sync_pod_info_to_sidecar_set-IsSwept_example :
    IsSwept collecting (config ∷ []) world (sync_pod_info_to_sidecar_set collecting world)
sync_pod_info_to_sidecar_set-IsSwept_example =
    sync_pod_info_to_sidecar_set-IsSwept collecting (config ∷ []) world world refl
