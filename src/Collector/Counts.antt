-- ===== src/Collector/Counts.antt =====
-- What a collection leaves in the status of a SidecarConfig.
use kidecar.Base.{
  ℕ, suc, ◌+◌, ◌≤◌, ◌<◌, ◌^◌, ◌≡◌, some, List, [], ◌∷◌, arith, str_eq, if◌then◌else◌, length,
}
use kidecar.Base.Outcome.{ok}
use kidecar.Kube.{Pod}
use kidecar.Api.{SidecarConfig}
use kidecar.Injector.Client.{Client, RetryLaws}
use kidecar.Injector.Inject.Status.{ConfigServer}
use kidecar.Collector.{to_int32, count_from, put_counts, list_matching}

-- How many pods of a list run.
pub running : List Pod → ℕ
running [] = 0
running (pod ∷ pods) = if str_eq pod.phase "Running" then suc (running pods) else running pods

running-le : (pods : List Pod) → running pods ≤ length pods
unfolding running
running-le [] = omega arith
running-le (pod ∷ pods) = ground (arith, running-le pods)

count_from_lem :
    (u r : ℕ) (pods : List Pod) → count_from u r pods ≡ (u + length pods, r + running pods)
unfolding count_from running
count_from_lem u r [] = ground arith
count_from_lem u r (pod ∷ pods) =
    ground (arith, count_from_lem (u + 1) (r + 1) pods, count_from_lem (u + 1) r pods)

count_lem : (pods : List Pod) → count_from 0 0 pods ≡ (length pods, running pods)
count_lem pods = ground (arith, count_from_lem 0 0 pods)

module _ {W : Type 0} (client : Client W) (server : ConfigServer client)
    (retry : RetryLaws client) where
  -- The server answered with these pods, and it holds the object that was read again, with their
  -- numbers in it and all else as it was read.
  abbrev pub IsCollected : SidecarConfig → W → W → Type 0
  IsCollected config w w' =
      (pods : List Pod) × (v : W) × (list_matching client config w ≡ (ok pods, v))
      × (origin : SidecarConfig) × (u : W) × (u' : W) × (client.get_sidecar_config config.namespace
            config.name u
          ≡ (ok origin, u'))
      × (server.held w' config.namespace config.name
          ≡ some (put_counts (length pods, running pods) origin))

-- Below 2^31 pods neither count wraps to another number or to a negative one: they are the number of
-- the pods, and the number of those in the phase Running, which is not above it.
pub put_counts_bounds :
    (pods : List Pod) (origin : SidecarConfig)
    → length pods < 2 ^ 31
    → ((put_counts (count_from 0 0 pods) origin).status.updated_pods ≡ length pods)
      × ((put_counts (count_from 0 0 pods) origin).status.ready_pods ≡ running pods)
      × ((put_counts (count_from 0 0 pods) origin).status.ready_pods
          ≤ (put_counts (count_from 0 0 pods) origin).status.updated_pods)
unfolding put_counts to_int32
put_counts_bounds pods origin h =
    rw (count_lem pods) (
      omega (arith, running-le pods),
      omega (arith, running-le pods),
      omega (arith, running-le pods),
    )
