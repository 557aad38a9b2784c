-- ===== src/Injector/Mutate/Notes.antt =====
-- The annotations of a pod, and the containers that are added to it.
use kidecar.Base.{String, ◌≡◌, arith}
use kidecar.Kube.{Pod}
use kidecar.Api.{SidecarConfig}
use kidecar.Injector.Mutate.{
  place_container, add_kidecar_container, add_containers, add_init_containers,
}

pub add_kidecar_container-notes :
    (image : String) (config : SidecarConfig) (pod : Pod)
    → (add_kidecar_container image config pod).annotations ≡ pod.annotations
unfolding add_kidecar_container place_container
add_kidecar_container-notes image config pod = ground arith

pub add_containers-notes :
    (config : SidecarConfig) (pod : Pod)
    → (add_init_containers config.spec.injection.init_containers
        (add_containers config.spec.injection.containers pod)).annotations
      ≡ pod.annotations
unfolding add_containers add_init_containers
add_containers-notes config pod = ground arith
