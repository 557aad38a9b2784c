-- ===== src/Injector/Mutate/Mounts.antt =====
-- The volume mounts of a configuration and the containers of a pod.
use kidecar.Base.{◌≡◌, refl, List, [], ◌∷◌, ◌++◌}
use kidecar.Kube.{Pod, Container, Volume, VolumeMount}
use kidecar.Injector.Mutate.{
  add_volume_mounts, assign_to_copies, add_containers, add_init_containers, add_volumes,
}

assign_to_copies-pod :
    (mounts : List VolumeMount) (cs : List Container) (pod : Pod)
    → assign_to_copies mounts cs pod ≡ pod
unfolding assign_to_copies
assign_to_copies-pod mounts [] pod = refl
assign_to_copies-pod mounts (c ∷ cs) pod = assign_to_copies-pod mounts cs pod

-- addVolumeMounts leaves every pod as it is: no mount of the configuration reaches a container.
pub add_volume_mounts-pod :
    (mounts : List VolumeMount) (pod : Pod) → add_volume_mounts mounts pod ≡ pod
unfolding add_volume_mounts
add_volume_mounts-pod mounts pod = simp assign_to_copies-pod

pub add_containers-pod :
    (cs : List Container) (pod : Pod)
    → add_containers cs pod ≡ record pod { containers = cs ++ pod.containers }
unfolding add_containers
add_containers-pod [] pod = refl
add_containers-pod (c ∷ cs) pod = refl

pub add_init_containers-pod :
    (cs : List Container) (pod : Pod)
    → add_init_containers cs pod ≡ record pod { init_containers = cs ++ pod.init_containers }
unfolding add_init_containers
add_init_containers-pod [] pod = refl
add_init_containers-pod (c ∷ cs) pod = refl

pub add_volumes-pod :
    (vs : List Volume) (pod : Pod) → add_volumes vs pod ≡ record pod { volumes = vs ++ pod.volumes }
unfolding add_volumes
add_volumes-pod [] pod = refl
add_volumes-pod (v ∷ vs) pod = refl
