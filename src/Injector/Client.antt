-- ===== src/Injector/Client.antt =====
-- The controller's client of the API server (sigs.k8s.io/controller-runtime), over the states `W` of
-- the server. Others act on the server too, so every call may find and leave it changed.
use kidecar.Base.{◌≡◌, String, Bool, Option, List}
use kidecar.Base.Maps.{GoMap}
use kidecar.Base.Outcome.{Err, Outcome, ok}
use kidecar.Base.Exec.{Exec}
use kidecar.Kube.{Pod, ConfigMap, LabelSelector}
use kidecar.Api.{SidecarConfig}

pub record Client (W : Type 0) : Type 0 where
  pub list_sidecar_configs : Exec W (List SidecarConfig)
  -- the labels of a namespace
  pub get_namespace : String → Exec W (GoMap String)
  -- by namespace and name
  pub get_service_account : String → String → Exec W (Unit {0})
  pub get_sidecar_config : String → String → Exec W SidecarConfig
  pub update_status : SidecarConfig → Exec W (Unit {0})
  pub get_configmap : String → String → Exec W ConfigMap
  pub create_configmap : ConfigMap → Exec W (Unit {0})
  pub update_configmap : ConfigMap → Exec W (Unit {0})
  -- the list options: a namespace, and the labels of a pod
  pub list_pods : Option String → (GoMap String → Bool) → Exec W (List Pod)
  -- apierrors.IsNotFound and apierrors.IsAlreadyExists
  pub is_not_found : Err → Bool
  pub is_already_exists : Err → Bool
  -- metav1.LabelSelectorAsSelector, the selector being what its `Matches` says of labels
  pub label_selector_as_selector : Option LabelSelector → Outcome (GoMap String → Bool)
  pub retry_on_conflict : Exec W (Unit {0}) → Exec W (Unit {0})

-- What the webhook's request works on: the pod, which it changes in place, and the server.
pub record Request (W : Type 0) : Type 0 where
  pub pod : Pod
  pub server : W

abbrev pub on_server : {W A : Type 0} → Exec W A → Exec (Request W) A
on_server {W} {A} m r = put_back (m r.server)
  where
    put_back : Outcome A × W → Outcome A × Request W
    put_back (a, w) = (a, record r { server = w })

-- What client-go documents of its retry: one that succeeds ends with a call that does.
pub record RetryLaws {W : Type 0} (client : Client W) : Type 0 where
  pub retried :
      (fn : Exec W (Unit {0})) (w w' : W)
      → client.retry_on_conflict fn w ≡ (ok tt, w')
      → (v : W) × (fn v ≡ (ok tt, w'))
