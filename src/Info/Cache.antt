-- ===== src/Info/Cache.antt =====
-- The cache of pkg/info/pod.go: when the API server is asked, and for how long not.
use kidecar.Base.{◌≡◌, refl, none, some, Option, arith, eq_refl}
use kidecar.Base.Maps.{lookup, lookup-insert, lookup-without}
use kidecar.Base.Outcome.{Outcome, ok, err, panic}
use kidecar.Base.Exec.{lift, ◌>>=◌}
use kidecar.Kube.{Pod}
use kidecar.Process.{Environ, Process, NamespacedName, KubeInterface}
use kidecar.Info.{get_current_pod, get_current_pod_namespace_and_name, expire, pod_of, or_fetch}

module _ {W : Type 0} (kube : KubeInterface W) where
  fetch-cached :
      (n : NamespacedName) (o : Option Pod) (s s' : Process W) (pod : Pod)
      → lookup (kube.name_string n) s.cache ≡ o
      → or_fetch kube n o s ≡ (ok pod, s')
      → lookup (kube.name_string n) s'.cache ≡ some pod
  unfolding or_fetch
  fetch-cached n (some p) s s' pod c h = ground arith
  fetch-cached n none s s' pod c h = ground (
    arith,
    lookup-insert (kube.name_string n) (kube.name_string n) pod s.cache,
    eq_refl (kube.name_string n),
  )

  again :
      (r : Outcome NamespacedName) (s s' : Process W) (pod : Pod)
      → (lift r >>= pod_of kube) s ≡ (ok pod, s')
      → (lift r >>= pod_of kube) s' ≡ (ok pod, s')
  unfolding pod_of
  again (ok n) s s' pod h =
      rw (fetch-cached n (lookup (kube.name_string n) s.cache) s s' pod refl h, or_fetch)
  again (err e) s s' pod h = cc
  again (panic p) s s' pod h = cc

  -- Once the current pod has been read, reading it again gives the same pod and leaves the process
  -- and the API server as they are, until the entry expires.
  pub get_current_pod_twice :
      (env : Environ) (s s' : Process W) (pod : Pod)
      → get_current_pod kube env s ≡ (ok pod, s')
      → get_current_pod kube env s' ≡ (ok pod, s')
  unfolding get_current_pod
  get_current_pod_twice env s s' pod h = again (get_current_pod_namespace_and_name env) s s' pod h

  -- Once the entry of the current pod has expired, GetCurrentPod ends as a call of the API server for
  -- that pod does, whatever was cached before.
  get_current_pod-expire :
      (env : Environ) (n : NamespacedName) (s : Process W)
      → get_current_pod_namespace_and_name env ≡ ok n
      → (get_current_pod kube env (expire kube n s)).0 ≡ (kube.get_pod n.namespace n.name s.api).0
  unfolding get_current_pod expire
  get_current_pod-expire env n s h = rw (h, lookup-without, eq_refl) (ground arith)
