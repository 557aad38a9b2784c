-- ===== src/Lib.antt =====
-- kidecar: a framework of sidecars for Kubernetes. A webhook injects containers into pods
-- (pkg/webhook, pkg/injector), and a sidecar that runs in a pod loads plugins (pkg/plugins) which
-- store their results in annotations, labels, metrics and a configmap (pkg/store, pkg/info,
-- pkg/template).
--
-- The parts, and the files that model them:
-- - Base and its children are shared: Go maps as association lists where nil is `none` (Maps),
--   the ends of a call as a result, an error or a run-time panic (Outcome), and calls over a
--   state, which keep what was written before they failed (Exec). A call of a binary plugin that
--   waits for the lock of the plugin ends as `blocked`, which is no panic.
-- - Kube and Api are the objects: of Kubernetes, with the fields that the code touches, and of
--   api/v1alpha1/sidecarconfig_types.go and api/types.go.
-- - Process is what one sidecar process shares: the cache of pods, the registered HTTP patterns
--   and the API server, whose client is the parameter `KubeInterface`.
-- - Info is pkg/info: GetCurrentPod with its cache (the expiry after a minute is the step
--   `expire`), GetCurrentPodInfo, GetConfigmap, UpdateConfigmap.
-- - Store is pkg/store: Config is config.go, InKube is in_kube.go, Metrics is prom_metrics.go,
--   Factory is factory.go with StoreData, and Persistent is persistent.go.
-- - Template is pkg/template: ReplaceValue, and ParseConfig at the StorageConfig that it is
--   called with. Template.Reflect is ParseConfig as it is written, over the trees of fields that
--   the reflect library shows of a value; Template.Reflect.Storage has those of a StorageConfig.
-- - HotUpdate is pkg/plugins/hot_update: Config and Version are help.go, and of executor.go
--   Download has downloadHotUpdateFile, Load has loadHotUpdateFileBySignal and storeData, Handler
--   has hotUpdateHandle, Start has setHotUpdateConfigWhenStart, and Processes the reading of the
--   process list. State is the plugin object of plugin.go, and Health is status.go. Requests is
--   the same handler in turns, for goroutines over one plugin object. Plugin is Init, Start and
--   Status of plugin.go: the requests that are handled while Start is in ListenAndServe are an
--   argument of its model.
-- - HttpProbe is pkg/plugins/http_probe: Config is config.go, Health is status.go, Executor is
--   executor.go with pkg/extractor, and of plugin.go Plugin has Init, Status and probeAndStore,
--   and Workers has Start with its goroutines, as a step relation over every interleaving, for a
--   context that may end and for one that never does.
-- - BinaryPlugin is pkg/plugins/binary, with the lock that a Start keeps while it sends its
--   error.
-- - Assembler is pkg/assembler/mgr.go: State has the sidecar, LoadConfig and the interface of a
--   plugin, Add has InitPlugins and AddPlugin, Polls has PluginStatus and RemovePlugin, Start has
--   Start and Stop. Convert is pkg/utils/convert.go, BuiltIn is pkg/plugins/registry.go with the
--   three plugins behind the interface, Main is cmd/sidecar/main.go with pkg/manager, and Serve
--   the health server.
-- - Collector is pkg/collector: the counts of the pods in the status of each SidecarConfig.
-- - Injector is pkg/injector: Match and Mutate are the two halves of pod.go, Inject is InjectPod
--   and the webhook's Default, Encode and Configmap are configmap.go.
-- - Controller is cmd/main.go, the program of the webhook, with internal/controller and
--   api/v1alpha1/sidecarconfig_webhook.go, which are scaffolding.
-- - Deployment is where Injector and Assembler meet: the container that InjectPod adds, the
--   configmap and the program that starts in it, over the parameter `Kubelet`.
-- - Tests has concrete libraries and servers, and the theorems at them.
--
-- How they interact: Injector.Inject calls Match, Mutate, Encode and Configmap over a `Request`,
-- the pod that is changed in place beside the server; HotUpdate.Load calls Template,
-- Store.Factory and Store.Persistent over the plugin object; those call Info over the `Process`.
-- HttpProbe.Executor calls Template and Store.Factory in the same way. Assembler works over the
-- interface `Plugins`, which Assembler.BuiltIn fills with the three plugins. Collector shares the
-- client of the API server and its laws with Injector.
--
-- The client libraries, Prometheus, YAML, JSON, semver, SHA-256 and the host (files, processes,
-- HTTP) are parameters; what a theorem needs of them is a record of laws among its hypotheses
-- (Server, ConfigServer, RetryLaws, ConfigmapLaws, YamlLaws, SemverLaws, ListenLaws, KubeletLaws,
-- FileLaws), and the modules of Tests fill them. The interface of a plugin has its laws too
-- (PluginLaws, ReadyLaws), which Assembler.BuiltIn proves of the three plugins. Every call of a
-- library may change the outside state, so the theorems allow for others that act in between,
-- except where a law says what it leaves out.
--
-- Every loop is a recursion on its list or its text, and the two loops without an end (the
-- collector's and the one of an endpoint) are recursions on the events that they see, so no fuel
-- is used. An `int32` wraps at 2^32 (next_int32, to_int32), and the counter of goroutines, an
-- `int`, at 2^64. Logs are left out, and so are timers, the locks that are released before
-- anything is waited for, and those arguments of an error text that only repeat a command or its
-- output. Two pieces of Go are not visible in the model: spare capacity behind a slice, and the
-- order in which `range` visits a map, which is the order of the list.
--
-- Not modelled: interleavings of requests to hot_update within a turn, and ParseConfig at values
-- with cycles, where it does not end. zz_generated.deepcopy.go is generated and has no logic of
-- its own.
pub mod Base
pub mod Kube
pub mod Api
pub mod Process
pub mod Info
pub mod Store
pub mod Template
pub mod HotUpdate
pub mod HttpProbe
pub mod BinaryPlugin
pub mod Assembler
pub mod Injector
pub mod Collector
pub mod Controller
pub mod Deployment
pub mod Tests
