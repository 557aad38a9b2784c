-- ===== src/Injector.antt =====
-- pkg/injector: what the admission webhook does to a pod that is being created.
pub mod Client
pub mod Match
pub mod Mutate
pub mod Encode
pub mod Configmap
pub mod Inject
