-- ===== src/Assembler/Main.antt =====
-- cmd/sidecar/main.go, and NewManager of pkg/manager/manager.go.
use kidecar.Base.{ℕ, String, ◌⊎◌, inl, inr, Option, none, some}
use kidecar.Base.Outcome.{Err, Outcome, ok, and_then, or_wrapped, explicit, error_text}
use kidecar.Base.Exec.{Exec, pure, crash, lift, attempt, ◌>>=◌, ◌>>◌}
use kidecar.Assembler.Convert.{Json}
use kidecar.Assembler.State.{Plugins, Files, Sidecar, load_config, setup_with_manager}
use kidecar.Assembler.Add.{init_plugins}
use kidecar.Assembler.Start.{start}

-- controller-runtime and client-go: a REST configuration `K`, a manager and a client set.
pub record Cluster (K R I : Type 0) : Type 0 where
  pub get_config : Outcome K
  pub new_manager : K → Outcome R
  pub new_for_config : K → Outcome I

-- How the program ends, if it does not end in a panic.
pub data Exit : Type 0 where
  exited : ℕ → Exit
  main_returned : Exit

-- The third interface that sidecarManager embeds, DBManager, is left nil.
new_manager : {K R I : Type 0} → Cluster K R I → Outcome (R × I)
new_manager cluster = and_then (or_wrapped "unable to get kubeconfig" cluster.get_config) (λ cfg.
    and_then (or_wrapped "unable to create manager" (cluster.new_manager cfg)) (λ mgr.
      and_then (or_wrapped "unable to create kubernetes client" (cluster.new_for_config cfg))
        (λ kube. ok (mgr, kube))))

-- The default of the flag `config`.
abbrev pub default_config_path : String
default_config_path = "/opt/kidecar/config.yaml"

-- if err != nil { panic(err) }
panicking : {S A : Type 0} → Exec S (Err ⊎ A) → Exec S A
panicking {S} {A} m = m >>= or_panic
  where
    or_panic : Err ⊎ A → Exec S A
    or_panic (inl e) = crash (explicit (error_text e))
    or_panic (inr a) = pure a

module _ {P H J C K R I : Type 0} (plugins : Plugins P H C (R × I)) (json : Json J C)
    (files : Files J) (cluster : Cluster K R I) (others : H → P → P)
    (await : Sidecar P H J (R × I) → Option Err × Sidecar P H J (R × I)) where
  main_ended : Option Err → Exec (Sidecar P H J (R × I)) Exit
  main_ended none = pure main_returned
  main_ended (some e) = crash (explicit (error_text e))

  after_load : Err ⊎ Unit {0} → Exec (Sidecar P H J (R × I)) Exit
  unfolding new_manager panicking setup_with_manager init_plugins start main_ended
  after_load (inl e) = pure (exited 1)
  after_load (inr u) = do
    mgr ← panicking (attempt (lift (new_manager cluster)))
    setup_with_manager mgr
    panicking (attempt (init_plugins plugins json))
    run ← start plugins others await
    main_ended run.received

  -- main, for the path of the flag `config`. SetGlobalKubeInterface only hands the manager to pkg/info.
  main : String → Exec (Sidecar P H J (R × I)) Exit
  unfolding load_config after_load
  main path = do r ← attempt (load_config files path); after_load r
