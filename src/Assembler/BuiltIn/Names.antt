-- ===== src/Assembler/BuiltIn/Names.antt =====
-- The registry, and what the assembler relies on.
use kidecar.Base.{◌≡◌, refl, String, some, eq_iff, arith}
use kidecar.Base.Maps.{lookup}
use kidecar.Base.Outcome.{ok}
use kidecar.BinaryPlugin.{Commands}
use kidecar.Assembler.State.{PluginLaws}
use kidecar.Assembler.BuiltIn.{Handle, name, registry, init_registry, built_in}

init_registry_lem : init_registry ≡ ok registry
unfolding init_registry
init_registry_lem = refl

registry-names : (k : String) (h : Handle) → lookup k registry ≡ some h → name h ≡ k
unfolding lookup name
registry-names k h e = ground (arith, eq_iff "http_probe" k, eq_iff "hot_update" k, e)

pub built_in_laws :
    {W V Pid M : Type 0} (commands : Commands V Pid)
    → PluginLaws (built_in {W = W} commands {M = M})
built_in_laws commands = record { registered = registry-names }
