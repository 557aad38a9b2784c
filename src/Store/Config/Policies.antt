-- ===== src/Store/Config/Policies.antt =====
-- The marker policies: after Preprocess a state has the policy that is last in the configuration.
use kidecar.Base.{
  ◌∙◌, String, ◌≡◌, refl, Bool, true, false, Option, none, some, List, [], ◌∷◌, arith, str_eq,
  eq_iff, if◌then◌else◌,
}
use kidecar.Base.Maps.{Entries, entries, lookup, insert, or_else, lookup-insert}
use kidecar.Store.Config.{
  ProbeMarkerPolicy, InKubeConfig, add_policies, preprocess, get_policy_of_state,
}

-- The last policy of a list for a state.
unfoldable pub last_policy : String → List ProbeMarkerPolicy → Option ProbeMarkerPolicy
last_policy state [] = none
last_policy state (p ∷ ps) =
    or_else (last_policy state ps) (if str_eq p.state state then some p else none)

lookup-add_policies :
    (ps : List ProbeMarkerPolicy) (m : Entries ProbeMarkerPolicy) (state : String)
    → lookup state (add_policies ps m) ≡ or_else (last_policy state ps) (lookup state m)
unfolding add_policies last_policy
lookup-add_policies [] m state = refl
lookup-add_policies (p ∷ ps) m state =
    ground
      (arith, lookup-add_policies ps (insert p.state p m) state, lookup-insert p.state state p m)

-- A configuration as it is decoded: the inner fields are not set.
abbrev pub IsFresh : InKubeConfig → Type 0
IsFresh c = (c.policy_map ≡ none) × (c.preprocessd ≡ false)

lookup-nonempty :
    (m : Entries ProbeMarkerPolicy) (state : String)
    → (if kidecar.Base.is_empty m then none else lookup state m) ≡ lookup state m
unfolding lookup
lookup-nonempty [] state = refl
lookup-nonempty (e ∷ m) state = refl

or_else-empty : (o : Option ProbeMarkerPolicy) (state : String) → or_else o (lookup state []) ≡ o
unfolding lookup
or_else-empty none state = refl
or_else-empty (some p) state = refl

map_of :
    (c : InKubeConfig) (ps : List ProbeMarkerPolicy)
    → IsFresh c
    → c.marker_polices ≡ ps
    → entries (preprocess c).policy_map ≡ add_policies ps []
unfolding preprocess add_policies
map_of c [] fresh e = ground (arith, e, fresh)
map_of c (p ∷ ps) fresh e = ground (arith, e, fresh)

-- For every freshly decoded configuration and every state, the policy that GetPolicyOfState finds
-- after Preprocess is the last one in MarkerPolices with that state, and none is found if there is
-- none.
pub get_policy_of_state-preprocess :
    (c : InKubeConfig) (state : String)
    → IsFresh c
    → get_policy_of_state (preprocess c) state ≡ last_policy state c.marker_polices
unfolding get_policy_of_state
get_policy_of_state-preprocess c state fresh = rw (map_of c c.marker_polices fresh refl) (
    lookup-nonempty (add_policies c.marker_polices []) state
    ∙ lookup-add_policies c.marker_polices [] state
    ∙ or_else-empty (last_policy state c.marker_polices) state)

-- Preprocess does nothing the second time.
pub preprocess_twice : (c : InKubeConfig) → preprocess (preprocess c) ≡ preprocess c
unfolding preprocess
preprocess_twice c = ground arith
