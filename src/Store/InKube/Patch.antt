-- ===== src/Store/InKube/Patch.antt =====
-- What the patch of the current pod sets.
use kidecar.Base.{String, ◌≡◌, refl, Option, none, some, [], ◌∷◌, str_eq, if◌then◌else◌}
use kidecar.Base.Maps.{Entries, HasKeysOnce, find, lookup, put_all, or_else, lookup-put_all}
use kidecar.Store.Config.{InKubeConfig, get_policy_of_state}
use kidecar.Store.InKube.{patch_data, policy_annotations, policy_labels, if_any, set_key}

-- The text itself, under the configured key.
abbrev pub own_key : Option String → String → String → Option String
own_key none text k = none
own_key (some j) text k = if str_eq j k then some text else none

lookup-if_any : (m : Entries String) (k : String) → find k (if_any m) ≡ lookup k m
unfolding if_any lookup
lookup-if_any [] k = refl
lookup-if_any (e ∷ m) k = refl

lookup-set_key :
    (key : Option String) (text k : String) → lookup k (set_key key text []) ≡ own_key key text k
unfolding set_key lookup
lookup-set_key none text k = refl
lookup-set_key (some j) text k = refl

module _ (text : String) (c : InKubeConfig) (k : String) where
  -- For every key: the patch sets the annotation that the policy of the text gives it, else the text
  -- if the key is the configured one, and else does not name it, so that the pod keeps what it has
  -- under the key; and so for the labels.
  pub patch_data_lem :
      HasKeysOnce (policy_annotations (get_policy_of_state c text))
      → HasKeysOnce (policy_labels (get_policy_of_state c text))
      → (find k (patch_data text c).annotations
          ≡ or_else
              (lookup k (policy_annotations (get_policy_of_state c text)))
              (own_key c.annotation_key text k))
        × (find k (patch_data text c).labels
            ≡ or_else
                (lookup k (policy_labels (get_policy_of_state c text)))
                (own_key c.label_key text k))
  unfolding patch_data
  patch_data_lem ha hl =
      let policy = get_policy_of_state c text in
      (
        rw (
          lookup-if_any (put_all (policy_annotations policy) (set_key c.annotation_key text [])) k,
          lookup-put_all (policy_annotations policy) (set_key c.annotation_key text []) k ha,
          lookup-set_key c.annotation_key text k,
        ),
        rw (
          lookup-if_any (put_all (policy_labels policy) (set_key c.label_key text [])) k,
          lookup-put_all (policy_labels policy) (set_key c.label_key text []) k hl,
          lookup-set_key c.label_key text k,
        ),
      )
