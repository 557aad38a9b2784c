-- ===== src/HotUpdate/Version/Newest.antt =====
-- The version that is loaded again after a restart.
use kidecar.Base.{sym, subst, String, ◌≡◌, refl, true, false, Bool-cases, inl, inr, ◌⊎◌, [], ◌∷◌}
use kidecar.Base.Maps.{Entries}
use kidecar.HotUpdate.Version.{Semver, newest}

-- What semver.Compare documents: it orders the versions, some of which may be equal.
pub record SemverLaws (semver : Semver) : Type 0 where
  pub irreflexive : (a : String) → semver.less a a ≡ false
  pub asymmetric : (a b : String) → semver.less a b ≡ true → semver.less b a ≡ false
  pub through :
      (a b c : String) → semver.less a b ≡ false → semver.less b c ≡ false → semver.less a c ≡ false

-- Every version of the list is at most a given one.
unfoldable pub AtMost : Semver → String → Entries String → Type 0
AtMost semver best [] = Unit
AtMost semver best ((v, u) ∷ rest) = (semver.less best v ≡ false) × AtMost semver best rest

-- One of the entries of a list.
unfoldable pub IsEntry : String × String → Entries String → Type 0
IsEntry e [] = ⊥
IsEntry e (x ∷ rest) = (e ≡ x) ⊎ IsEntry e rest

module _ (semver : Semver) (laws : SemverLaws semver) where
  newest-taken :
      (best : String × String) (v u : String) (rest : Entries String)
      → semver.less best.0 v ≡ true
      → newest semver best ((v, u) ∷ rest) ≡ newest semver (v, u) rest
  unfolding newest
  newest-taken best v u rest h = rw (newest, h) refl

  newest-kept :
      (best : String × String) (v u : String) (rest : Entries String)
      → semver.less best.0 v ≡ false
      → newest semver best ((v, u) ∷ rest) ≡ newest semver best rest
  unfolding newest
  newest-kept best v u rest h = rw (newest, h) refl

  -- A pair that is not below the first best, and not below the list.
  abbrev IsBound : String × String → Entries String → String × String → Type 0
  IsBound best es x = (semver.less x.0 best.0 ≡ false) × AtMost semver x.0 es

  newest-IsBound :
      (best : String × String) (es : Entries String) → IsBound best es (newest semver best es)
  unfolding AtMost newest
  newest-IsBound best [] = (laws.irreflexive best.0, tt)
  newest-IsBound best ((v, u) ∷ rest) = elim (Bool-cases (semver.less best.0 v)) [
    | inl h ↦
        let r = newest-IsBound (v, u) rest in
        subst (IsBound best ((v, u) ∷ rest)) (sym (newest-taken best v u rest h)) (
          laws.through (newest semver (v, u) rest).0 v best.0 r.0 (laws.asymmetric best.0 v h),
          (r.0, r.1),
        )
    | inr h ↦
        let r = newest-IsBound best rest in
        subst (IsBound best ((v, u) ∷ rest)) (sym (newest-kept best v u rest h))
          (r.0, (laws.through (newest semver best rest).0 best.0 v r.0 h, r.1))
  ]

  newest_chosen :
      (best : String × String) (es : Entries String)
      → (newest semver best es ≡ best) ⊎ IsEntry (newest semver best es) es
  unfolding newest IsEntry
  newest_chosen best [] = inl refl
  newest_chosen best ((v, u) ∷ rest) = elim (Bool-cases (semver.less best.0 v)) [
    | inl h ↦
        subst (λ x. (x ≡ best) ⊎ IsEntry x ((v, u) ∷ rest)) (sym (newest-taken best v u rest h))
          (inr (elim (newest_chosen (v, u) rest) [ inl e ↦ inl e | inr e ↦ inr e ]))
    | inr h ↦
        subst (λ x. (x ≡ best) ⊎ IsEntry x ((v, u) ∷ rest)) (sym (newest-kept best v u rest h))
          (elim (newest_chosen best rest) [ inl e ↦ inl e | inr e ↦ inr (inr e) ])
  ]

  -- Under the laws of semver.Compare, the loop that starts with the empty version and URL ends with
  -- them or with an entry of the list, and no version of the list is above the one it ends with.
  pub newest-AtMost :
      (es : Entries String)
      → ((newest semver ("", "") es ≡ ("", "")) ⊎ IsEntry (newest semver ("", "") es) es)
        × AtMost semver (newest semver ("", "") es).0 es
  newest-AtMost es = (newest_chosen ("", "") es, (newest-IsBound ("", "") es).1)

-- If semver takes every version of the list for one that is not above the empty text, as it does
-- for the versions that it rejects, then the loop ends with the empty version and the empty URL.
newest-rejected :
    (semver : Semver) (es : Entries String)
    → AtMost semver "" es
    → newest semver ("", "") es ≡ ("", "")
unfolding newest AtMost
newest-rejected semver [] h = refl
newest-rejected semver ((v, u) ∷ rest) h = rw h.0 (newest-rejected semver rest h.1)
