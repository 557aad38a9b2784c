-- ===== src/Injector/Mutate/Prune.antt =====
-- The token's mount is cut out of a container's volume mounts, and nothing else is.
use kidecar.Base.{
  suc, ◌≡◌, refl, Bool, Bool-cases, inl, inr, List, [], ◌∷◌, ◌++◌, arith, str_eq, eqb,
  if◌then◌else◌, length, take, drop, length-append,
}
use mathlib.Core.List.{append_assoc}
use kidecar.Kube.{VolumeMount}
use kidecar.Injector.Mutate.{token_mount_path, prune_from, prune_token}

abbrev is_token : VolumeMount → Bool
is_token m = str_eq m.mount_path token_mount_path

-- The list without its first mount of the token.
unfoldable pub erase_token : List VolumeMount → List VolumeMount
erase_token [] = []
erase_token (m ∷ ms) = if is_token m then ms else m ∷ erase_token ms

take-append {ℓ} : {A : Type ℓ} (xs ys : List A) → take (length xs) (xs ++ ys) ≡ xs
take-append [] ys = refl
take-append (x ∷ xs) ys = rw (take-append xs ys)

drop-append {ℓ} :
    {A : Type ℓ} (xs : List A) (y : A) (ys : List A) → drop (suc (length xs)) (xs ++ y ∷ ys) ≡ ys
drop-append [] y ys = refl
drop-append (x ∷ xs) y ys = drop-append xs y ys

-- A slice of length one that holds the mount is that mount alone.
alone :
    (pre : List VolumeMount) (m : VolumeMount) (ms : List VolumeMount)
    → (if eqb (length (pre ++ m ∷ ms)) 1 then [] else pre ++ ms) ≡ pre ++ ms
alone [] m [] = refl
alone [] m (n ∷ ms) = ground arith
alone (p ∷ pre) m ms = ground (arith, length-append pre (m ∷ ms))

regroup {ℓ} :
    {A : Type ℓ} (pre : List A) (m : A) (ms : List A) → (pre ++ m ∷ []) ++ ms ≡ pre ++ m ∷ ms
regroup pre m ms = append_assoc pre (m ∷ []) ms

length-snoc {ℓ} : {A : Type ℓ} (pre : List A) (m : A) → length (pre ++ m ∷ []) ≡ suc (length pre)
length-snoc pre m = omega (arith, length-append pre (m ∷ []))

shift :
    (pre : List VolumeMount) (m : VolumeMount) (ms : List VolumeMount)
    → prune_from ((pre ++ m ∷ []) ++ ms) (length (pre ++ m ∷ [])) ms
      ≡ (pre ++ m ∷ []) ++ erase_token ms
    → prune_from (pre ++ m ∷ ms) (suc (length pre)) ms ≡ pre ++ m ∷ erase_token ms
shift pre m ms h = cc (regroup pre m ms, length-snoc pre m, regroup pre m (erase_token ms))

prune_from-erase :
    (pre rest : List VolumeMount)
    → prune_from (pre ++ rest) (length pre) rest ≡ pre ++ erase_token rest
unfolding prune_from erase_token
prune_from-erase pre [] = refl
prune_from-erase pre (m ∷ ms) = elim (Bool-cases (is_token m)) [
  | inl e ↦ rw (e, take-append, drop-append) (alone pre m ms)
  | inr e ↦ rw e (shift pre m ms (prune_from-erase (pre ++ m ∷ []) ms))
]

-- On every list of mounts, the loop with its index and its cut of the slice gives the list without
-- its first mount of the service account's token: the others stay, in their order.
pub prune_token-erase : (mounts : List VolumeMount) → prune_token mounts ≡ erase_token mounts
unfolding prune_token
prune_token-erase mounts = prune_from-erase [] mounts
