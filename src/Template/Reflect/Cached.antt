-- ===== src/Template/Reflect/Cached.antt =====
-- All calls of ParseConfig over one configuration see one pod, so that the walk is a replacement of
-- texts.
use Prim.Native.String.{◌++◌ as str_append}
use kidecar.Base.{String, Bool, true, false, ◌≡◌, refl, ap}
use kidecar.Base.Outcome.{Outcome, ok, err, panic, or_wrapped}
use kidecar.Base.Exec.{wrap_end}
use kidecar.Kube.{Pod}
use kidecar.Process.{Environ, Process, KubeInterface}
use kidecar.Info.{get_current_pod}
use kidecar.Info.Cache.{get_current_pod_twice}
use kidecar.Template.{expression_replace_value}
use kidecar.Template.Reflect.{
  is_tagged, put_string, put_struct, put_pointer, put_rest, then_rest, walked_if, with_pod,
  current_pod, parse_string, parse_fields, parse_value, parse_pointee, with_pod_value, parse_elem,
  parse_given, parse_config,
}
use kidecar.Template.Reflect.Values.{
  StructField, Value, string, struct, pointer, nil_pointer, other, Fields, end, field,
}

-- What a text becomes.
unfoldable pub text_or : String → Outcome String → String
text_or s (ok t) = t
text_or s (err e) = s
text_or s (panic f) = s

unfoldable pub choose : {A : Type 0} → Bool → A → A → A
choose true x y = x
choose false x y = y

module _ {X : Type 0} (env : Environ) (pod : Pod) where
  -- The configuration with its texts replaced, of the exported fields with the tag, in structures and
  -- behind pointers to structures.
  unfoldable mutual
    unfolding choose is_tagged text_or expression_replace_value

    pub replaced_fields : Fields X → Fields X
    replaced_fields end = end
    replaced_fields (field i v fs) =
        field i (choose i.exported (replaced_value i v) v) (replaced_fields fs)

    pub replaced_value : StructField → Value X → Value X
    replaced_value i (string s) =
        choose (is_tagged i.parse) (string (text_or s (expression_replace_value env s pod)))
          (string s)
    replaced_value i (struct fs) = struct (replaced_fields fs)
    replaced_value i (pointer v) = pointer (replaced_pointee v)
    replaced_value i nil_pointer = nil_pointer
    replaced_value i (other x) = other x

    pub replaced_pointee : Value X → Value X
    replaced_pointee (struct fs) = struct (replaced_fields fs)
    replaced_pointee (string s) = string s
    replaced_pointee (pointer v) = pointer v
    replaced_pointee nil_pointer = nil_pointer
    replaced_pointee (other x) = other x

  -- There is a text for each text to replace.
  unfoldable mutual
    unfolding is_tagged expression_replace_value

    pub FieldsResolve : Fields X → Type 0
    FieldsResolve end = Unit
    FieldsResolve (field i v fs) = (i.exported ≡ true → ValueResolves i v) × FieldsResolve fs

    pub ValueResolves : StructField → Value X → Type 0
    ValueResolves i (string s) =
        is_tagged i.parse ≡ true → (t : String) × (expression_replace_value env s pod ≡ ok t)
    ValueResolves i (struct fs) = FieldsResolve fs
    ValueResolves i (pointer v) = PointeeResolves v
    ValueResolves i nil_pointer = Unit
    ValueResolves i (other x) = Unit

    pub PointeeResolves : Value X → Type 0
    PointeeResolves (struct fs) = FieldsResolve fs
    PointeeResolves (string s) = Unit
    PointeeResolves (pointer v) = Unit
    PointeeResolves nil_pointer = Unit
    PointeeResolves (other x) = Unit

  module _ {W : Type 0} where
    walked_if-replaced :
        (b : Bool) (v w : Value X) (p : Process W) (x : Outcome (Unit {0}) × (Process W × Value X))
        → (b ≡ true → x ≡ (ok tt, (p, w)))
        → walked_if b v p x ≡ (ok tt, (p, choose b w v))
    unfolding walked_if choose
    walked_if-replaced true v w p x h = h refl
    walked_if-replaced false v w p x h = refl

    put_string-replaced :
        (s t : String) (p : Process W) (o : Outcome String) (text : String)
        → o ≡ ok t
        → put_string {X = X} true s p (or_wrapped text o) ≡ (ok tt, (p, string (text_or s o)))
    unfolding put_string text_or
    put_string-replaced s t p (ok u) text h = refl
    put_string-replaced s t p (err e) text h = cc
    put_string-replaced s t p (panic f) text h = cc

  module _ {W : Type 0} (kube : KubeInterface W) (p : Process W)
      (held : current_pod kube env p ≡ (ok pod, p)) where
    parse_string-replaced :
        (i : StructField) (s : String)
        → ValueResolves i (string s)
        → parse_string kube env true i pod s p ≡ (ok tt, (p, replaced_value i (string s)))
    unfolding parse_string replaced_fields FieldsResolve
    parse_string-replaced i s h =
        walked_if-replaced (is_tagged i.parse) (string s)
          (string (text_or s (expression_replace_value env s pod))) p _
          (λ b.
            let (t, e) = h b in
            put_string-replaced s t p (expression_replace_value env s pod)
              (str_append "failed to parse field " i.name) e)

    mutual
      unfolding parse_fields replaced_fields FieldsResolve then_rest put_rest with_pod put_struct
          put_pointer

      parse_fields-replaced :
          (fs : Fields X)
          → FieldsResolve fs
          → parse_fields kube env true pod fs p ≡ (ok tt, (p, replaced_fields fs))
      parse_fields-replaced end h = refl
      parse_fields-replaced (field i v fs) (h, hs) =
          rw
            (
              walked_if-replaced i.exported v (replaced_value i v) p
                  (parse_value kube env true i pod v p) (λ b. parse_value-replaced i v (h b)),
              parse_fields-replaced fs hs,
            )
            refl

      parse_value-replaced :
          (i : StructField) (v : Value X)
          → ValueResolves i v
          → parse_value kube env true i pod v p ≡ (ok tt, (p, replaced_value i v))
      parse_value-replaced i (string s) h = parse_string-replaced i s h
      parse_value-replaced i (struct fs) h = rw (held, parse_fields-replaced fs h) refl
      parse_value-replaced i (pointer v) h = ap put_pointer (parse_pointee-replaced v h)
      parse_value-replaced i nil_pointer h = refl
      parse_value-replaced i (other x) h = refl

      parse_pointee-replaced :
          (v : Value X)
          → PointeeResolves v
          → parse_pointee kube env v p ≡ (ok tt, (p, replaced_pointee v))
      parse_pointee-replaced (struct fs) h = rw (held, parse_fields-replaced fs h) refl
      parse_pointee-replaced (string s) h = refl
      parse_pointee-replaced (pointer v) h = refl
      parse_pointee-replaced nil_pointer h = refl
      parse_pointee-replaced (other x) h = refl

    given-replaced :
        (fs : Fields X) (p0 : Process W)
        → current_pod kube env p0 ≡ (ok pod, p)
        → FieldsResolve fs
        → parse_config kube env (pointer (struct fs)) p0
          ≡ (ok tt, (p, pointer (struct (replaced_fields fs))))
    unfolding parse_config with_pod_value parse_given parse_elem put_struct put_pointer
    given-replaced fs p0 first h = rw (first, parse_fields-replaced fs h) refl

-- If the current pod can be read, and every text to replace has a replacement for that pod, then
-- ParseConfig of a pointer to a structure succeeds. It has replaced these texts, at any depth, and
-- changed nothing else. However many structures it has walked, the process is as the first
-- reading of the pod left it: no other call of it reaches the API server.
pub parse_config-replaced :
    {W X : Type 0} (kube : KubeInterface W) (env : Environ) (pod : Pod) (fs : Fields X)
    (p p' : Process W)
    → get_current_pod kube env p ≡ (ok pod, p')
    → FieldsResolve env pod fs
    → parse_config kube env (pointer (struct fs)) p
      ≡ (ok tt, (p', pointer (struct (replaced_fields env pod fs))))
unfolding current_pod
parse_config-replaced kube env pod fs p p' h r =
    let first : current_pod kube env p ≡ (ok pod, p') =
      ap (wrap_end "failed to get current pod") h in
    let held : current_pod kube env p' ≡ (ok pod, p') =
      ap (wrap_end "failed to get current pod") (get_current_pod_twice kube env p p' pod h) in
    given-replaced env pod kube p' held fs p first r
