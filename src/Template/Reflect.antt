-- ===== src/Template/Reflect.antt =====
-- ParseConfig of pkg/template/parser.go, at a configuration of any type. What the reflect library
-- shows of a value is a tree: the fields of a structure come with their descriptions.
pub mod Values
pub mod Storage
pub mod Cached
use Prim.Native.String.{◌++◌ as str_append}
use kidecar.Base.{String, Bool, true, false, Option, none, some, str_eq}
use kidecar.Base.Outcome.{Outcome, ok, err, panic, Fault, explicit, or_wrapped}
use kidecar.Base.Exec.{wrapping}
use kidecar.Kube.{Pod}
use kidecar.Process.{Environ, Process, KubeInterface}
use kidecar.Info.{get_current_pod}
use kidecar.Template.{expression_replace_value}
use kidecar.Template.Reflect.Values.{
  StructField, Value, string, struct, pointer, nil_pointer, other, Fields, end, field,
}

-- fieldType.Tag.Lookup("parse") finds "true".
unfoldable pub is_tagged : Option String → Bool
is_tagged none = false
is_tagged (some tag) = str_eq tag "true"

-- A write through a structure that was passed by value.
abbrev pub not_addressable : Fault
not_addressable = explicit "reflect: call on an unaddressable value"

-- A walk of NumField over a value that is not a structure.
abbrev pub not_struct : Fault
not_struct = explicit "reflect: call of reflect.Value.NumField on a value that is not a struct"

module _ {W X : Type 0} where
  unfoldable pub put_string :
      Bool → String → Process W → Outcome String → Outcome (Unit {0}) × (Process W × Value X)
  put_string true s p (ok t) = (ok tt, (p, string t))
  put_string false s p (ok t) = (panic not_addressable, (p, string s))
  put_string a s p (err e) = (err e, (p, string s))
  put_string a s p (panic f) = (panic f, (p, string s))

  unfoldable pub put_struct :
      Outcome (Unit {0}) × (Process W × Fields X) → Outcome (Unit {0}) × (Process W × Value X)
  put_struct (r, (p, fs)) = (r, (p, struct fs))

  unfoldable pub put_pointer :
      Outcome (Unit {0}) × (Process W × Value X) → Outcome (Unit {0}) × (Process W × Value X)
  put_pointer (r, (p, v)) = (r, (p, pointer v))

  put_rest :
      StructField
      → Value X
      → Outcome (Unit {0}) × (Process W × Fields X)
      → Outcome (Unit {0}) × (Process W × Fields X)
  put_rest i v (r, (p, fs)) = (r, (p, field i v fs))

  -- What the walk makes of a field if the test holds, and the field as it is if not.
  unfoldable pub walked_if :
      Bool
      → Value X
      → Process W
      → Outcome (Unit {0}) × (Process W × Value X)
      → Outcome (Unit {0}) × (Process W × Value X)
  walked_if true v p walked = walked
  walked_if false v p walked = (ok tt, (p, v))

  -- The rest of the loop, if there is one; what a field has become stays written.
  unfoldable pub then_rest :
      StructField
      → Fields X
      → (Process W → Outcome (Unit {0}) × (Process W × Fields X))
      → Outcome (Unit {0}) × (Process W × Value X)
      → Outcome (Unit {0}) × (Process W × Fields X)
  unfolding put_rest
  then_rest i fs rest (ok u, (p, v)) = put_rest i v (rest p)
  then_rest i fs rest (err e, (p, v)) = (err e, (p, field i v fs))
  then_rest i fs rest (panic f, (p, v)) = (panic f, (p, field i v fs))

  -- The loop of ParseConfig, behind its call of GetCurrentPod.
  unfoldable pub with_pod :
      Fields X
      → (Pod → Process W → Outcome (Unit {0}) × (Process W × Fields X))
      → Outcome Pod × Process W
      → Outcome (Unit {0}) × (Process W × Fields X)
  with_pod fs loop (ok pod, p) = loop pod p
  with_pod fs loop (err e, p) = (err e, (p, fs))
  with_pod fs loop (panic f, p) = (panic f, (p, fs))

module _ {W : Type 0} (kube : KubeInterface W) (env : Environ) where
  -- GetCurrentPod, as each call of ParseConfig begins.
  unfoldable pub current_pod : Process W → Outcome Pod × Process W
  unfolding get_current_pod
  current_pod = wrapping "failed to get current pod" (get_current_pod kube env)

module _ {W X : Type 0} (kube : KubeInterface W) (env : Environ) where
  unfoldable pub parse_string :
      Bool → StructField → Pod → String → Process W → Outcome (Unit {0}) × (Process W × Value X)
  unfolding is_tagged expression_replace_value put_string walked_if
  parse_string a i pod s p = walked_if (is_tagged i.parse) (string s) p (
      put_string a s p (
        or_wrapped (str_append "failed to parse field " i.name)
          (expression_replace_value env s pod)))

  unfoldable mutual
    unfolding parse_string current_pod walked_if put_struct put_pointer then_rest with_pod

    -- The loop over the fields of a structure, which is addressable or not.
    pub parse_fields :
        Bool → Pod → Fields X → Process W → Outcome (Unit {0}) × (Process W × Fields X)
    parse_fields a pod end p = (ok tt, (p, end))
    parse_fields a pod (field i v fs) p =
        then_rest i fs (parse_fields a pod fs) (walked_if i.exported v p (parse_value a i pod v p))

    -- What the loop does with one field.
    pub parse_value :
        Bool → StructField → Pod → Value X → Process W → Outcome (Unit {0}) × (Process W × Value X)
    parse_value a i pod (string s) p = parse_string a i pod s p
    parse_value true i pod (struct fs) p =
        put_struct (with_pod fs (λ own. parse_fields true own fs) (current_pod kube env p))
    parse_value false i pod (struct fs) p = (panic not_addressable, (p, struct fs))
    parse_value a i pod (pointer v) p = put_pointer (parse_pointee v p)
    parse_value a i pod nil_pointer p = (ok tt, (p, nil_pointer))
    parse_value a i pod (other x) p = (ok tt, (p, other x))

    pub parse_pointee : Value X → Process W → Outcome (Unit {0}) × (Process W × Value X)
    parse_pointee (struct fs) p =
        put_struct (with_pod fs (λ own. parse_fields true own fs) (current_pod kube env p))
    parse_pointee (string s) p = (ok tt, (p, string s))
    parse_pointee (pointer v) p = (ok tt, (p, pointer v))
    parse_pointee nil_pointer p = (ok tt, (p, nil_pointer))
    parse_pointee (other x) p = (ok tt, (p, other x))

  with_pod_value :
      (Pod → Process W → Outcome (Unit {0}) × (Process W × Value X))
      → Value X
      → Outcome Pod × Process W
      → Outcome (Unit {0}) × (Process W × Value X)
  with_pod_value walk v (ok pod, p) = walk pod p
  with_pod_value walk v (err e, p) = (err e, (p, v))
  with_pod_value walk v (panic f, p) = (panic f, (p, v))

  -- What is behind the pointer that ParseConfig was given.
  parse_elem : Value X → Pod → Process W → Outcome (Unit {0}) × (Process W × Value X)
  unfolding parse_fields put_struct
  parse_elem (struct fs) pod p = put_struct (parse_fields true pod fs p)
  parse_elem v pod p = (panic not_struct, (p, v))

  parse_given : Value X → Pod → Process W → Outcome (Unit {0}) × (Process W × Value X)
  unfolding parse_elem parse_fields put_struct put_pointer
  parse_given (struct fs) pod p = put_struct (parse_fields false pod fs p)
  parse_given (pointer v) pod p = put_pointer (parse_elem v pod p)
  parse_given nil_pointer pod p = (ok tt, (p, nil_pointer))
  parse_given v pod p = (panic not_struct, (p, v))

  -- ParseConfig, of a pointer to a structure, or of a copy of the structure
  unfoldable pub parse_config : Value X → Process W → Outcome (Unit {0}) × (Process W × Value X)
  unfolding with_pod_value parse_given current_pod
  parse_config v p = with_pod_value (parse_given v) v (current_pod kube env p)
