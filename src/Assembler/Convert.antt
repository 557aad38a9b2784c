-- ===== src/Assembler/Convert.antt =====
-- pkg/utils/convert.go, with encoding/json and reflect as parameters. ConvertAnyToPtr is `some`.
use kidecar.Base.{String, Bool, false, not, Option, none, some, if◌then◌else◌}
use kidecar.Base.Outcome.{Outcome, err, msg, and_then, or_wrapped}

-- encoding/json and reflect, at the objects `J` and at the pointers `C`.
pub record Json (J C : Type 0) : Type 0 where
  -- whether it is a map[string]interface{}
  pub is_map : J → Bool
  -- reflect.Ptr, and reflect.Struct behind it
  pub is_pointer : C → Bool
  pub points_to_struct : C → Bool
  pub marshal : J → Outcome String
  -- json.Unmarshal into what the pointer points to
  pub unmarshal : String → C → Outcome C

module _ {J C : Type 0} (json : Json J C) where
  is_pointer_to_struct : C → Bool
  is_pointer_to_struct c = if json.is_pointer c then json.points_to_struct c else false

  convert_object : J → C → Outcome C
  unfolding is_pointer_to_struct
  convert_object source target =
      if not (json.is_map source)
      then err (msg "source must be a map[string]interface{}")
      else if not (is_pointer_to_struct target)
      then err (msg "target must be a pointer to a struct")
      else and_then (or_wrapped "failed to marshal source" (json.marshal source))
          (λ bytes. or_wrapped "failed to unmarshal" (json.unmarshal bytes target))

  unfoldable pub convert_json_object_to_struct : Option J → Option C → Outcome C
  unfolding convert_object
  convert_json_object_to_struct none target = err (msg "source is nil")
  convert_json_object_to_struct (some source) none = err (msg "target is nil")
  convert_json_object_to_struct (some source) (some target) = convert_object source target

-- What ConvertToString tells apart in an `interface{}`: a text, bytes, or a value `V` of another type.
pub data Printed (V : Type 0) : Type 0 where
  text bytes : String → Printed V
  value : V → Printed V

-- ConvertToString, over the verb `%v` of fmt
convert_to_string : {V : Type 0} → (V → String) → Printed V → String
convert_to_string print (text t) = t
convert_to_string print (bytes b) = b
convert_to_string print (value v) = print v

convert_any_to_ptr : {A : Type 0} → A → Option A
convert_any_to_ptr a = some a
