-- ===== src/Template/Reflect/Values.antt =====
-- What the reflect library shows of a configuration.
use kidecar.Base.{String, Bool, Option}

-- reflect.StructField, and whether reflect.Value.CanInterface holds of the field
pub record StructField : Type 0 where
  pub name : String
  pub exported : Bool
  -- the tag's value under the key `parse`
  pub parse : Option String

-- reflect.Value, of a type with no cycles. `X` are the values of the kinds that ParseConfig passes
-- over: numbers, truth values, slices and maps.
mutual
  pub data Value (X : Type 0) : Type 0 where
    string : String → Value X
    struct : Fields X → Value X
    pointer : Value X → Value X
    nil_pointer : Value X
    other : X → Value X

  pub data Fields (X : Type 0) : Type 0 where
    end : Fields X
    field : StructField → Value X → Fields X → Fields X
