-- ===== src/Client/Value.antt =====
-- Go's `interface{}` as far as the program looks into it: what JSON decodes to, the values of the
-- filter parser, and the map of labels. A number keeps its Go type where the code asks for it.
use super_duper_bassoon.Common.{String, Bool, List, Option, none, some, if◌then◌else◌, str_eq}
use super_duper_bassoon.Common.Int.{ℤ}
use super_duper_bassoon.Common.Dict.{Dict}

mutual
  pub data Value (F : Type 0) : Type 0 where
    null : Value F
    text : String → Value F
    bool : Bool → Value F
    int : ℤ → Value F
    int64 : ℤ → Value F
    float64 : F → Value F
    list : Values F → Value F
    strings : List String → Value F
    object : Fields F → Value F
    labels : Dict String → Value F

  pub data Values (F : Type 0) : Type 0 where
    nil : Values F
    cons : Value F → Values F → Values F

  pub data Fields (F : Type 0) : Type 0 where
    end : Fields F
    field : String → Value F → Fields F → Fields F

-- v, ok := m[k] on a map[string]interface{}
unfoldable pub get : {F : Type 0} → String → Fields F → Option (Value F)
get k end = none
get k (field j v m) = if str_eq j k then some v else get k m
