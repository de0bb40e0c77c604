-- ===== src/Heaven/Json.antt =====
-- The values that heaven/pf.go hands to encoding/json.
use genesis_ssmp.Base.{Bool, ℤ, Bytes}

mutual
  pub data Json : Type 0 where
    null : Json
    str : Bytes → Json
    num : ℤ → Json
    boolean : Bool → Json
    arr : Elements → Json
    obj : Fields → Json

  pub data Elements : Type 0 where
    nothing : Elements
    element : Json → Elements → Elements

  pub data Fields : Type 0 where
    no_more : Fields
    field : Bytes → Json → Fields → Fields
