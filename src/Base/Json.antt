-- ===== src/Base/Json.antt =====
-- The values of `interface{}` that `encoding/json` produces. A number is the integer to which
-- `int64(f)` converts it: the hub reads no fraction.

use mathlib.Core.Bool.{Bool}
use santokit.Base.Bytes.{Text}
use santokit.Base.Int.{ℤ}

mutual
  pub data Json : Type 0 where
    null : Json
    bool : Bool → Json
    num : ℤ → Json
    str : Text → Json
    arr : Items → Json
    obj : Fields → Json

  pub data Items : Type 0 where
    nil : Items
    cons : Json → Items → Items

  pub data Fields : Type 0 where
    end : Fields
    field : Text → Json → Fields → Fields
