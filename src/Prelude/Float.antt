-- ===== src/Prelude/Float.antt =====
-- Go's float64, as a type with the operations that the code uses.
use mathlib.Core.Bool.{Bool}
use Prim.Native.String.{String}
use ai_finops_operator.Prelude.Int.{ℤ}

-- `literal` reads a decimal literal, `lt`, `le` and `eq` are the comparisons of the language, and
-- `to_int` and `to_int32` are the conversions to int64 and int32. The other operations are those of
-- the language and of the package math.
pub record Floats : Type 1 where
  pub Float : Type 0
  pub literal : String → Float
  pub of_int : ℤ → Float
  pub to_int : Float → ℤ
  pub to_int32 : Float → ℤ
  pub add : Float → Float → Float
  pub sub : Float → Float → Float
  pub mul : Float → Float → Float
  pub div : Float → Float → Float
  pub lt : Float → Float → Bool
  pub le : Float → Float → Bool
  pub eq : Float → Float → Bool
  pub min : Float → Float → Float
  pub max : Float → Float → Float
  pub sqrt : Float → Float
  pub floor : Float → Float
  pub ceil : Float → Float
  pub round : Float → Float
