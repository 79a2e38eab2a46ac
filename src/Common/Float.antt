-- ===== src/Common/Float.antt =====
-- Go's float64, of which the program uses the comparisons, the four operations below, the
-- conversion of an integer, and the decimal reader and printer of the standard library.
-- The values are abstract; a law is a field only where a theorem needs it.
use super_duper_bassoon.Common.Int.{ℤ}
use Prim.Native.Nat.{ℕ}
use Prim.Native.String.{String}
use mathlib.Core.Bool.{Bool}
use mathlib.Core.Option.{Option}

pub record Floats : Type 1 where
  pub Float : Type 0
  -- float64(n)
  pub of_int : ℤ → Float
  -- the constant m / 10 ^ k
  pub decimal : ℕ → ℕ → Float
  -- int(f), which drops the fraction
  pub to_int : Float → ℤ
  pub feq : Float → Float → Bool
  pub flt : Float → Float → Bool
  pub fle : Float → Float → Bool
  pub add : Float → Float → Float
  pub sub : Float → Float → Float
  pub mul : Float → Float → Float
  pub div : Float → Float → Float
  -- strconv.ParseFloat(s, 64), `none` for an error
  pub parse : String → Option Float
  -- fmt's %v
  pub print : Float → String
