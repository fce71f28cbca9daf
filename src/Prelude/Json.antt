-- ===== src/Prelude/Json.antt =====
-- JSON values. The elements of an array and the entries of an object, in the order of insertion, are
-- sequences of their own.
use Prim.Native.String.{String}
use mcp_host.Prelude.Int.{ℤ}
use mathlib.Core.Bool.{Bool}

mutual
  pub data Entries : Type 0 where
    no_entry : Entries
    entry : (name : String) (value : Value) (rest : Entries) → Entries

  pub data Elements : Type 0 where
    no_element : Elements
    element : (value : Value) (rest : Elements) → Elements

  pub data Value : Type 0 where
    object : Entries → Value
    array : Elements → Value
    string : String → Value
    number : ℤ → Value
    bool : Bool → Value
    null : Value
