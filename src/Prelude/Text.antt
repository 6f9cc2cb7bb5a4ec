-- ===== src/Prelude/Text.antt =====
-- The methods of Python's `str` that the program calls and does not implement, taken as an instance
-- like the numbers: `strip().lower()`, `upper()`, `lower()` and the part before the first "/".
use Prim.Native.String.{String}
use mathlib.Core.List.{List, map}

pub record TextOps : Type 0 where
  pub normalize_op : String → String
  pub upper_op : String → String
  pub lower_op : String → String
  pub root_op : String → String

module _ ⦃t : TextOps⦄ where
  abbrev pub normalize : String → String
  normalize = t.normalize_op

  abbrev pub upper : String → String
  upper = t.upper_op

  abbrev pub lower : String → String
  lower = t.lower_op

  abbrev pub root : String → String
  root = t.root_op

  abbrev pub upper_all : List String → List String
  upper_all = map upper

  abbrev pub lower_all : List String → List String
  lower_all = map lower
