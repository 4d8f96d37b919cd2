-- ===== src/Prelude/Texts.antt =====
-- Texts put together.
use Prim.Native.String.{String, ◌++◌}
use mathlib.Core.List.{List, [], ◌∷◌}

-- A template literal, or `join("")`.
abbrev pub concat : List String → String
concat [] = ""
concat (s ∷ l) = s ++ concat l
