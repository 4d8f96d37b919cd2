-- ===== src/Prelude/Strings.antt =====
-- Optional identifiers and lists of identifiers, compared as texts.
use Prim.Native.String.{String}
use mathlib.Core.Path.{◌≡◌}
use mathlib.Core.Bool.{Bool, false, ◌||◌}
use mathlib.Core.Option.{Option, none, some}
use mathlib.Core.List.{List, [], ◌∷◌, ◌++◌}
use native.Mathlib.Omega.{arith}
use text.Mathlib.Text.{◌==◌}

-- `Array.prototype.includes` on texts
abbrev pub contains : String → List String → Bool
contains k [] = false
contains k (j ∷ l) = j == k || contains k l

-- `value === key` for a value that may be null
abbrev pub is_some_of : String → Option String → Bool
is_some_of k none = false
is_some_of k (some j) = j == k

pub contains-append :
    (k : String) (l m : List String) → contains k (l ++ m) ≡ (contains k l || contains k m)
contains-append k [] m = ground arith
contains-append k (j ∷ l) m = ground (arith, contains-append k l m)
