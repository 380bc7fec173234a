-- ===== src/Prelude/Strings.antt =====
-- fmt.Sprintf with %s verbs only: the pieces one after another.
use Prim.Native.String.{String, ◌++◌}
use mathlib.Core.List.{List, [], ◌∷◌}

abbrev pub sprintf : List String → String
sprintf [] = ""
sprintf (s ∷ ss) = s ++ sprintf ss
