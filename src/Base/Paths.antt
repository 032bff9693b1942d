-- ===== src/Base/Paths.antt =====
-- `Path::join` of the standard library on Unix, for a name that is not absolute.
use seck.Base.{◌==◌, true, false, [], ◌∷◌, Bytes}

unfoldable pub path_join : Bytes → Bytes → Bytes
path_join [] name = name
path_join (c ∷ []) name = elim (c == b'/') [ true ↦ c ∷ name | false ↦ c ∷ b'/' ∷ name ]
path_join (c ∷ d ∷ dir) name = c ∷ path_join (d ∷ dir) name
