-- ===== src/Common/Text.antt =====
-- The tests of `str` that the program uses: prefix, suffix and substring, over characters.
pub mod Substring
use Prim.Native.Char.{code}
use cw_orchestrator.Common.Tests.{eqb}
use Prim.Native.String.{String, [], ◌∷◌}
use mathlib.Core.Bool.{Bool, true, false, ◌&&◌, ◌||◌}

-- `s.starts_with(p)`
unfoldable pub starts_with : String → String → Bool
starts_with s [] = true
starts_with [] (c ∷ p) = false
starts_with (d ∷ s) (c ∷ p) = eqb (code d) (code c) && starts_with s p

-- `s.contains(p)`
unfoldable pub contains : String → String → Bool
unfolding starts_with
contains [] p = starts_with [] p
contains (c ∷ s) p = starts_with (c ∷ s) p || contains s p

-- `s.is_empty()`
abbrev pub is_empty : String → Bool
is_empty [] = true
is_empty (c ∷ s) = false
