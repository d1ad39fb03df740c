-- ===== src/Prelude/Text.antt =====
-- Go strings that the code only compares, or looks at for a prefix.
use Prim.Native.Char.{code}
pub use Prim.Native.String.{String}
use text.Mathlib.Text
use gtcp.Prelude.{Bool, true, false, ◌==◌, ◌&&◌}

abbrev pub same : String → String → Bool
same s t = Text.◌==◌ s t

-- `strings.HasPrefix(s, prefix)`
abbrev pub has_prefix : String → String → Bool
has_prefix s String.[] = true
has_prefix String.[] (String.◌∷◌ d prefix) = false
has_prefix (String.◌∷◌ c s) (String.◌∷◌ d prefix) = (code c == code d) && has_prefix s prefix
