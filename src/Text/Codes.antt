-- ===== src/Text/Codes.antt =====
-- The characters of a quoted text, for the texts that the source names.
use Prim.Native.String.{String}
use Prim.Native.Char.{code}
use fabko.Base.{[], ◌∷◌}
use fabko.Text.Join.{Text}

abbrev pub codes : String → Text
codes String.[] = []
codes (String.◌∷◌ c s) = code c ∷ codes s
