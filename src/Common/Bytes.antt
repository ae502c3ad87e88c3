-- ===== src/Common/Bytes.antt =====
-- Text literals as bytes, for ASCII text.
use Prim.Native.Char.{code}
use Prim.Native.String.{String}
use shardlite.Common.{ℕ, List, [], ◌∷◌}

abbrev pub bytes : String → List ℕ
bytes String.[] = []
bytes (String.◌∷◌ c s) = code c ∷ bytes s
