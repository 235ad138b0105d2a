-- ===== src/Prelude/Strings.antt =====
-- Text as C's fixed arrays of `char` hold it.
use Prim.Native.String.{String, [], ◌∷◌}
use Prim.Native.Nat.{ℕ, zero, suc}

-- `strncpy` into a field of `n` bytes; a character stands for a byte.
unfoldable pub truncate : ℕ → String → String
truncate zero s = ""
truncate (suc n) [] = ""
truncate (suc n) (c ∷ s) = c ∷ truncate n s
