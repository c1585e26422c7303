-- ===== src/Common/Texts.antt =====
-- Strings put together.
use Prim.Native.String.{String}
use mathlib.Core.List.{List, [], ◌∷◌}

unfoldable pub append : String → String → String
append String.[] t = t
append (String.◌∷◌ c s) t = String.◌∷◌ c (append s t)

unfoldable pub prefixed : String → List String → String
unfolding append
prefixed separator [] = ""
prefixed separator (t ∷ ts) = append separator (append t (prefixed separator ts))

-- Array.prototype.join
unfoldable pub join : String → List String → String
unfolding append prefixed
join separator [] = ""
join separator (t ∷ ts) = append t (prefixed separator ts)
