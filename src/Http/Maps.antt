-- ===== src/Http/Maps.antt =====
-- `mapEqual` and `rewriteHost` of http.go, on maps as lists of pairs.
pub mod Same
use chrome.Base.{ℕ, Bool, true, false, ◌&&◌, ◌==◌, List, [], ◌∷◌, length, if◌then◌else◌}
use chrome.Base.Text.{Text, same_text, has_byte}

abbrev pub StringMap : Type 0
StringMap = List (Text × Text)

-- `m[k]`; a missing key reads as the empty string.
unfoldable pub value_at : StringMap → Text → Text
value_at [] k = []
value_at ((j, v) ∷ m) k = if same_text j k then v else value_at m k

-- The loop over `a`.
unfoldable pub agree_on : StringMap → StringMap → Bool
agree_on [] b = true
agree_on ((k, v) ∷ a) b = if same_text (value_at b k) v then agree_on a b else false

unfoldable pub map_equal : StringMap → StringMap → Bool
map_equal a b = if length a == length b then agree_on a b else false

abbrev pub rewrite_to : Text → Text → Text
rewrite_to host [] = host
rewrite_to host (c ∷ s) = if has_byte b':' (c ∷ s) then c ∷ s else host

unfoldable pub rewrite_host : StringMap → Text → Text
rewrite_host m host = rewrite_to host (value_at m host)
