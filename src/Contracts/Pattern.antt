-- ===== src/Contracts/Pattern.antt =====
-- The patterns of internal/contracts/validate.go: two of fixed length, as a list of one test for
-- each character, and the event name. Go's regexp walks code points.
use Prim.Native.Char.{code}
use mortris_server.Prelude.{
  ℕ, zero, suc, String, Bool, true, false, ◌&&◌, ◌||◌, List, [], ◌∷◌, ◌++◌, leb, ◌==◌, length, all,
}

-- The code points of a text. `String` has its own `[]` and `∷`.
abbrev pub codes : String → List ℕ
codes String.[] = []
codes (String.◌∷◌ c s) = code c ∷ codes s

abbrev pub in_range : ℕ → ℕ → ℕ → Bool
in_range lo hi c = leb lo c && leb c hi

-- [0-9a-f], \d, [89ab], and one given character
abbrev pub hex : ℕ → Bool
hex c = in_range b'0' b'9' c || in_range b'a' b'f' c

abbrev digit : ℕ → Bool
digit c = in_range b'0' b'9' c

abbrev variant : ℕ → Bool
variant c = in_range b'8' b'9' c || in_range b'a' b'b' c

abbrev exactly : ℕ → ℕ → Bool
exactly k c = c == k

abbrev pub repeat : ℕ → (ℕ → Bool) → List (ℕ → Bool)
repeat zero p = []
repeat (suc n) p = p ∷ repeat n p

abbrev uuid_pattern : List (ℕ → Bool)
uuid_pattern =
    repeat 8 hex
    ++ (exactly b'-' ∷ repeat 4 hex)
    ++ (exactly b'-' ∷ exactly b'4' ∷ repeat 3 hex)
    ++ (exactly b'-' ∷ variant ∷ repeat 3 hex)
    ++ (exactly b'-' ∷ repeat 12 hex)

abbrev timestamp_pattern : List (ℕ → Bool)
timestamp_pattern =
    repeat 4 digit
    ++ (exactly b'-' ∷ repeat 2 digit)
    ++ (exactly b'-' ∷ repeat 2 digit)
    ++ (exactly b'T' ∷ repeat 2 digit)
    ++ (exactly b':' ∷ repeat 2 digit)
    ++ (exactly b':' ∷ repeat 2 digit)
    ++ (exactly b'.' ∷ repeat 3 digit)
    ++ (exactly b'Z' ∷ [])

unfoldable pub matches : List (ℕ → Bool) → List ℕ → Bool
matches [] [] = true
matches (p ∷ ps) (c ∷ cs) = p c && matches ps cs
matches _ _ = false

unfoldable pub is_valid_uuid : String → Bool
unfolding matches
is_valid_uuid s = matches uuid_pattern (codes s)

unfoldable pub is_valid_timestamp : String → Bool
unfolding matches
is_valid_timestamp s = matches timestamp_pattern (codes s)

abbrev name_start : ℕ → Bool
name_start c = in_range b'a' b'z' c

abbrev name_part : ℕ → Bool
name_part c = in_range b'a' b'z' c || in_range b'0' b'9' c || c == b'_'

abbrev name_codes : List ℕ → Bool
name_codes [] = false
name_codes (c ∷ cs) = name_start c && all name_part cs && leb (length cs) 63

-- eventNamePattern: ^[a-z][a-z0-9_]{0,63}$
unfoldable pub is_event_name : String → Bool
is_event_name s = name_codes (codes s)
