-- ===== src/Analytics/Payload.antt =====
-- internal/analytics/puzzle_attempt.go: an event's payload, integers in it, and sets of block
-- identifiers. strconv.Atoi and strings.Split work on the code points of a text.
pub mod Sets
use mortris_server.Prelude.{
  ℕ, ◌+◌, ◌*◌, ◌-◌, ◌^◌, String, Bool, true, false, ◌&&◌, not, Option, none, some, List, [], ◌∷◌,
  ltb, leb, ◌==◌, lookup, insert, contains, keep, string_eq, if◌then◌else◌,
}
use mortris_server.Prelude.Int.{ℤ, pos, negsuc, sub_ℕ, eqb_ℤ, ltb_ℤ, int_eq}
use mortris_server.Contracts.Pattern.{codes}

-- A value of a decoded payload. A number is a float64 of which the program only takes `int(x)`:
-- it is given by that. A null, a Boolean, a list or an object is `other`.
pub data Value : Type 0 where
  num : ℤ → Value
  text : String → Value
  null other : Value

-- map[string]any
abbrev pub Payload : Type 0
Payload = List (String × Value)

-- strconv.ParseUint: `none` is a syntax error, a value of 2^64 or more one of range, which is
-- found at the first digit that leads there.
unfoldable pub digits : ℕ → List ℕ → Option ℕ
digits n [] = some n
digits n (c ∷ cs) =
    let n' = n * 10 + (c - b'0') in
    let rest = digits n' cs in
    if leb b'0' c && leb c b'9' then (if ltb n' (2 ^ 64) then rest else some n') else none

abbrev unsigned : List ℕ → Option ℕ
unsigned [] = none
unsigned (c ∷ cs) = digits 0 (c ∷ cs)

-- The value of strconv.Atoi, and whether there was no error: 0 on a syntax error, the nearest
-- int64 out of range.
abbrev signed_value : Bool → Option ℕ → ℤ × Bool
signed_value negative none = (pos 0, false)
signed_value false (some n) = if ltb n (2 ^ 63) then (pos n, true) else (pos (2 ^ 63 - 1), false)
signed_value true (some n) =
    if leb n (2 ^ 63) then (sub_ℕ 0 n, true) else (negsuc (2 ^ 63 - 1), false)

unfoldable pub atoi : List ℕ → ℤ × Bool
unfolding digits
atoi [] = (pos 0, false)
atoi (c ∷ cs) =
    if c == b'-'
    then signed_value true (unsigned cs)
    else if c == b'+'
    then signed_value false (unsigned cs)
    else signed_value false (unsigned (c ∷ cs))

-- payload[key], where a missing key is nil.
abbrev pub field : Payload → String → Value
field p k = elim (lookup k p) [ some v ↦ v | none ↦ Value.null ]

unfoldable pub number : Value → ℤ
unfolding atoi
number (Value.num n) = n
number (Value.text s) = (atoi (codes s)).0
number Value.null = negsuc 0
number Value.other = negsuc 0

-- strconv.ParseInt(s, 10, 64) is Atoi but for the error.
unfoldable pub number64 : Value → ℤ
unfolding atoi
number64 (Value.num n) = n
number64 (Value.text s) = let (n, valid) = atoi (codes s) in if valid then n else negsuc 0
number64 Value.null = negsuc 0
number64 Value.other = negsuc 0

-- value.(string), with its second result.
abbrev pub text_of : Value → Option String
text_of (Value.text s) = some s
text_of (Value.num n) = none
text_of Value.null = none
text_of Value.other = none

-- The text, or "".
abbrev pub text_or_empty : Value → String
text_or_empty v = elim (text_of v) [ some s ↦ s | none ↦ "" ]

-- strings.Split(s, ","): the part before the first comma, and those after it.
unfoldable pub split : List ℕ → List ℕ × List (List ℕ)
split [] = ([], [])
split (c ∷ cs) =
    let (part, parts) = split cs in if c == b',' then ([], part ∷ parts) else (c ∷ part, parts)

-- Sets of integers: map[int]bool that only hold true. set[id] = true, and delete(set, id).
unfoldable pub add : ℤ → List ℤ → List ℤ
add id set = if contains set id then set else id ∷ set

unfoldable pub remove : ℤ → List ℤ → List ℤ
remove id set = keep (λ j. not (eqb_ℤ id j)) set

abbrev pub add_part : ℤ × Bool → List ℤ → List ℤ
add_part (id, true) set = add id set
add_part (id, false) set = set

unfoldable pub add_parts : List (List ℕ) → List ℤ → List ℤ
add_parts [] set = set
add_parts (part ∷ parts) set = add_parts parts (add_part (atoi part) set)

unfoldable pub integer_set : String → List ℤ
integer_set csv = let (part, parts) = split (codes csv) in add_parts (part ∷ parts) []

-- sort.Ints of the keys, by insertion.
unfoldable pub place : ℤ → List ℤ → List ℤ
place k [] = k ∷ []
place k (j ∷ js) = let rest = place k js in if ltb_ℤ k j then k ∷ j ∷ js else j ∷ rest

unfoldable pub sorted_block_ids : List ℤ → List ℤ
sorted_block_ids [] = []
sorted_block_ids (k ∷ ks) = place k (sorted_block_ids ks)
