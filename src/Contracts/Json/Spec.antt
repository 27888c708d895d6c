-- ===== src/Contracts/Json/Spec.antt =====
-- JSON values, their tokens, and what the scan accepts, apart from any decoder: the nesting of a
-- value and whether every object has each of its keys once.
use mortris_server.Prelude.{
  ℕ, ◌+◌, ◌*◌, ◌≤◌, String, Bool, true, not, ◌&&◌, List, [], ◌∷◌, max, length, contains, string_eq,
  arith,
}
use mortris_server.Contracts.Json.Decoder.{
  Token, open_brace, close_brace, open_bracket, close_bracket, scalar, text,
}

mutual
  pub data Json : Type 0 where
    scalar_value : Json
    text_value : String → Json
    array : Items → Json
    object : Fields → Json

  pub data Items : Type 0 where
    nil : Items
    cons : Json → Items → Items

  pub data Fields : Type 0 where
    end : Fields
    field : String → Json → Fields → Fields

-- The tokens of a value; those of a list of items or fields end with the closing delimiter.
unfoldable mutual
  pub tokens : Json → List Token → List Token
  tokens scalar_value rest = scalar ∷ rest
  tokens (text_value s) rest = text s ∷ rest
  tokens (array xs) rest = open_bracket ∷ item_tokens xs rest
  tokens (object fs) rest = open_brace ∷ field_tokens fs rest

  pub item_tokens : Items → List Token → List Token
  item_tokens nil rest = close_bracket ∷ rest
  item_tokens (cons x xs) rest = tokens x (item_tokens xs rest)

  pub field_tokens : Fields → List Token → List Token
  field_tokens end rest = close_brace ∷ rest
  field_tokens (field k v fs) rest = text k ∷ tokens v (field_tokens fs rest)

-- How many containers stand around the innermost value: 0 for a scalar or an empty container.
unfoldable mutual
  pub nesting : Json → ℕ
  nesting scalar_value = 0
  nesting (text_value s) = 0
  nesting (array xs) = nesting_items xs
  nesting (object fs) = nesting_fields fs

  pub nesting_items : Items → ℕ
  nesting_items nil = 0
  nesting_items (cons x xs) = max (nesting x + 1) (nesting_items xs)

  pub nesting_fields : Fields → ℕ
  nesting_fields end = 0
  nesting_fields (field k v fs) = max (nesting v + 1) (nesting_fields fs)

abbrev pub keys : Fields → List String
keys end = []
keys (field k v fs) = k ∷ keys fs

-- No key of the second list is in the first, and none comes twice.
abbrev pub fresh_keys : List String → List String → Bool
fresh_keys seen [] = true
fresh_keys seen (k ∷ ks) = not (contains seen k) && fresh_keys (k ∷ seen) ks

unfoldable mutual
  pub unique_keys : Json → Bool
  unique_keys scalar_value = true
  unique_keys (text_value s) = true
  unique_keys (array xs) = unique_items xs
  unique_keys (object fs) = fresh_keys [] (keys fs) && unique_fields fs

  pub unique_items : Items → Bool
  unique_items nil = true
  unique_items (cons x xs) = unique_keys x && unique_items xs

  pub unique_fields : Fields → Bool
  unique_fields end = true
  unique_fields (field k v fs) = unique_keys v && unique_fields fs

-- The fuel that a scan of the value takes.
unfoldable mutual
  pub cost : Json → ℕ
  cost scalar_value = 1
  cost (text_value s) = 1
  cost (array xs) = cost_items xs + 1
  cost (object fs) = cost_fields fs + 1

  pub cost_items : Items → ℕ
  cost_items nil = 1
  cost_items (cons x xs) = cost x + cost_items xs + 1

  pub cost_fields : Fields → ℕ
  cost_fields end = 1
  cost_fields (field k v fs) = cost v + cost_fields fs + 1

mutual
  unfolding cost tokens

  cost-tokens :
      (v : Json) (rest : List Token) → cost v + 1 + 2 * length rest ≤ 2 * length (tokens v rest)
  cost-tokens scalar_value rest = omega arith
  cost-tokens (text_value s) rest = omega arith
  cost-tokens (array xs) rest = omega (arith, cost_items-tokens xs rest)
  cost-tokens (object fs) rest = omega (arith, cost_fields-tokens fs rest)

  cost_items-tokens :
      (xs : Items) (rest : List Token)
      → cost_items xs + 2 * length rest ≤ 2 * length (item_tokens xs rest)
  cost_items-tokens nil rest = omega arith
  cost_items-tokens (cons x xs) rest =
      omega (arith, cost-tokens x (item_tokens xs rest), cost_items-tokens xs rest)

  cost_fields-tokens :
      (fs : Fields) (rest : List Token)
      → cost_fields fs + 2 * length rest ≤ 2 * length (field_tokens fs rest)
  cost_fields-tokens end rest = omega arith
  cost_fields-tokens (field k v fs) rest =
      omega (arith, cost-tokens v (field_tokens fs rest), cost_fields-tokens fs rest)

-- Two units of fuel for each token are enough.
pub cost-le : (v : Json) → cost v + 1 ≤ 2 * length (tokens v [])
cost-le v = omega (arith, cost-tokens v [])
