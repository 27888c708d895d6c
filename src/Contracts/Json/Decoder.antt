-- ===== src/Contracts/Json/Decoder.antt =====
-- encoding/json's Decoder, as far as the scan uses it: Token and More, with what its
-- documentation says of them on the tokens that are still to come.
use mortris_server.Prelude.{String, ◌≡◌, Bool, true, false, List, [], ◌∷◌}
use mortris_server.Failure.{Result, ok, err, eof}

-- json.Token: the four delimiters, a text (also an object's key), and any other value.
pub data Token : Type 0 where
  open_brace close_brace open_bracket close_bracket scalar : Token
  text : String → Token

-- Whether an array or an object goes on before this token.
abbrev pub continues : List Token → Bool
continues (close_brace ∷ ts) = false
continues (close_bracket ∷ ts) = false
continues [] = false
continues (t ∷ ts) = true

-- `remaining` is the sequence of tokens that a decoder has still to return.
pub record Decoder : Type 1 where
  pub State : Type 0
  pub token : State → Result (Token × State)
  pub more : State → Bool
  pub remaining : State → List Token
  pub token_next :
      (s : State) (t : Token) (ts : List Token)
      → remaining s ≡ t ∷ ts
      → (s' : State) × (token s ≡ ok (t, s')) × (remaining s' ≡ ts)
  pub token_eof : (s : State) → remaining s ≡ [] → token s ≡ err eof
  pub more_next : (s : State) → more s ≡ continues (remaining s)
