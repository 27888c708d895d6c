-- ===== src/Contracts/Json/Tests.antt =====
-- A decoder over a list of tokens, and the scans on a concrete body.
use mortris_server.Prelude.{
  ◌*◌, ◌≤◌, ◌≡◌, refl, true, List, [], ◌∷◌, arith, length, leb, ◌&&◌, is_empty, if◌then◌else◌,
}
use mortris_server.Failure.{Result, ok, err, eof, invalid, invalid_request}
use mortris_server.Contracts.Json.Decoder.{Token, Decoder, continues}
use mortris_server.Contracts.Json.Spec.{
  Json, scalar_value, object, end, field, tokens, nesting, unique_keys,
}
use mortris_server.Contracts.Json.Scan.{reject_duplicate_keys, reject_batch_envelope_duplicate_keys}
use mortris_server.Contracts.Json.Requests.{
  reject_duplicate_keys-eq, reject_batch_envelope-eq, envelope_accepts,
}

-- A decoder that holds its tokens, which shows that the laws can be met.
abbrev pub list_token : List Token → Result (Token × List Token)
list_token [] = err eof
list_token (t ∷ ts) = ok (t, ts)

pub list_token_next :
    (s : List Token) (t : Token) (ts : List Token)
    → s ≡ t ∷ ts
    → (s' : List Token) × (list_token s ≡ ok (t, s')) × (s' ≡ ts)
list_token_next [] t ts h = cc
list_token_next (u ∷ s) t ts h = (s, ground arith, ground arith)

pub list_token_eof : (s : List Token) → s ≡ [] → list_token s ≡ err eof
list_token_eof [] h = refl
list_token_eof (t ∷ s) h = cc

abbrev pub list_decoder : Decoder
list_decoder = record {
  State = List Token;
  token = list_token;
  more = continues;
  remaining = λ s. s;
  token_next = list_token_next;
  token_eof = list_token_eof;
  more_next = λ s. refl;
}

-- {"name": 1, "events": {"id": 2, "id": 3}}
abbrev body : Json
body = object (
    field "name" scalar_value
      (field "events" (object (field "id" scalar_value (field "id" scalar_value end))) end))

enough : 2 * length (tokens body []) ≤ 22
unfolding tokens
enough = omega arith

reject_duplicate_keys_example : reject_duplicate_keys list_decoder 22 true (tokens body []) ≡ (
    if (leb (nesting body) 64 && unique_keys body) && is_empty {A = Token} []
    then ok tt
    else invalid invalid_request)
reject_duplicate_keys_example =
    reject_duplicate_keys-eq list_decoder body [] 22 (tokens body []) enough refl

reject_batch_envelope_example :
    reject_batch_envelope_duplicate_keys list_decoder 22 (tokens body [])
    ≡ (if envelope_accepts body && is_empty {A = Token} [] then ok tt else invalid invalid_request)
reject_batch_envelope_example =
    reject_batch_envelope-eq list_decoder body [] 22 (tokens body []) enough refl
