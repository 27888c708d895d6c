-- ===== src/Contracts/Json/Scan.antt =====
-- The functions of internal/contracts/decode_scan.go. The recursion of Go's scan is on fuel: each
-- call and each round of a loop takes one unit.
use mortris_server.Prelude.{
  ℕ, zero, suc, String, Bool, true, false, List, [], ◌∷◌, ltb, if◌then◌else◌, string_eq, contains,
  str_eq,
}
use mortris_server.Failure.{Result, ok, err, eof, other, exhausted, invalid_request, ◌>>=◌, invalid}
use mortris_server.Contracts.Json.Decoder.{Token, open_brace, open_bracket, scalar, text, Decoder}

abbrev pub max_json_depth : ℕ
max_json_depth = 64

module _ (dec : Decoder) where
  open dec use {State, token, more}

  -- The key as Token returned it, and the keys that the object has had with it added.
  text_key : List String → Token → State → Result (String × List String × State)
  text_key seen (text key) s =
      if contains seen key then invalid invalid_request else ok (key, key ∷ seen, s)
  text_key seen _ s = err other

  unfoldable pub unique_json_key : List String → State → Result (String × List String × State)
  unfolding text_key
  unique_json_key seen s = do (t, s') ← token s; text_key seen t s'

  -- The closing delimiter that ends a loop.
  unfoldable pub close : State → Result State
  close s = do (_, s') ← token s; ok s'

  unfoldable mutual
    unfolding close

    pub skip_json_value_at_depth : ℕ → ℕ → State → Result State
    skip_json_value_at_depth zero depth s = err exhausted
    skip_json_value_at_depth (suc f) depth s = elim (ltb max_json_depth depth) [
      | true ↦ invalid invalid_request
      | false ↦ do
        (t, s') ← token s
        elim t [
          | scalar ↦ ok s'
          | text _ ↦ ok s'
          | open_brace ↦ skip_rest f true depth s'
          | _ ↦ skip_rest f false depth s'
        ]
    ]

    -- The loop of skipJSONValueAtDepth; `keyed` where the delimiter was a brace.
    pub skip_rest : ℕ → Bool → ℕ → State → Result State
    skip_rest zero keyed depth s = err exhausted
    skip_rest (suc f) keyed depth s = elim (more s) [
      | false ↦ close s
      | true ↦ do
        s₁ ← if keyed then close s else ok s
        s₂ ← skip_json_value_at_depth f (suc depth) s₁
        skip_rest f keyed depth s₂
    ]

  unfoldable pub skip_json_value : ℕ → State → Result State
  skip_json_value f s = skip_json_value_at_depth f 0 s

  unfoldable mutual
    unfolding close unique_json_key

    pub scan_json_value_at_depth : ℕ → Bool → ℕ → State → Result State
    scan_json_value_at_depth zero recursive depth s = err exhausted
    scan_json_value_at_depth (suc f) recursive depth s = elim (ltb max_json_depth depth) [
      | true ↦ invalid invalid_request
      | false ↦ do
        (t, s') ← token s
        elim t [
          | scalar ↦ ok s'
          | text _ ↦ ok s'
          | open_brace ↦ scan_json_object f recursive [] depth s'
          | open_bracket ↦ scan_json_array f recursive depth s'
          | _ ↦ err other
        ]
    ]

    -- The loop of scanJSONObject, with the keys seen so far.
    pub scan_json_object : ℕ → Bool → List String → ℕ → State → Result State
    scan_json_object zero recursive seen depth s = err exhausted
    scan_json_object (suc f) recursive seen depth s = elim (more s) [
      | false ↦ close s
      | true ↦ do
        (_, seen', s₁) ← unique_json_key seen s
        s₂ ← elim recursive [
          | true ↦ scan_json_value_at_depth f true (suc depth) s₁
          | false ↦ skip_json_value f s₁
        ]
        scan_json_object f recursive seen' depth s₂
    ]

    -- The loop of scanJSONArray.
    pub scan_json_array : ℕ → Bool → ℕ → State → Result State
    scan_json_array zero recursive depth s = err exhausted
    scan_json_array (suc f) recursive depth s = elim (more s) [
      | false ↦ close s
      | true ↦ do
        s₁ ← scan_json_value_at_depth f recursive (suc depth) s
        scan_json_array f recursive depth s₁
    ]

  -- Nothing may follow the value.
  unfoldable pub expect_eof : Result (Token × State) → Result (Unit {0})
  expect_eof (err eof) = ok tt
  expect_eof _ = invalid invalid_request

  unfoldable pub reject_duplicate_keys : ℕ → Bool → State → Result (Unit {0})
  unfolding expect_eof
  reject_duplicate_keys f recursive s = do
    s' ← scan_json_value_at_depth f recursive 0 s
    expect_eof (token s')

  unfoldable pub begin_json_object : Token → State → Result State
  begin_json_object open_brace s = ok s
  begin_json_object _ s = invalid invalid_request

  -- The loop of rejectBatchEnvelopeDuplicateKeys: the value of "events" is skipped only.
  unfoldable pub envelope_rest : ℕ → List String → State → Result State
  unfolding close unique_json_key
  envelope_rest zero seen s = err exhausted
  envelope_rest (suc f) seen s = elim (more s) [
    | false ↦ close s
    | true ↦ do
      (key, seen', s₁) ← unique_json_key seen s
      s₂ ←
          if str_eq key "events" then skip_json_value f s₁ else scan_json_value_at_depth f true 0 s₁
      envelope_rest f seen' s₂
  ]

  unfoldable pub reject_batch_envelope_duplicate_keys : ℕ → State → Result (Unit {0})
  unfolding begin_json_object expect_eof
  reject_batch_envelope_duplicate_keys f s = do
    (t, s₁) ← token s
    s₂ ← begin_json_object t s₁
    s₃ ← envelope_rest f [] s₂
    expect_eof (token s₃)
