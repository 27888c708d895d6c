-- ===== src/Contracts/Json/Requests.antt =====
-- The two scans of a request body: the strict one of registrations, probes and single events, and
-- that of a batch envelope, which leaves the events alone.
use mortris_server.Prelude.{
  ℕ, zero, suc, ◌*◌, ◌≤◌, ◌≡◌, true, false, List, ◌∷◌, leb, arith, Bool, ◌&&◌, not, [], String,
  str_eq, contains, string_eq, length, is_empty, if◌then◌else◌, Bool-cases, inl, inr,
}
use mortris_server.Failure.{Result, ok, ◌>>=◌, invalid, invalid_request}
use mortris_server.Contracts.Json.Decoder.{Token, Decoder}
use mortris_server.Contracts.Json.Scan.{
  expect_eof, skip_json_value, scan_json_value_at_depth, envelope_rest, reject_duplicate_keys,
  begin_json_object, reject_batch_envelope_duplicate_keys,
}
use mortris_server.Contracts.Json.Spec.{
  Json, Fields, scalar_value, text_value, array, object, end, field, tokens, field_tokens, nesting,
  cost, cost_fields, cost-le, unique_keys, fresh_keys, keys,
}
use mortris_server.Contracts.Json.Verdict.{
  Verdict, Verdict-bind, Verdict-close, Verdict-key, unique_json_key-token,
}
use mortris_server.Contracts.Json.Skipping.{skip_json_value-Verdict}
use mortris_server.Contracts.Json.Scanning.{scan_json_value-Verdict}

-- What the envelope's scan asks of one field: the events may repeat keys.
unfoldable pub envelope_value : String → Json → Bool
envelope_value k v =
    if str_eq k "events" then leb (nesting v) 64 else leb (nesting v) 64 && unique_keys v

unfoldable pub envelope_values : Fields → Bool
unfolding envelope_value
envelope_values end = true
envelope_values (field k v fs) = envelope_value k v && envelope_values fs

-- A batch envelope is an object with each of its keys once, and values that pass.
unfoldable pub envelope_accepts : Json → Bool
unfolding envelope_values
envelope_accepts (object fs) = fresh_keys [] (keys fs) && envelope_values fs
envelope_accepts _ = false

swap_middle : (c g u w : Bool) → ((c && g) && (u && w)) ≡ (c && (u && (g && w)))
swap_middle c g u w = ground arith

module _ (dec : Decoder) where
  open dec use {State, token, more, remaining, token_next, token_eof, more_next}

  expect_eof-token :
      (s : State) (rest : List Token)
      → remaining s ≡ rest
      → expect_eof dec (token s) ≡ (if is_empty rest then ok tt else invalid invalid_request)
  unfolding expect_eof
  expect_eof-token s [] e = rw (token_eof s e)
  expect_eof-token s (t ∷ ts) e = let (s', p, q) = token_next s t ts e in rw p

  finish :
      (b : Bool) (r : Result State) (rest : List Token)
      → Verdict dec b r rest
      → (r >>= λ s'. expect_eof dec (token s'))
        ≡ (if b && is_empty rest then ok tt else invalid invalid_request)
  finish true r rest (s', p, q) = rw p (expect_eof-token s' rest q)
  finish false r rest p = rw p

  -- With two units of fuel for each token, the strict scan of a body accepts exactly when nothing
  -- follows the first JSON value, the value is nested at most 64 deep, and every object in it has
  -- each of its keys once; otherwise it answers invalid_request.
  pub reject_duplicate_keys-eq :
      (v : Json) (rest : List Token) (f : ℕ) (s : State)
      → 2 * length (tokens v []) ≤ f
      → remaining s ≡ tokens v rest
      → reject_duplicate_keys dec f true s ≡ (
          if (leb (nesting v) 64 && unique_keys v) && is_empty rest
          then ok tt
          else invalid invalid_request)
  unfolding reject_duplicate_keys
  reject_duplicate_keys-eq v rest f s enough e =
      finish _ _ rest (scan_json_value-Verdict dec v f s rest (omega (arith, cost-le v)) e)

  envelope_value-Verdict :
      (k : String) (v : Json) (f : ℕ) (s : State) (rest : List Token)
      → cost v ≤ f
      → remaining s ≡ tokens v rest
      → Verdict dec
          (envelope_value k v)
          (if str_eq k "events"
            then skip_json_value dec f s
            else scan_json_value_at_depth dec f true 0 s)
          rest
  unfolding envelope_value
  envelope_value-Verdict k v f s rest c e = elim (Bool-cases (str_eq k "events")) [
    | inl yes' ↦ rw yes' (skip_json_value-Verdict dec v f s rest c e)
    | inr no' ↦ rw no' (scan_json_value-Verdict dec v f s rest c e)
  ]

  envelope-Verdict :
      (fs : Fields) (f : ℕ) (seen : List String) (s : State) (rest : List Token)
      → cost_fields fs ≤ f
      → remaining s ≡ field_tokens fs rest
      → Verdict dec
          (fresh_keys seen (keys fs) && envelope_values fs)
          (envelope_rest dec f seen s)
          rest
  unfolding envelope_rest envelope_values tokens cost
  envelope-Verdict end zero seen s rest c e = absurd (omega arith)
  envelope-Verdict end (suc f) seen s rest c e =
      rw (more_next s, e, envelope_rest) (Verdict-close dec s _ rest e)
  envelope-Verdict (field k v fs) zero seen s rest c e = absurd (omega arith)
  envelope-Verdict (field k v fs) (suc f) seen s rest c e =
      let (s₁, p, q) = unique_json_key-token dec seen s k _ e in
      rw
        (
          more_next s,
          envelope_rest,
          e,
          swap_middle (not (contains seen k)) (fresh_keys (k ∷ seen) (keys fs)) (envelope_value k v)
              (envelope_values fs),
        )
        (Verdict-key dec seen s s₁ k _ _ rest p (
          Verdict-bind dec _ _ _ _ (field_tokens fs rest) rest
            (envelope_value-Verdict k v f s₁ (field_tokens fs rest) (omega arith) q)
            λ s₂ e₂. envelope-Verdict fs f (k ∷ seen) s₂ rest (omega arith) e₂))

  -- With two units of fuel for each token, the scan of a batch body accepts exactly when nothing
  -- follows the first JSON value and that is an object with each of its own keys once, whose
  -- value under "events" is nested at most 64 deep, and whose other values are so too and repeat
  -- no key in any object; otherwise it answers invalid_request. Keys repeated inside an event do
  -- not reject the batch.
  pub reject_batch_envelope-eq :
      (v : Json) (rest : List Token) (f : ℕ) (s : State)
      → 2 * length (tokens v []) ≤ f
      → remaining s ≡ tokens v rest
      → reject_batch_envelope_duplicate_keys dec f s
        ≡ (if envelope_accepts v && is_empty rest then ok tt else invalid invalid_request)
  unfolding reject_batch_envelope_duplicate_keys envelope_accepts begin_json_object tokens cost
  reject_batch_envelope-eq scalar_value rest f s enough e =
      let (s', p, q) = token_next s _ _ e in rw p
  reject_batch_envelope-eq (text_value k) rest f s enough e =
      let (s', p, q) = token_next s _ _ e in rw p
  reject_batch_envelope-eq (array xs) rest f s enough e =
      let (s', p, q) = token_next s _ _ e in rw p
  reject_batch_envelope-eq (object fs) rest f s enough e =
      let (s', p, q) = token_next s _ _ e in
      rw p
        (finish _ _ rest (envelope-Verdict fs f [] s' rest (omega (arith, cost-le (object fs))) q))
