-- ===== src/Contracts/Json/Verdict.antt =====
-- What a scan of one value comes to, with a rule for each way in which the scan goes on.
use mortris_server.Prelude.{
  ℕ, suc, ◌+◌, ◌≤◌, String, ◌≡◌, refl, ◌∙◌, ap, Bool, true, false, ◌&&◌, List, ◌∷◌, max, leb, ltb,
  arith, not, contains, string_eq, Bool-cases, inl, inr, if◌then◌else◌,
}
use mortris_server.Failure.{Result, ok, ◌>>=◌, invalid, invalid_request}
use mortris_server.Contracts.Json.Decoder.{Token, Decoder, continues, text}
use mortris_server.Contracts.Json.Scan.{close, unique_json_key}
use mortris_server.Contracts.Json.Spec.{Json, scalar_value, text_value, array, object, tokens}

-- A value's first token does not close a container.
continues-tokens : (v : Json) (rest : List Token) → continues (tokens v rest) ≡ true
unfolding tokens
continues-tokens scalar_value rest = refl
continues-tokens (text_value s) rest = refl
continues-tokens (array xs) rest = refl
continues-tokens (object fs) rest = refl

-- The depth test of a container is that of its parts.
pub leb-max :
    (depth m n : ℕ)
    → leb (depth + max (m + 1) n) 64 ≡ (leb (suc depth + m) 64 && leb (depth + n) 64)
leb-max depth m n = ground arith

module _ (dec : Decoder) where
  open dec use {State, token, more, remaining, token_next, more_next}

  -- The scan accepts and stands before `rest`, or it refuses with invalid_request.
  abbrev pub Verdict : Bool → Result State → List Token → Type 0
  Verdict true r rest = (s' : State) × (r ≡ ok s') × (remaining s' ≡ rest)
  Verdict false r rest = r ≡ invalid invalid_request

  pub Verdict-bind :
      (a b : Bool) (r : Result State) (k : State → Result State) (mid rest : List Token)
      → Verdict a r mid
      → ((s' : State) → remaining s' ≡ mid → Verdict b (k s') rest)
      → Verdict (a && b) (r >>= k) rest
  Verdict-bind true b r k mid rest (s', p, q) h = rw p (h s' q)
  Verdict-bind false b r k mid rest p h = rw p

  Verdict-guard :
      (deep v : Bool) (r : Result State) (rest : List Token)
      → (deep ≡ true → v ≡ false)
      → (deep ≡ false → Verdict v r rest)
      → Verdict v (elim deep [ true ↦ invalid invalid_request | false ↦ r ]) rest
  Verdict-guard true v r rest h k = rw (h refl)
  Verdict-guard false v r rest h k = k refl

  -- The depth test at the head of a scan.
  pub Verdict-depth :
      (n depth : ℕ) (r : Result State) (rest : List Token)
      → (depth ≤ 64 → Verdict (leb (depth + n) 64) r rest)
      → Verdict
          (leb (depth + n) 64)
          (elim (ltb 64 depth) [ true ↦ invalid invalid_request | false ↦ r ])
          rest
  Verdict-depth n depth r rest h =
      Verdict-guard (ltb 64 depth) (leb (depth + n) 64) r rest (λ d. ground arith)
        (λ d. h (ground arith))

  pub Verdict-depth_and :
      (n depth : ℕ) (u : Bool) (r : Result State) (rest : List Token)
      → (depth ≤ 64 → Verdict (leb (depth + n) 64 && u) r rest)
      → Verdict
          (leb (depth + n) 64 && u)
          (elim (ltb 64 depth) [ true ↦ invalid invalid_request | false ↦ r ])
          rest
  Verdict-depth_and n depth u r rest h =
      Verdict-guard (ltb 64 depth) (leb (depth + n) 64 && u) r rest (λ d. ground arith)
        (λ d. h (ground arith))

  -- A key that the object has had is refused.
  pub Verdict-key :
      (seen : List String) (s s' : State) (k : String) (v : Bool)
      (next : String × List String × State → Result State) (rest : List Token)
      → unique_json_key dec seen s
        ≡ (if contains seen k then invalid invalid_request else ok (k, k ∷ seen, s'))
      → Verdict v (next (k, k ∷ seen, s')) rest
      → Verdict (not (contains seen k) && v) (unique_json_key dec seen s >>= next) rest
  Verdict-key seen s s' k v next rest e h = elim (Bool-cases (contains seen k)) [
    | inl old ↦ rw (e, old)
    | inr new ↦ rw (e, new) h
  ]

  pub Verdict-close :
      (s : State) (t : Token) (rest : List Token)
      → remaining s ≡ t ∷ rest
      → Verdict true (close dec s) rest
  unfolding close
  Verdict-close s t rest e = let (s', p, q) = token_next s t rest e in (s', rw p, q)

  pub more-tokens :
      (s : State) (v : Json) (rest : List Token) → remaining s ≡ tokens v rest → more s ≡ true
  more-tokens s v rest e = more_next s ∙ ap continues e ∙ continues-tokens v rest

  pub unique_json_key-token :
      (seen : List String) (s : State) (k : String) (rest : List Token)
      → remaining s ≡ text k ∷ rest
      → (s' : State) × (unique_json_key dec seen s
          ≡ (if contains seen k then invalid invalid_request else ok (k, k ∷ seen, s')))
        × (remaining s' ≡ rest)
  unfolding unique_json_key
  unique_json_key-token seen s k rest e =
      let (s', p, q) = token_next s (text k) rest e in (s', rw p, q)
