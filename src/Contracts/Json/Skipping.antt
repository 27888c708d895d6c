-- ===== src/Contracts/Json/Skipping.antt =====
-- skipJSONValue reads exactly one value, whatever its keys, unless it is nested too deep.
use mortris_server.Prelude.{ℕ, zero, suc, ◌+◌, ◌≤◌, ◌≡◌, refl, true, false, List, leb, arith}
use mortris_server.Contracts.Json.Decoder.{Token, Decoder}
use mortris_server.Contracts.Json.Scan.{skip_json_value_at_depth, skip_rest, skip_json_value}
use mortris_server.Contracts.Json.Spec.{
  Json, Items, Fields, scalar_value, text_value, array, object, nil, cons, end, field, tokens,
  item_tokens, field_tokens, nesting, nesting_items, nesting_fields, cost, cost_items, cost_fields,
}
use mortris_server.Contracts.Json.Verdict.{
  Verdict, Verdict-bind, Verdict-depth, Verdict-close, more-tokens, leb-max,
}

leb-base : (depth : ℕ) → depth ≤ 64 → leb (depth + 0) 64 ≡ true
leb-base depth h = ground arith

module _ (dec : Decoder) where
  open dec use {State, token, more, remaining, token_next, more_next}

  mutual
    unfolding skip_json_value_at_depth tokens nesting cost

    skip-Verdict :
        (v : Json) (f depth : ℕ) (s : State) (rest : List Token)
        → cost v ≤ f
        → remaining s ≡ tokens v rest
        → Verdict dec (leb (depth + nesting v) 64) (skip_json_value_at_depth dec f depth s) rest
    skip-Verdict scalar_value zero depth s rest c e = absurd (omega arith)
    skip-Verdict scalar_value (suc f) depth s rest c e =
        let (s', p, q) = token_next s _ rest e in
        Verdict-depth dec 0 depth _ rest λ h. rw (p, leb-base depth h) (s', refl, q)
    skip-Verdict (text_value k) zero depth s rest c e = absurd (omega arith)
    skip-Verdict (text_value k) (suc f) depth s rest c e =
        let (s', p, q) = token_next s _ rest e in
        Verdict-depth dec 0 depth _ rest λ h. rw (p, leb-base depth h) (s', refl, q)
    skip-Verdict (array xs) zero depth s rest c e = absurd (omega arith)
    skip-Verdict (array xs) (suc f) depth s rest c e =
        let (s', p, q) = token_next s _ _ e in
        Verdict-depth dec (nesting_items xs) depth _ rest
          λ h. rw p (skip_items-Verdict xs f depth s' rest (omega arith) q h)
    skip-Verdict (object fs) zero depth s rest c e = absurd (omega arith)
    skip-Verdict (object fs) (suc f) depth s rest c e =
        let (s', p, q) = token_next s _ _ e in
        Verdict-depth dec (nesting_fields fs) depth _ rest
          λ h. rw p (skip_fields-Verdict fs f depth s' rest (omega arith) q h)

    skip_items-Verdict :
        (xs : Items) (f depth : ℕ) (s : State) (rest : List Token)
        → cost_items xs ≤ f
        → remaining s ≡ item_tokens xs rest
        → depth ≤ 64
        → Verdict dec (leb (depth + nesting_items xs) 64) (skip_rest dec f false depth s) rest
    skip_items-Verdict nil zero depth s rest c e h = absurd (omega arith)
    skip_items-Verdict nil (suc f) depth s rest c e h =
        rw (more_next s, e, leb-base depth h) (Verdict-close dec s _ rest e)
    skip_items-Verdict (cons x xs) zero depth s rest c e h = absurd (omega arith)
    skip_items-Verdict (cons x xs) (suc f) depth s rest c e h =
        rw (more-tokens dec s x _ e, leb-max depth (nesting x) (nesting_items xs))
          (Verdict-bind dec _ _ _ _ (item_tokens xs rest) rest
            (skip-Verdict x f (suc depth) s (item_tokens xs rest) (omega arith) e)
            λ s₂ e₂. skip_items-Verdict xs f depth s₂ rest (omega arith) e₂ h)

    skip_fields-Verdict :
        (fs : Fields) (f depth : ℕ) (s : State) (rest : List Token)
        → cost_fields fs ≤ f
        → remaining s ≡ field_tokens fs rest
        → depth ≤ 64
        → Verdict dec (leb (depth + nesting_fields fs) 64) (skip_rest dec f true depth s) rest
    skip_fields-Verdict end zero depth s rest c e h = absurd (omega arith)
    skip_fields-Verdict end (suc f) depth s rest c e h =
        rw (more_next s, e, leb-base depth h) (Verdict-close dec s _ rest e)
    skip_fields-Verdict (field k v fs) zero depth s rest c e h = absurd (omega arith)
    skip_fields-Verdict (field k v fs) (suc f) depth s rest c e h =
        let (s₁, p, q) = token_next s _ _ e in
        rw (more_next s, e, p, leb-max depth (nesting v) (nesting_fields fs))
          (Verdict-bind dec _ _ _ _ (field_tokens fs rest) rest
            (skip-Verdict v f (suc depth) s₁ (field_tokens fs rest) (omega arith) q)
            λ s₂ e₂. skip_fields-Verdict fs f depth s₂ rest (omega arith) e₂ h)

  pub skip_json_value-Verdict :
      (v : Json) (f : ℕ) (s : State) (rest : List Token)
      → cost v ≤ f
      → remaining s ≡ tokens v rest
      → Verdict dec (leb (nesting v) 64) (skip_json_value dec f s) rest
  unfolding skip_json_value
  skip_json_value-Verdict v f s rest c e =
      let z : 0 + nesting v ≡ nesting v = omega arith in rw z at (skip-Verdict v f 0 s rest c e)
