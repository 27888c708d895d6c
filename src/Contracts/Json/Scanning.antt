-- ===== src/Contracts/Json/Scanning.antt =====
-- scanJSONValueAtDepth reads exactly one value, and accepts it when it is not nested too deep and
-- every object in it has each of its keys once.
use mortris_server.Prelude.{
  ℕ, zero, suc, ◌+◌, ◌≤◌, ◌≡◌, refl, true, List, ◌∷◌, leb, arith, Bool, ◌&&◌, not, [], String,
  contains, string_eq,
}
use mortris_server.Contracts.Json.Decoder.{Token, Decoder}
use mortris_server.Contracts.Json.Scan.{scan_json_value_at_depth, scan_json_object, scan_json_array}
use mortris_server.Contracts.Json.Spec.{
  Json, Items, Fields, scalar_value, text_value, array, object, nil, cons, end, field, tokens,
  item_tokens, field_tokens, nesting, nesting_items, nesting_fields, cost, cost_items, cost_fields,
  unique_keys, unique_items, unique_fields, fresh_keys, keys,
}
use mortris_server.Contracts.Json.Verdict.{
  Verdict, Verdict-bind, Verdict-depth_and, Verdict-close, Verdict-key, unique_json_key-token,
  more-tokens, leb-max,
}

base : (depth : ℕ) → depth ≤ 64 → (leb (depth + 0) 64 && true) ≡ true
base depth h = ground arith

regroup_items : (a b u v : Bool) → ((a && b) && (u && v)) ≡ ((a && u) && (b && v))
regroup_items a b u v = ground arith

regroup_fields :
    (a b c g u v : Bool)
    → ((a && b) && ((c && g) && (u && v))) ≡ (c && ((a && u) && (b && (g && v))))
regroup_fields a b c g u v = ground arith

module _ (dec : Decoder) where
  open dec use {State, token, more, remaining, token_next, more_next}

  mutual
    unfolding scan_json_value_at_depth tokens nesting cost unique_keys

    scan-Verdict :
        (v : Json) (f depth : ℕ) (s : State) (rest : List Token)
        → cost v ≤ f
        → remaining s ≡ tokens v rest
        → Verdict dec
            (leb (depth + nesting v) 64 && unique_keys v)
            (scan_json_value_at_depth dec f true depth s)
            rest
    scan-Verdict scalar_value zero depth s rest c e = absurd (omega arith)
    scan-Verdict scalar_value (suc f) depth s rest c e =
        let (s', p, q) = token_next s _ rest e in
        Verdict-depth_and dec 0 depth true _ rest λ h. rw (p, base depth h) (s', refl, q)
    scan-Verdict (text_value k) zero depth s rest c e = absurd (omega arith)
    scan-Verdict (text_value k) (suc f) depth s rest c e =
        let (s', p, q) = token_next s _ rest e in
        Verdict-depth_and dec 0 depth true _ rest λ h. rw (p, base depth h) (s', refl, q)
    scan-Verdict (array xs) zero depth s rest c e = absurd (omega arith)
    scan-Verdict (array xs) (suc f) depth s rest c e =
        let (s', p, q) = token_next s _ _ e in
        Verdict-depth_and dec (nesting_items xs) depth _ _ rest
          λ h. rw p (scan_items-Verdict xs f depth s' rest (omega arith) q h)
    scan-Verdict (object fs) zero depth s rest c e = absurd (omega arith)
    scan-Verdict (object fs) (suc f) depth s rest c e =
        let (s', p, q) = token_next s _ _ e in
        Verdict-depth_and dec (nesting_fields fs) depth _ _ rest
          λ h. rw p (scan_fields-Verdict fs f [] depth s' rest (omega arith) q h)

    scan_items-Verdict :
        (xs : Items) (f depth : ℕ) (s : State) (rest : List Token)
        → cost_items xs ≤ f
        → remaining s ≡ item_tokens xs rest
        → depth ≤ 64
        → Verdict dec
            (leb (depth + nesting_items xs) 64 && unique_items xs)
            (scan_json_array dec f true depth s)
            rest
    scan_items-Verdict nil zero depth s rest c e h = absurd (omega arith)
    scan_items-Verdict nil (suc f) depth s rest c e h =
        rw (more_next s, e, base depth h) (Verdict-close dec s _ rest e)
    scan_items-Verdict (cons x xs) zero depth s rest c e h = absurd (omega arith)
    scan_items-Verdict (cons x xs) (suc f) depth s rest c e h =
        rw
          (
            more-tokens dec s x _ e,
            leb-max depth (nesting x) (nesting_items xs),
            regroup_items _ _ (unique_keys x) (unique_items xs),
          )
          (Verdict-bind dec _ _ _ _ (item_tokens xs rest) rest
            (scan-Verdict x f (suc depth) s (item_tokens xs rest) (omega arith) e)
            λ s₂ e₂. scan_items-Verdict xs f depth s₂ rest (omega arith) e₂ h)

    scan_fields-Verdict :
        (fs : Fields) (f : ℕ) (seen : List String) (depth : ℕ) (s : State) (rest : List Token)
        → cost_fields fs ≤ f
        → remaining s ≡ field_tokens fs rest
        → depth ≤ 64
        → Verdict dec
            (leb (depth + nesting_fields fs) 64 && (fresh_keys seen (keys fs) && unique_fields fs))
            (scan_json_object dec f true seen depth s)
            rest
    scan_fields-Verdict end zero seen depth s rest c e h = absurd (omega arith)
    scan_fields-Verdict end (suc f) seen depth s rest c e h =
        rw (more_next s, e, base depth h) (Verdict-close dec s _ rest e)
    scan_fields-Verdict (field k v fs) zero seen depth s rest c e h = absurd (omega arith)
    scan_fields-Verdict (field k v fs) (suc f) seen depth s rest c e h =
        let (s₁, p, q) = unique_json_key-token dec seen s k _ e in
        rw
          (
            more_next s,
            e,
            leb-max depth (nesting v) (nesting_fields fs),
            regroup_fields _ _ (not (contains seen k)) (fresh_keys (k ∷ seen) (keys fs))
                (unique_keys v) (unique_fields fs),
          )
          (Verdict-key dec seen s s₁ k _ _ rest p (
            Verdict-bind dec _ _ _ _ (field_tokens fs rest) rest
              (scan-Verdict v f (suc depth) s₁ (field_tokens fs rest) (omega arith) q)
              λ s₂ e₂. scan_fields-Verdict fs f (k ∷ seen) depth s₂ rest (omega arith) e₂ h))

  pub scan_json_value-Verdict :
      (v : Json) (f : ℕ) (s : State) (rest : List Token)
      → cost v ≤ f
      → remaining s ≡ tokens v rest
      → Verdict dec
          (leb (nesting v) 64 && unique_keys v)
          (scan_json_value_at_depth dec f true 0 s)
          rest
  scan_json_value-Verdict v f s rest c e =
      let z : 0 + nesting v ≡ nesting v = omega arith in rw z at (scan-Verdict v f 0 s rest c e)
