-- ===== src/Contracts/Validate/Order.antt =====
-- Go visits a map in any order. Whether a property bag is accepted does not depend on it.
use mathlib.Core.List.{Perm, Permᴰ}
use mathlib.Core.Bool.{Bool-discrete}
use mathlib.Core.HLevel.{hedberg}
use mathlib.Core.Logic.{∥∥₁_elim}
use mortris_server.Prelude.{
  ◌≡◌, refl, ◌∙◌, ap, Bool, ◌&&◌, List, [], ◌∷◌, length, all, not, ltb, arith, String, suc,
}
use Prim.Native.String.{len}
use mortris_server.Failure.{is_ok}
use mortris_server.Contracts.Types.{EventProperties, PropertyValue}
use mortris_server.Contracts.Library.{Library}
use mortris_server.Contracts.Validate.{
  validate_value, validate_entries, validate_properties, max_property_key_bytes, max_properties,
  fits_encoded,
}

abbrev passes : String × PropertyValue → Bool
passes (key, value) = not (ltb max_property_key_bytes (len key)) && is_ok (validate_value value)

validate_entries-all : (ps : EventProperties) → is_ok (validate_entries ps) ≡ all passes ps
unfolding validate_entries
validate_entries-all [] = refl
validate_entries-all ((key, value) ∷ ps) = ground (arith, validate_entries-all ps)

&&_swap : (a b c : Bool) → (a && (b && c)) ≡ (b && (a && c))
&&_swap a b c = ground arith

all-perm {ℓ} : {A : Type ℓ} (p : A → Bool) {xs ys : List A} → Permᴰ xs ys → all p xs ≡ all p ys
all-perm p Permᴰ.nil = refl
all-perm p (Permᴰ.cons e q) = rw (e, all-perm p q)
all-perm p (Permᴰ.swap {a' = x} {b' = y} {l = l} e f) = rw (e, f) (&&_swap (p y) (p x) (all p l))
all-perm p (Permᴰ.trans q r) = all-perm p q ∙ all-perm p r

length-perm {ℓ} : {A : Type ℓ} {xs ys : List A} → Permᴰ xs ys → length xs ≡ length ys
length-perm Permᴰ.nil = refl
length-perm (Permᴰ.cons e q) = ap suc (length-perm q)
length-perm (Permᴰ.swap e f) = refl
length-perm (Permᴰ.trans q r) = length-perm q ∙ length-perm r

verdict :
    (lib : Library) (ps : EventProperties)
    → is_ok (validate_properties lib ps) ≡ (
        not (ltb max_properties (length ps))
        && (all passes ps && fits_encoded (lib.marshal_length ps)))
unfolding validate_properties
verdict lib ps = rw (← validate_entries-all ps) (ground arith)

-- Whether the properties of an event are accepted does not depend on the order in which the map
-- is visited, as long as json.Marshal's output has one length for all orders.
pub validate_properties-perm :
    (lib : Library)
    → ((ps qs : EventProperties) → Perm ps qs → lib.marshal_length ps ≡ lib.marshal_length qs)
    → (ps qs : EventProperties) → Perm ps qs
    → is_ok (validate_properties lib ps) ≡ is_ok (validate_properties lib qs)
validate_properties-perm lib sorted ps qs h =
    ∥∥₁_elim h (hedberg Bool-discrete _ _)
      λ d. rw (verdict lib ps, verdict lib qs, sorted ps qs h, all-perm passes d, length-perm d)
