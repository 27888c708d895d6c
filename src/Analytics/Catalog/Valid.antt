-- ===== src/Analytics/Catalog/Valid.antt =====
-- Which puzzle catalogues pass the validation of puzzle_catalog_validation.go.
use mortris_server.Prelude.{
  ◌≡◌, ◌≢◌, ◌↔◌, refl, Bool, true, false, List, [], ◌∷◌, map, All, is_empty, arith,
}
use mortris_server.Prelude.Int.{pos, eqb_ℤ_iff, int_eq}
use mortris_server.Failure.{Failure, ok, >>=-eq-ok, reject_if}
use mortris_server.Analytics.Catalog.{
  PuzzleCatalog, PuzzleCatalogCity, is_revision, validate_puzzle_house, validate_puzzle_city,
  validate,
}
use mortris_server.Analytics.Catalog.Scan.{Distinct, scan_sound, scan_total}
use mortris_server.Analytics.Catalog.House.{
  IsHouse, All-imp, reject_if_iff, validate_puzzle_house-IsHouse, IsHouse-validate_puzzle_house,
}

pub record IsCity (c : PuzzleCatalogCity) : Type 0 where
  pub distinct : Distinct (map (λ h. h.house_id) c.houses)
  pub houses : All IsHouse c.houses

pub record IsCatalog (c : PuzzleCatalog) : Type 0 where
  pub version : c.schema_version ≡ pos 1
  pub revision : is_revision c.content_revision ≡ true
  pub some_city : c.cities ≢ []
  pub distinct : Distinct (map (λ c. c.city_id) c.cities)
  pub cities : All IsCity c.cities

validate_puzzle_city_iff : (c : PuzzleCatalogCity) → (validate_puzzle_city c ≡ ok tt) ↔ IsCity c
unfolding validate_puzzle_city
validate_puzzle_city_iff c = (
  λ e.
      let (r, e, _) = >>=-eq-ok _ _ e in
      let (checked, distinct, _) = scan_sound _ _ c.houses r e in
      record {
        distinct = distinct;
        houses = All-imp validate_puzzle_house-IsHouse c.houses checked;
      },
  λ v.
      let (r, e, _) =
        scan_total (λ h. h.house_id) validate_puzzle_house c.houses
          (All-imp IsHouse-validate_puzzle_house c.houses v.houses) v.distinct in
      rw e refl,
)

is_empty-ne : (cs : List PuzzleCatalogCity) → is_empty cs ≡ false → cs ≢ []
is_empty-ne [] e = absurd (cc)
is_empty-ne (c ∷ cs) e = λ h. cc

ne-is_empty : (cs : List PuzzleCatalogCity) → cs ≢ [] → is_empty cs ≡ false
ne-is_empty [] n = absurd (n refl)
ne-is_empty (c ∷ cs) n = refl

reject_if-false : (b : Bool) (e : Failure) → reject_if b e ≡ ok tt → b ≡ false
reject_if-false b e h = ground arith

validate-IsCatalog : (c : PuzzleCatalog) → validate c ≡ ok tt → IsCatalog c
unfolding validate
validate-IsCatalog c e =
    let (_, e_version, e) = >>=-eq-ok _ _ e in
    let (_, e_revision, e) = >>=-eq-ok _ _ e in
    let (_, e_cities, e) = >>=-eq-ok _ _ e in
    let (r, e, _) = >>=-eq-ok _ _ e in
    let (checked, distinct, _) = scan_sound _ _ c.cities r e in
    record {
      version = (eqb_ℤ_iff c.schema_version (pos 1)).0 ((reject_if_iff _ _).0 e_version);
      revision = (reject_if_iff _ _).0 e_revision;
      some_city = is_empty-ne c.cities (reject_if-false _ _ e_cities);
      distinct = distinct;
      cities = All-imp (λ c. (validate_puzzle_city_iff c).0) c.cities checked;
    }

IsCatalog-validate : (c : PuzzleCatalog) → IsCatalog c → validate c ≡ ok tt
unfolding validate
IsCatalog-validate c v =
    let (r, e, _) =
      scan_total (λ c. c.city_id) validate_puzzle_city c.cities
        (All-imp (λ c. (validate_puzzle_city_iff c).1) c.cities v.cities) v.distinct in
    rw
      (
        (eqb_ℤ_iff c.schema_version (pos 1)).1 v.version,
        v.revision,
        ne-is_empty c.cities v.some_city,
        e,
      )
      refl

-- PuzzleCatalog.Validate accepts exactly the catalogues of schema version 1 whose revision is 64
-- lower-case hexadecimal digits, that have a city, whose city, house, block, wave, inventory
-- group and target identifiers differ where they must, no target with two rules, no inventory
-- group without a name, and every reference to a block, a wave or a target of the same house.
pub validate_iff : (c : PuzzleCatalog) → (validate c ≡ ok tt) ↔ IsCatalog c
validate_iff c = (validate-IsCatalog c, IsCatalog-validate c)
