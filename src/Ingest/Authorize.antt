-- ===== src/Ingest/Authorize.antt =====
-- authorizeBatch and batchCredentialHash: the bearer credential of an installation.
use mortris_server.Prelude.{
  ℕ, String, ◌≡◌, refl, Bool, true, false, not, ◌&&◌, Option, none, some, List, [], ◌∷◌, str_eq,
  ◌==◌, arith,
}
use mortris_server.Failure.{
  Result, ok, err, ◌>>◌ as then_result, reject_if, new_error, unauthorized, invalid_request,
}
use mortris_server.Contracts.Library.{Library}
use mortris_server.Contracts.Validate.{is_credential}
use mortris_server.Ratelimit.{RateLibrary}
use mortris_server.Ingest.Db.{Db, Installation, Project, select_installation, select_project}
use mortris_server.Ingest.Exec.{Exec, lift, query, ◌>>=◌}

-- crypto/subtle's ConstantTimeCompare gives 1 exactly for equal contents.
unfoldable pub same_bytes : List ℕ → List ℕ → Bool
same_bytes [] [] = true
same_bytes (a ∷ as') (b ∷ bs) = a == b && same_bytes as' bs
same_bytes _ _ = false

pub same_bytes-eq : (a b : List ℕ) → same_bytes a b ≡ true → a ≡ b
unfolding same_bytes
same_bytes-eq [] [] h = refl
same_bytes-eq [] (b ∷ bs) h = cc
same_bytes-eq (a ∷ as') [] h = cc
same_bytes-eq (a ∷ as') (b ∷ bs) h = ground (arith, same_bytes-eq as' bs)

abbrev decoded_hash : Library → Option (List ℕ) → Result (List ℕ)
decoded_hash lib none = err (new_error 401 unauthorized)
decoded_hash lib (some credential) =
    then_result (reject_if (not (is_credential (some credential))) (new_error 401 unauthorized))
      (ok (lib.sha256 credential))

-- batchCredentialHash
unfoldable pub batch_credential_hash : Library → String → Result (List ℕ)
batch_credential_hash lib bearer_token =
    then_result (reject_if (str_eq bearer_token "") (new_error 401 unauthorized))
      (decoded_hash lib (lib.decode_base64 bearer_token))

abbrev with_project : Db → Option Installation → Option (Installation × Project)
with_project db none = none
with_project db (some i) = elim (select_project i.project_id db) [
  | none ↦ none
  | some p ↦ some (i, p)
]

-- SELECT ... FROM installations i JOIN projects p ON p.id = i.project_id WHERE ...
unfoldable pub select_credentials : String → String → Db → Option (Installation × Project)
select_credentials project install db = with_project db (select_installation project install db)

-- The checks on the row, in their order.
unfoldable pub check_credentials : List ℕ → Option (Installation × Project) → Result (String × Bool)
check_credentials provided none = err (new_error 401 unauthorized)
check_credentials provided (some (i, p)) =
    then_result (reject_if (not p.enabled) (new_error 400 invalid_request)) (
      then_result
        (reject_if (not (same_bytes i.credential_hash provided)) (new_error 401 unauthorized))
        (ok (p.environment, p.strict_catalog)))

-- (*Service).authorizeBatch: the project's environment and whether its catalog is strict.
unfoldable pub authorize_batch :
    {rate : RateLibrary} → Library → String → String → String → Exec rate (String × Bool)
authorize_batch lib project install bearer_token = do
  provided ← lift (batch_credential_hash lib bearer_token)
  row ← query (select_credentials project install)
  lift (check_credentials provided row)
