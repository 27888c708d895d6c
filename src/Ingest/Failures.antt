-- ===== src/Ingest/Failures.antt =====
-- What a call that fails leaves behind.
use mortris_server.Prelude.{
  ◌≡◌, refl, sym, ◌∙◌, ap, String, Bool, List, Option, none, some, get_last?, inl, inr,
}
use mortris_server.Prelude.Int.{ℤ}
use mortris_server.Failure.{Failure, err}
use mortris_server.Contracts.Types.{BatchIngestRequest}
use mortris_server.Contracts.Library.{Library}
use mortris_server.Ratelimit.{RateLibrary}
use mortris_server.Ingest.Exec.{World, Exec, pure, transaction}
use mortris_server.Ingest.Exec.Atomic.{Result-cases, bind-ok, bind-err, transaction-err}
use mortris_server.Ingest.Prepare.{PreparedEvent}
use mortris_server.Ingest.Persist.{PersistedEvents, persist_body, persist_up_to, persist_batch}

module _ {rate : RateLibrary} (lib : Library) where
  -- When a batch cannot be stored, none of it is: whichever statement of the transaction fails, the
  -- begin and the commit included, the database is as it was.
  pub persist_batch-err :
      (req : BatchIngestRequest) (pes : List PreparedEvent) (strict : Bool) (received : ℤ)
      (w : World rate) (e : Failure)
      → (persist_batch lib req pes strict received w).0 ≡ err e
      → (persist_batch lib req pes strict received w).1.db ≡ w.db
  unfolding persist_batch pure
  persist_batch-err req pes strict received w e = go (get_last? pes)
    where
      stored : PreparedEvent → Exec rate PersistedEvents
      stored last = transaction (persist_body lib req last.event pes strict received)

      answered : PreparedEvent → PersistedEvents → Exec rate (PersistedEvents × String × String)
      answered last r = pure (r, last.event.app_version, last.event.build_number)

      go :
          (last : Option PreparedEvent)
          → (persist_up_to lib req pes strict received last w).0 ≡ err e
          → (persist_up_to lib req pes strict received last w).1.db ≡ w.db
      go none h = refl
      go (some last) h = elim (Result-cases (stored last w).0) [
        | inl (r, k) ↦
            absurd (cc (sym (ap (λ r. r.0) (bind-ok (stored last) (answered last) w r k)), h))
        | inr (f, k) ↦
            ap (λ r. r.1.db) (bind-err (stored last) (answered last) w f k)
            ∙ transaction-err _ f w k
      ]
