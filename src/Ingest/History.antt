-- ===== src/Ingest/History.antt =====
-- What no later request changes: the credential of an installation, and a stored event.
use mortris_server.Prelude.{
  ◌≡◌, refl, ◌∙◌, String, Bool, true, false, some, List, [], ◌∷◌, any, find, eq_iff, inl, inr,
  arith, if◌then◌else◌,
}
use mathlib.Core.Path.{subst}
use mortris_server.Prelude.Int.{ℤ}
use mortris_server.Contracts.Library.{Library}
use mortris_server.Ratelimit.{RateLibrary}
use mortris_server.Ingest.Exec.{World}
use mortris_server.Ingest.Db.{
  Installation, EventRow, is_installation, is_event_key, update_installations, select_installation,
}
use mortris_server.Ingest.Rows.{
  IsUpdate, is_installation-update, Over, RowInvariant, insert_event-eq-ok, add_installation-eq-ok,
}
use mortris_server.Ingest.Service.{Request, serve_all, serve_all-keeps}

-- `j` is a later state of the installation `i`.
pub record Later (i j : Installation) : Type 0 where
  pub credential : j.credential_hash ≡ i.credential_hash
  pub registered : j.registered_at ≡ i.registered_at
  pub activated : (t : ℤ) → i.activated_at ≡ some t → j.activated_at ≡ some t

-- The installation under a key is there, in a later state.
abbrev pub StillThere : String → String → Installation → List Installation → List EventRow → Type 0
StillThere p s i is rs = (j : Installation) × (find (is_installation p s) is ≡ some j) × Later i j

abbrev pub StillStored : String → String → EventRow → List Installation → List EventRow → Type 0
StillStored p e r is rs = find (is_event_key p e) rs ≡ some r

module _ (f : Installation → Installation) (u : IsUpdate f) where
  Later-update : (b : Bool) (i j : Installation) → Later i j → Later i (if b then f j else j)
  Later-update false i j l = l
  Later-update true i j l = record {
    credential = u.credential j ∙ l.credential;
    registered = u.registered j ∙ l.registered;
    activated = λ t h. u.activated j t (l.activated t h);
  }

  StillThere-update :
      (p s project install : String) (i : Installation) (is : List Installation)
      (rs : List EventRow)
      → StillThere p s i is rs
      → StillThere p s i (update_installations f project install is) rs
  unfolding update_installations
  StillThere-update p s project install i [] rs h = h
  StillThere-update p s project install i (k ∷ ks) rs (j, h, l) =
      rw (is_installation-update f u p s (is_installation project install k) k)
        (go _ h (λ k. StillThere-update p s project install i ks rs (j, k, l)))
    where
      later_k : Installation
      later_k = if is_installation project install k then f k else k

      go :
          (b : Bool)
          → (if b then some k else find (is_installation p s) ks) ≡ some j
          → (find (is_installation p s) ks ≡ some j
              → StillThere p s i (update_installations f project install ks) rs)
          → (x : Installation) × ((if b
                then some later_k
                else find (is_installation p s) (update_installations f project install ks))
              ≡ some x)
            × Later i x
      go true h rest = (
        later_k,
        refl,
        Later-update (is_installation project install k) i k (subst (Later i) (cc) l),
      )
      go false h rest = rest h

find-any :
    (p e : String) (rs : List EventRow) (r : EventRow)
    → find (is_event_key p e) rs ≡ some r
    → any (is_event_key p e) rs ≡ true
find-any p e [] r h = cc
find-any p e (x ∷ rs) r h = ground (arith, find-any p e rs r)

find_installation-any :
    (p s : String) (is : List Installation) (i : Installation)
    → find (is_installation p s) is ≡ some i
    → any (is_installation p s) is ≡ true
find_installation-any p s [] i h = cc
find_installation-any p s (x ∷ is) i h = ground (arith, find_installation-any p s is i)

find-installation_cons :
    (p s : String) (new j : Installation) (is : List Installation)
    → any (is_installation new.project_id new.install_id) is ≡ false
    → find (is_installation p s) is ≡ some j
    → find (is_installation p s) (new ∷ is) ≡ some j
find-installation_cons p s new j is fresh h =
    ground (arith, eq_iff new.project_id p, eq_iff new.install_id s, find_installation-any p s is j)

find-event_cons :
    (p e : String) (new r : EventRow) (rs : List EventRow)
    → any (is_event_key new.project_id new.event.event_id) rs ≡ false
    → find (is_event_key p e) rs ≡ some r
    → find (is_event_key p e) (new ∷ rs) ≡ some r
find-event_cons p e new r rs fresh h =
    ground (arith, eq_iff new.project_id p, eq_iff new.event.event_id e, find-any p e rs r)

module _ (lib : Library) where
  StillThere-invariant : (p s : String) (i : Installation) → RowInvariant lib (StillThere p s i)
  StillThere-invariant p s i = record {
    update = λ f project install db u h.
        StillThere-update f u p s project install i db.installations db.events h;
    insert = λ row db db' b v k t h e. elim (insert_event-eq-ok row db db' b e) [
      | inl same ↦ subst (Over (StillThere p s i)) same h
      | inr (new, known, same) ↦ subst (Over (StillThere p s i)) same h
    ];
    add = λ new db db' x (j, h, l) e.
        let (fresh, same) = add_installation-eq-ok new db db' x e in
        subst (Over (StillThere p s i)) same
          (j, find-installation_cons p s new j db.installations fresh h, l);
  }

  StillStored-invariant : (p e : String) (r : EventRow) → RowInvariant lib (StillStored p e r)
  StillStored-invariant p e r = record {
    update = λ f project install db u h. h;
    insert = λ row db db' b v k t h q. elim (insert_event-eq-ok row db db' b q) [
      | inl same ↦ subst (Over (StillStored p e r)) same h
      | inr (new, known, same) ↦
          subst (Over (StillStored p e r)) same (find-event_cons p e row r db.events new h)
    ];
    add = λ i db db' x h q.
        subst (Over (StillStored p e r)) (add_installation-eq-ok i db db' x q).1 h;
  }

module _ {rate : RateLibrary} (lib : Library) where
  -- An installation is never taken over or forgotten: after any sequence of requests it is still
  -- found under its key, with the credential hash and the time of its registration, and with the
  -- time of its activation once it has one.
  pub serve_all-installation :
      (project install : String) (i : Installation) (rs : List Request) (w : World rate)
      → select_installation project install w.db ≡ some i
      → (j : Installation) × (select_installation project install (serve_all lib rs w).db ≡ some j)
        × Later i j
  unfolding select_installation
  serve_all-installation project install i rs w h =
      serve_all-keeps lib (StillThere-invariant lib project install i) rs w
        (i, h, record { credential = refl; registered = refl; activated = λ t k. k })

  -- A stored event is never replaced or lost: after any sequence of requests the same row is found
  -- under its project and id, also when an event with that id was sent again.
  pub serve_all-event :
      (project event : String) (row : EventRow) (rs : List Request) (w : World rate)
      → find (is_event_key project event) w.db.events ≡ some row
      → find (is_event_key project event) (serve_all lib rs w).db.events ≡ some row
  serve_all-event project event row rs w h =
      serve_all-keeps lib (StillStored-invariant lib project event row) rs w h
