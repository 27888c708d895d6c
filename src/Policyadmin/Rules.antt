-- ===== src/Policyadmin/Rules.antt =====
-- What the administration of the rules keeps.
use mortris_server.Prelude.{
  ℕ, ◌≡◌, refl, sym, ◌∙◌, ap, ap₂, String, Bool, true, false, Option, none, some, List, [], ◌∷◌,
  All, keep, str_eq, eq_iff, arith, if◌then◌else◌, any, ◌+◌, ◌≢◌, ◌&&◌,
}
use mathlib.Core.Path.{subst}
use mortris_server.Prelude.Int.{ℤ, pos, ◌<ℤ◌}
use mortris_server.Failure.{Result, ok, err, other}
use mortris_server.Ratelimit.{RateLibrary}
use mortris_server.Ingest.Db.{Db, PolicyRule, is_project}
use mortris_server.Ingest.Exec.{World}
use mortris_server.Ingest.Exec.Keeps.{
  Keeps, Keeps-bind, Keeps-lift, Keeps-pure, Keeps-execute, Keeps-statement, Keeps-transaction,
}
use mortris_server.Ingest.Exec.Yields.{Yields-lift, Keeps-bind-Yields}
use mortris_server.Ingest.Rows.{statement-eq-ok}
use mortris_server.Policyadmin.{
  CreateInput, is_valid_mode, validate_input, rule_of, insert_rule, is_rule, delete_rule, behind,
  deleted, create_body, create, delete_body, delete,
}

-- The rules of a project, in the table's order.
pub own_rules : String → List PolicyRule → List PolicyRule
own_rules p = keep (λ r. str_eq r.project_id p)

-- What Create lets into the table.
pub record IsRule (r : PolicyRule) : Type 0 where
  pub mode : is_valid_mode r.mode ≡ true
  pub seconds : pos 0 <ℤ r.next_check_seconds
  pub reason : r.reason ≢ ""
  pub project : r.project_id ≢ ""

-- One call by an administrator.
pub data Change : Type 0 where
  creation : ℤ → CreateInput → Change
  deletion : ℤ → String → ℕ → Change

abbrev pub project_of : Change → String
project_of (creation admin i) = i.project_id
project_of (deletion admin project id) = project

module _ {rate : RateLibrary} where
  unfoldable pub apply_change : Change → World rate → World rate
  apply_change (creation admin i) w = (create admin i w).1
  apply_change (deletion admin project id) w = (delete admin project id w).1

-- What the two statements keep of the rules.
pub record RuleInvariant (Q : List PolicyRule → Type 0) (c : Change) : Type 0 where
  insert :
      (i : CreateInput) (t : ℤ) (db db' : Db) (r : PolicyRule)
      → project_of c ≡ i.project_id
      → validate_input i ≡ ok tt
      → insert_rule i t db ≡ ok (r, db')
      → Q db.policy_rules
      → Q db'.policy_rules
  remove :
      (id : ℕ) (db db' : Db) (m : String)
      → deleted db (delete_rule id (project_of c) db.policy_rules) ≡ ok (m, db')
      → Q db.policy_rules
      → Q db'.policy_rules

insert_rule-eq-ok :
    (i : CreateInput) (t : ℤ) (db db' : Db) (r : PolicyRule)
    → insert_rule i t db ≡ ok (r, db')
    → db'.policy_rules ≡ rule_of i db.next_rule_id t ∷ db.policy_rules
unfolding insert_rule
insert_rule-eq-ok i t db db' r h =
    go (any (is_project i.project_id) db.projects && is_valid_mode i.mode) h
  where
    go :
        (b : Bool)
        → ◌≡◌ {A = Result (PolicyRule × Db)}
            (if b
              then ok (
                rule_of i db.next_rule_id t,
                record db {
                  policy_rules = rule_of i db.next_rule_id t ∷ db.policy_rules;
                  next_rule_id = db.next_rule_id + 1;
                },
              )
              else err other)
            (ok (r, db'))
        → db'.policy_rules ≡ rule_of i db.next_rule_id t ∷ db.policy_rules
    go true h = sym (ap (λ db. db.policy_rules) (statement-eq-ok h))
    go false h = cc

deleted-eq-ok :
    (db db' : Db) (o : Option (String × List PolicyRule)) (m : String)
    → deleted db o ≡ ok (m, db')
    → o ≡ some (m, db'.policy_rules)
deleted-eq-ok db db' none m h = cc
deleted-eq-ok db db' (some (mode, rules)) m h =
    ap some (ap₂ (λ m rs. (m, rs)) (same h) (ap (λ db. db.policy_rules) (statement-eq-ok h)))
  where
    same :
        {db db' : Db} {a b : String}
        → ◌≡◌ {A = Result (String × Db)} (ok (a, db)) (ok (b, db'))
        → a ≡ b
    same e = cc

same_rest :
    {a b : String} {x y : List PolicyRule}
    → ◌≡◌ {A = Option (String × List PolicyRule)} (some (a, x)) (some (b, y))
    → x ≡ y
same_rest e = cc

delete_rule-own :
    (id : ℕ) (project p : String) (rs : List PolicyRule) (m : String) (rest : List PolicyRule)
    → project ≢ p
    → delete_rule id project rs ≡ some (m, rest)
    → own_rules p rest ≡ own_rules p rs
unfolding delete_rule own_rules is_rule
delete_rule-own id project p [] m rest d h = cc
delete_rule-own id project p (r ∷ rs) m rest d h =
    go (is_rule id project r) refl (delete_rule id project rs) h
      λ m rest e. delete_rule-own id project p rs m rest d e
  where
    keep-cons :
        (xs ys : List PolicyRule)
        → own_rules p xs ≡ own_rules p ys
        → own_rules p (r ∷ xs) ≡ own_rules p (r ∷ ys)
    keep-cons xs ys e = rw e refl

    go :
        (b : Bool)
        → is_rule id project r ≡ b
        → (o : Option (String × List PolicyRule))
        → (if b then some (r.mode, rs) else behind r o) ≡ some (m, rest)
        → ((m : String) (rest : List PolicyRule)
            → o ≡ some (m, rest)
            → own_rules p rest ≡ own_rules p rs)
        → own_rules p rest ≡ own_rules p (r ∷ rs)
    go true e o h ih =
        ap (own_rules p) (sym (same_rest h))
        ∙ ground (arith, eq_iff r.project_id project, eq_iff r.project_id p)
    go false e none h ih = absurd (cc)
    go false e (some (m', rest')) h ih =
        ap (own_rules p) (sym (same_rest h)) ∙ keep-cons rest' rs (ih m' rest' refl)

delete_rule-All :
    (P : PolicyRule → Type 0) (id : ℕ) (project : String) (rs : List PolicyRule) (m : String)
    (rest : List PolicyRule)
    → delete_rule id project rs ≡ some (m, rest)
    → All P rs
    → All P rest
unfolding delete_rule
delete_rule-All P id project [] m rest h k = absurd (cc)
delete_rule-All P id project (r ∷ rs) m rest h k =
    go (is_rule id project r) (delete_rule id project rs) h
      λ m rest e. delete_rule-All P id project rs m rest e k.1
  where
    go :
        (b : Bool) (o : Option (String × List PolicyRule))
        → (if b then some (r.mode, rs) else behind r o) ≡ some (m, rest)
        → ((m : String) (rest : List PolicyRule) → o ≡ some (m, rest) → All P rest)
        → All P rest
    go true o h ih = subst (All P) (same_rest h) k.1
    go false none h ih = absurd (cc)
    go false (some (m', rest')) h ih = subst (All P) (same_rest h) (k.0, ih m' rest' refl)

own_rules-cons :
    (p : String) (r : PolicyRule) (rs : List PolicyRule)
    → r.project_id ≢ p
    → own_rules p (r ∷ rs) ≡ own_rules p rs
unfolding own_rules
own_rules-cons p r rs d = ground (arith, eq_iff r.project_id p)

rule_of-IsRule :
    (i : CreateInput) (id : ℕ) (t : ℤ) → validate_input i ≡ ok tt → IsRule (rule_of i id t)
unfolding validate_input rule_of
rule_of-IsRule i id t h = ground (arith, eq_iff i.reason "", eq_iff i.project_id "")

pub Own-invariant :
    (p : String) (before : List PolicyRule) (c : Change)
    → project_of c ≢ p
    → RuleInvariant (λ rs. own_rules p rs ≡ own_rules p before) c
unfolding rule_of
Own-invariant p before c d = record {
  insert = λ i t db db' r same v e h.
      ap (own_rules p) (insert_rule-eq-ok i t db db' r e)
      ∙ own_rules-cons p (rule_of i db.next_rule_id t) db.policy_rules (λ q. d (same ∙ q))
      ∙ h;
  remove = λ id db db' m e h.
      delete_rule-own id (project_of c) p db.policy_rules m db'.policy_rules d
        (deleted-eq-ok db db' (delete_rule id (project_of c) db.policy_rules) m e)
      ∙ h;
}

IsRule-invariant : (c : Change) → RuleInvariant (All IsRule) c
IsRule-invariant c = record {
  insert = λ i t db db' r same v e h.
      subst (All IsRule) (sym (insert_rule-eq-ok i t db db' r e))
        (rule_of-IsRule i db.next_rule_id t v, h);
  remove = λ id db db' m e h.
      delete_rule-All IsRule id (project_of c) db.policy_rules m db'.policy_rules
        (deleted-eq-ok db db' (delete_rule id (project_of c) db.policy_rules) m e) h;
}

module _ {rate : RateLibrary} {Q : List PolicyRule → Type 0} where
  pub create-Keeps :
      (admin : ℤ) (i : CreateInput)
      → RuleInvariant Q (creation admin i)
      → Keeps {rate = rate} (λ db. Q db.policy_rules) (create admin i)
  unfolding create create_body
  create-Keeps admin i inv =
      Keeps-bind-Yields (λ _. validate_input i ≡ ok tt) _ _ (Keeps-lift _)
        (Yields-lift _ (validate_input i) λ x e. e)
        λ x v. Keeps-transaction _ (
          Keeps-bind _ _ (Keeps-statement _ λ t db r db' h e. inv.insert i t db db' r refl v e h)
            λ r. Keeps-bind _ _ (Keeps-execute _ λ t db h. h) λ _. Keeps-pure r)

  pub delete-Keeps :
      (admin : ℤ) (project : String) (id : ℕ)
      → RuleInvariant Q (deletion admin project id)
      → Keeps {rate = rate} (λ db. Q db.policy_rules) (delete admin project id)
  unfolding delete delete_body
  delete-Keeps admin project id inv = Keeps-transaction _ (
      Keeps-bind _ _ (Keeps-statement _ λ t db m db' h e. inv.remove id db db' m e h)
        λ m. Keeps-execute _ λ t db h. h)

  apply_change-keeps :
      (c : Change) (w : World rate)
      → RuleInvariant Q c
      → Q w.db.policy_rules
      → Q (apply_change c w).db.policy_rules
  unfolding apply_change
  apply_change-keeps (creation admin i) w inv h = (create-Keeps admin i inv).at w h
  apply_change-keeps (deletion admin project id) w inv h =
      (delete-Keeps admin project id inv).at w h

module _ {rate : RateLibrary} where
  -- A call for one project, whether it succeeds or fails, leaves the rules of every other project
  -- as they are and in their order.
  apply_change-isolated :
      (c : Change) (p : String) (w : World rate)
      → project_of c ≢ p
      → own_rules p (apply_change c w).db.policy_rules ≡ own_rules p w.db.policy_rules
  apply_change-isolated c p w d =
      apply_change-keeps c w (Own-invariant p w.db.policy_rules c d) refl

  -- The calls keep the table's rules well formed: each has one of the three modes, a positive time
  -- to the next check, a reason and a project.
  pub apply_change-IsRule :
      (c : Change) (w : World rate)
      → All IsRule w.db.policy_rules
      → All IsRule (apply_change c w).db.policy_rules
  apply_change-IsRule c w h = apply_change-keeps c w (IsRule-invariant c) h
