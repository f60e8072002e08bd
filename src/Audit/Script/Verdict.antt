-- ===== src/Audit/Script/Verdict.antt =====
-- When the script exits with status 0.
use transfer_demo.Prelude.{
  ◌≡◌, ◌↔◌, refl, Bool, true, false, some, List, [], ◌∷◌, eq_ℤ_iff, eq_ℤ_refl, int_laws, arith, ℤ,
  ◌+ℤ◌, ◌-ℤ◌,
}
use transfer_demo.Result.{done}
use transfer_demo.Database.{Database, AccountRow, find_account}
use transfer_demo.Database.Accounts.{IsUnique, find_account-id}
use transfer_demo.Database.Statements.{order_by_id, insert_by_id}
use transfer_demo.Audit.Sums.{total_balance, total_deposits, deposits_of, entries_of}
use transfer_demo.Domain.{direction_debit, direction_credit}
use transfer_demo.Audit.Soundness.{IsSound}
use transfer_demo.Audit.Script.{
  calculated, audit_accounts, exit_status, audit_connected, audit_database,
}

-- Of each row the balance is what its deposits and entries give.
abbrev pub Reconciled : Database → List AccountRow → Type 0
Reconciled db [] = Unit
Reconciled db (r ∷ rows) = (r.balance ≡ calculated db r.id) × Reconciled db rows

Reconciled-insert_by_id :
    (db : Database) (r : AccountRow) (rows : List AccountRow)
    → Reconciled db (insert_by_id r rows) ↔ Reconciled db (r ∷ rows)
unfolding insert_by_id
Reconciled-insert_by_id db r [] = (λ h. h, λ h. h)
Reconciled-insert_by_id db r (s ∷ rows) = ground (arith, Reconciled-insert_by_id db r rows)

Reconciled-order_by_id :
    (db : Database) (rows : List AccountRow) → Reconciled db (order_by_id rows) ↔ Reconciled db rows
unfolding order_by_id
Reconciled-order_by_id db [] = (λ h. h, λ h. h)
Reconciled-order_by_id db (r ∷ rows) =
    ground (arith, Reconciled-insert_by_id db r (order_by_id rows), Reconciled-order_by_id db rows)

audit_accounts_iff :
    (db : Database) (rows : List AccountRow)
    → (audit_accounts db rows).1 ≡ true ↔ Reconciled db rows
unfolding audit_accounts
audit_accounts_iff db [] = (λ h. tt, λ h. refl)
audit_accounts_iff db (r ∷ rows) =
    ground (arith, eq_ℤ_iff r.balance (calculated db r.id), audit_accounts_iff db rows)

exit_status_iff : (b : Bool) → exit_status b ≡ 0 ↔ b ≡ true
exit_status_iff true = (λ h. refl, λ h. refl)
exit_status_iff false = (λ h. cc, λ h. cc)

-- In the form of the script.
exits_iff :
    (db : Database)
    → (audit_database done db).1 ≡ 0
      ↔ (total_balance db.accounts ≡ total_deposits db.deposits) × Reconciled db db.accounts
unfolding audit_database audit_connected
exits_iff db = ground (
  arith,
  eq_ℤ_iff (total_balance db.accounts) (total_deposits db.deposits),
  exit_status_iff (audit_accounts db (order_by_id db.accounts)).1,
  audit_accounts_iff db (order_by_id db.accounts),
  Reconciled-order_by_id db db.accounts,
)

-- What the audit is to establish: the balances and the deposits have one sum, and in the double entry
-- of every account its balance with the debits is its deposits with the credits.
pub record Balances (db : Database) : Type 0 where
  pub sums : total_balance db.accounts ≡ total_deposits db.deposits
  pub entries :
      (id : ℤ) (r : AccountRow)
      → find_account id db.accounts ≡ some r
      → r.balance +ℤ entries_of direction_debit id db.ledger_entries
        ≡ deposits_of id db.deposits +ℤ entries_of direction_credit id db.ledger_entries

-- The form that the script computes.
in_balance : (b d c e : ℤ) → (b ≡ d +ℤ c -ℤ e) ↔ (b +ℤ e ≡ d +ℤ c)
in_balance b d c e = (λ h. grind (int_laws, h), λ h. grind (int_laws, h))

Reconciled-find :
    (db : Database) (rows : List AccountRow) (id : ℤ) (r : AccountRow)
    → Reconciled db rows
    → find_account id rows ≡ some r
    → r.balance ≡ calculated db id
Reconciled-find db [] id r h e = cc
Reconciled-find db (s ∷ rows) id r h e =
    ground (arith, eq_ℤ_iff s.id id, h, e, Reconciled-find db rows id r h.1)

Reconciled-suffix :
    (db : Database) (rows : List AccountRow)
    → IsUnique rows
    → ((id : ℤ) (r : AccountRow) → find_account id rows ≡ some r → r.balance ≡ calculated db id)
    → Reconciled db rows
Reconciled-suffix db [] u found = tt
Reconciled-suffix db (r ∷ rows) u found = (
  found r.id r (ground (arith, eq_ℤ_refl r.id)),
  Reconciled-suffix db rows u.1
      (λ id s e. found id s (ground (arith, eq_ℤ_iff r.id id, find_account-id id rows, u.0, e))),
)

-- Connected to a database whose account ids are unique, the script exits with status 0 exactly where
-- the sum of the balances is that of the deposits and, of every account that is found under its id,
-- the balance and the debits are the deposits and the credits.
pub audit_iff :
    (db : Database) → IsUnique db.accounts → (audit_database done db).1 ≡ 0 ↔ Balances db
audit_iff db unique =
    let computed = exits_iff db in
    (
      λ e.
          let (sums, reconciled) = computed.0 e in
          record {
            sums = sums;
            entries = λ id r found.
                (in_balance r.balance _ _ _).0
                  (Reconciled-find db db.accounts id r reconciled found);
          },
      λ h. computed.1 (
        h.sums,
        Reconciled-suffix db db.accounts unique
            (λ id r found. (in_balance r.balance _ _ _).1 (h.entries id r found)),
      ),
    )

-- On sound data the script finds nothing amiss.
pub audit-passes : (db : Database) → IsSound db → (audit_database done db).1 ≡ 0
audit-passes db sound = (audit_iff db sound.unique).1 (record {
  sums = sound.funded;
  entries = λ id r found. let audited = sound.audited id in rw found at audited;
})
