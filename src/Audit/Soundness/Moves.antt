-- ===== src/Audit/Soundness/Moves.antt =====
-- A transfer keeps the stored data sound.
use mathlib.Core.Bool.{false≢true}
use transfer_demo.Prelude.{
  ℕ, ◌+◌, ◌≤◌, ◌≡◌, ap, sym, ◌∙◌, Bool-cases, inl, inr, true, false, Option, some, List, [], ◌∷◌,
  String, ℤ, pos, pos_part, neg_part, ◌+ℤ◌, ◌-ℤ◌, ◌≤ℤ◌, arith, int_laws, eq_ℤ, eq_ℤ_iff,
  if◌then◌else◌,
}
use transfer_demo.Domain.{direction_debit, direction_credit}
use transfer_demo.Database.{AccountRow, TransferRow, LedgerRow, Database, find_account, key_taken}
use transfer_demo.Database.Accounts.{IsUnique-set_balance}
use transfer_demo.Audit.Sums.{
  balance_or_zero, balance_of, total_balance, total_deposits, deposits_of, total_entries,
  entries_of, balance_of-set_balance, total_balance-set_balance, has_account-set_balance,
}
use transfer_demo.Audit.Soundness.{IsSound, IsDescending, IsEntered}
use transfer_demo.Database.Statements.{set_balance}
use transfer_demo.Service.Transfers.Effect.{moved}

-- Entries of a newer transfer change nothing for the older ones.
IsEntered-cons :
    (e : LedgerRow) (ledger : List LedgerRow) (bound : ℕ) (rows : List TransferRow)
    → IsDescending bound rows
    → bound ≤ e.transfer_id
    → IsEntered ledger rows
    → IsEntered (e ∷ ledger) rows
IsEntered-cons e ledger bound [] d le h = tt
IsEntered-cons e ledger bound (r ∷ rows) d le h =
    (ground arith, IsEntered-cons e ledger r.id rows d.1 (omega arith) h.1)

-- The audit of one account: its balance `b`, debits, deposits and credits.
credit_side :
    (b r a debits deposits credits : ℤ)
    → b ≡ r
    → b +ℤ debits ≡ deposits +ℤ credits
    → r +ℤ a +ℤ (pos 0 +ℤ (pos 0 +ℤ debits)) ≡ deposits +ℤ (a +ℤ (pos 0 +ℤ credits))
credit_side b r a debits deposits credits e h =
    omega (int_laws, ap pos_part e, ap neg_part e, ap pos_part h, ap neg_part h)

debit_side :
    (b r a debits deposits credits : ℤ)
    → b ≡ r
    → b +ℤ debits ≡ deposits +ℤ credits
    → r -ℤ a +ℤ (pos 0 +ℤ (a +ℤ debits)) ≡ deposits +ℤ (pos 0 +ℤ (pos 0 +ℤ credits))
debit_side b r a debits deposits credits e h =
    omega (int_laws, ap pos_part e, ap neg_part e, ap pos_part h, ap neg_part h)

no_side :
    (b debits deposits credits : ℤ)
    → b +ℤ debits ≡ deposits +ℤ credits
    → b +ℤ (pos 0 +ℤ (pos 0 +ℤ debits)) ≡ deposits +ℤ (pos 0 +ℤ (pos 0 +ℤ credits))
no_side b debits deposits credits h = omega (int_laws, ap pos_part h, ap neg_part h)

module _ (key : Option ℕ) (s d a : ℤ) (rs rd : AccountRow) (db : Database) (h : IsSound db)
    (fs : find_account s db.accounts ≡ some rs) (fd : find_account d db.accounts ≡ some rd)
    (ne : eq_ℤ s d ≡ false) (covered : a ≤ℤ rs.balance) (positive : pos 1 ≤ℤ a)
    (free : key_taken key db.transfers ≡ false) where
  abbrev after : Database
  after = moved key s d a rs.balance rd.balance db

  balance_of-moved :
      (id : ℤ)
      → balance_of id after.accounts ≡ (
          if eq_ℤ d id
          then rd.balance +ℤ a
          else if eq_ℤ s id
          then rs.balance -ℤ a
          else balance_of id db.accounts)
  balance_of-moved id = ground (
    arith,
    balance_of-set_balance d id (rd.balance +ℤ a) db.now
        (set_balance s (rs.balance -ℤ a) db.now db.accounts),
    balance_of-set_balance s id (rs.balance -ℤ a) db.now db.accounts,
    has_account-set_balance s d (rs.balance -ℤ a) db.now db.accounts,
  )

  source_balance : balance_of s db.accounts ≡ rs.balance
  source_balance = ap balance_or_zero fs

  destination_balance : balance_of d db.accounts ≡ rd.balance
  destination_balance = ap balance_or_zero fd

  nonneg-moved : (id : ℤ) → pos 0 ≤ℤ balance_of id after.accounts
  nonneg-moved id =
      rw (balance_of-moved id)
        (grind (int_laws, h.nonneg id, h.nonneg d, destination_balance, source_balance))

  at_source : (id : ℤ) → eq_ℤ s id ≡ true → balance_of id db.accounts ≡ rs.balance
  at_source id e =
      ap (λ (i : ℤ). balance_of i db.accounts) (sym ((eq_ℤ_iff s id).0 e)) ∙ source_balance

  at_destination : (id : ℤ) → eq_ℤ d id ≡ true → balance_of id db.accounts ≡ rd.balance
  at_destination id e =
      ap (λ (i : ℤ). balance_of i db.accounts) (sym ((eq_ℤ_iff d id).0 e)) ∙ destination_balance

  apart : (id : ℤ) → eq_ℤ s id ≡ true → eq_ℤ d id ≡ true → ⊥
  apart id e f =
      false≢true (sym ne ∙ (eq_ℤ_iff s d).1 ((eq_ℤ_iff s id).0 e ∙ sym ((eq_ℤ_iff d id).0 f)))

  audited-moved :
      (id : ℤ)
      → balance_of id after.accounts +ℤ entries_of direction_debit id after.ledger_entries
        ≡ deposits_of id after.deposits +ℤ entries_of direction_credit id after.ledger_entries
  audited-moved id = elim (Bool-cases (eq_ℤ d id)) [
    | inl e ↦ elim (Bool-cases (eq_ℤ s id)) [
      | inl f ↦ absurd (apart id f e)
      | inr f ↦
          rw (balance_of-moved id, e, f)
            (credit_side _ _ _ _ _ _ (at_destination id e) (h.audited id))
    ]
    | inr e ↦ elim (Bool-cases (eq_ℤ s id)) [
      | inl f ↦
          rw (balance_of-moved id, e, f) (debit_side _ _ _ _ _ _ (at_source id f) (h.audited id))
      | inr f ↦ rw (balance_of-moved id, e, f) (no_side _ _ _ _ (h.audited id))
    ]
  ]

  funded-moved : total_balance after.accounts ≡ total_deposits after.deposits
  funded-moved =
      let rows = set_balance s (rs.balance -ℤ a) db.now db.accounts in
      grind (
        int_laws,
        h.funded,
        destination_balance,
        source_balance,
        ne,
        total_balance-set_balance s (rs.balance -ℤ a) db.now db.accounts h.unique,
        total_balance-set_balance d (rd.balance +ℤ a) db.now rows
            (IsUnique-set_balance s (rs.balance -ℤ a) db.now db.accounts h.unique),
        has_account-set_balance s d (rs.balance -ℤ a) db.now db.accounts,
        balance_of-set_balance s d (rs.balance -ℤ a) db.now db.accounts,
      )

  paired-moved :
      total_entries direction_debit after.ledger_entries
      ≡ total_entries direction_credit after.ledger_entries
  paired-moved = grind (int_laws, h.paired)

  abbrev entry : ℕ → ℤ → String → ℤ → LedgerRow
  entry id account_id direction balance_after = record {
    id = id;
    transfer_id = db.transfers_seq + 1;
    account_id = account_id;
    direction = direction;
    amount = a;
    balance_after = balance_after;
    created_at = db.now;
  }

  IsEntered-moved : IsEntered after.ledger_entries after.transfers
  IsEntered-moved =
      let n : ℕ = db.transfers_seq + 1 in
      let debit = entry (db.ledger_entries_seq + 1) s direction_debit (rs.balance -ℤ a) in
      let credit = entry (db.ledger_entries_seq + 1 + 1) d direction_credit (rd.balance +ℤ a) in
      (
        ground (arith, h.ahead n),
        IsEntered-cons credit (debit ∷ db.ledger_entries) n db.transfers h.ids (omega arith)
            (IsEntered-cons debit db.ledger_entries n db.transfers h.ids (omega arith) h.entered),
      )

  pub moved-IsSound : IsSound after
  moved-IsSound = record {
    unique = IsUnique-set_balance _ _ _ _ (IsUnique-set_balance _ _ _ _ h.unique);
    nonneg = nonneg-moved;
    audited = audited-moved;
    funded = funded-moved;
    paired = paired-moved;
    keys = (free, h.keys);
    ids = (omega arith, h.ids);
    entered = IsEntered-moved;
    ahead = λ n lt. ground (arith, h.ahead n);
  }
