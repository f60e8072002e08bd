-- ===== src/Audit/Soundness/Openings.antt =====
-- Opening an account keeps the stored data sound.
use transfer_demo.Prelude.{
  ◌≡◌, refl, ap, Bool, true, false, none, ℤ, pos, ◌+ℤ◌, ◌≤ℤ◌, arith, int_laws, eq_ℤ_iff, ltb_ℤ,
  if◌then◌else◌,
}
use transfer_demo.Domain.{direction_debit, direction_credit}
use transfer_demo.Database.{Database, find_account}
use transfer_demo.Database.Effects.{with_account, with_deposit}
use transfer_demo.Audit.Sums.{
  balance_or_zero, balance_of, total_balance, total_deposits, deposits_of, entries_of,
}
use transfer_demo.Audit.Soundness.{IsSound}
use transfer_demo.Service.Accounts.Effect.{opened}

module _ (id b : ℤ) (db : Database) (h : IsSound db) (fresh : find_account id db.accounts ≡ none)
    (nonneg : pos 0 ≤ℤ b) where
  zero_before : balance_of id db.accounts ≡ pos 0
  zero_before = ap balance_or_zero fresh

  abbrev after : Bool → Database
  after c = if c then with_deposit id b (with_account id b db) else with_account id b db

  funded-after :
      (c : Bool)
      → ltb_ℤ (pos 0) b ≡ c
      → total_balance (after c).accounts ≡ total_deposits (after c).deposits
  funded-after true e = grind (int_laws, h.funded)
  funded-after false e = grind (int_laws, h.funded)

  audited-after :
      (c : Bool)
      → ltb_ℤ (pos 0) b ≡ c
      → (j : ℤ)
      → balance_of j (after c).accounts +ℤ entries_of direction_debit j (after c).ledger_entries
        ≡ deposits_of j (after c).deposits +ℤ entries_of direction_credit j (after c).ledger_entries
  audited-after true e j = grind (int_laws, h.audited j, eq_ℤ_iff id j, zero_before)
  audited-after false e j = grind (int_laws, h.audited j, eq_ℤ_iff id j, zero_before)

  after-IsSound : (c : Bool) → ltb_ℤ (pos 0) b ≡ c → IsSound (after c)
  after-IsSound true e = record {
    unique = (fresh, h.unique);
    nonneg = λ j. ground (arith, h.nonneg j);
    audited = audited-after true e;
    funded = funded-after true e;
    paired = h.paired;
    keys = h.keys;
    ids = h.ids;
    entered = h.entered;
    ahead = h.ahead;
  }
  after-IsSound false e = record {
    unique = (fresh, h.unique);
    nonneg = λ j. ground (arith, h.nonneg j);
    audited = audited-after false e;
    funded = funded-after false e;
    paired = h.paired;
    keys = h.keys;
    ids = h.ids;
    entered = h.entered;
    ahead = h.ahead;
  }

  pub opened-IsSound : IsSound (opened id b db)
  opened-IsSound = after-IsSound (ltb_ℤ (pos 0) b) refl
