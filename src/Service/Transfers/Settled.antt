-- ===== src/Service/Transfers/Settled.antt =====
-- The first part of execute, when nobody interferes: both accounts are read, and the source covers
-- the amount.
use transfer_demo.Prelude.{
  ◌≡◌, refl, ap, ◌∙◌, Bool, true, false, none, some, List, [], ◌∷◌, ℤ, ltb_ℤ, ◌≤ℤ◌, arith,
  if◌then◌else◌,
}
use transfer_demo.Decimal.{Decimal, DecimalLaws, IsScaled}
use transfer_demo.Uuid.{UuidCodec}
use transfer_demo.Domain.{sentinel, insufficient_funds}
use transfer_demo.Database.{Database, AccountRow, find_account}
use transfer_demo.Database.Accounts.{IsUnique, find_account-id}
use transfer_demo.Database.Statements.{order_by_id, among, member}
use transfer_demo.Action.{tx}
use transfer_demo.Action.Quiet.{quietly, bind-eq-ok, or_fail-eq, check-eq}
use transfer_demo.Repository.GoMap.{lookup}
use transfer_demo.Repository.Accounts.Laws.{collect, lookup-selected}
use transfer_demo.Repository.Accounts.Quiet.{lock_for_update-eq}
use transfer_demo.Service.Transfers.{TransferCmd, settle, execute, execute_locked}
use transfer_demo.Service.Transfers.Effect.{
  account_of, member_first, member_second, less_than-balance,
}

module _ ⦃dec : Decimal⦄ ⦃uuid : UuidCodec⦄ where
  pub looked_up :
      (ids : List ℤ) (id : ℤ) (rows : List AccountRow) {r : AccountRow}
      → IsUnique rows
      → member id ids ≡ true
      → find_account id rows ≡ some r
      → lookup id (collect (order_by_id (among ids rows)) []) ≡ some (account_of id r)
  looked_up ids id rows {r} u m f =
      lookup-selected ids id rows u
      ∙ rw (m, f) (ap (λ (i : ℤ). some (account_of i r)) (find_account-id id rows f))

  not_below : (b a : ℤ) → a ≤ℤ b → ltb_ℤ b a ≡ false
  not_below b a h = ground arith

  passes : {b : Bool} → b ≡ false → (if b then some (sentinel insufficient_funds) else none) ≡ none
  passes e = rw e refl

  pub execute-settle :
      (laws : DecimalLaws dec) (cmd : TransferCmd dec) (db : Database)
      {source destination : AccountRow}
      → IsScaled dec cmd.amount
      → IsUnique db.accounts
      → find_account cmd.source_id db.accounts ≡ some source
      → find_account cmd.destination_id db.accounts ≡ some destination
      → dec.to_numeric cmd.amount ≤ℤ source.balance
      → execute tx cmd (quietly db)
        ≡ settle tx cmd
            (account_of cmd.source_id source)
            (account_of cmd.destination_id destination)
            (quietly db)
  unfolding execute execute_locked
  execute-settle laws cmd db {source} scaled unique source_found destination_found covered =
      let s : ℤ = cmd.source_id in
      let d : ℤ = cmd.destination_id in
      bind-eq-ok _ _ (lock_for_update-eq (s ∷ d ∷ []) db)
      ∙ bind-eq-ok _ _ (
          or_fail-eq _ _
            (looked_up (s ∷ d ∷ []) s db.accounts unique (member_first s d) source_found))
      ∙ bind-eq-ok _ _ (
          or_fail-eq _ _
            (looked_up (s ∷ d ∷ []) d db.accounts unique (member_second s d) destination_found))
      ∙ bind-eq-ok _ _ (
          check-eq _ (
            passes (
              less_than-balance laws source.balance cmd.amount scaled
              ∙ not_below source.balance (dec.to_numeric cmd.amount) covered)))
