-- ===== src/Tests/Labels.antt =====
-- The labels of the repositories' statements.
use transfer_demo.Prelude.{◌≡◌, refl, none, some}
use transfer_demo.Platform.Tracer.{text, operation_name}

locked_label :
    operation_name
      (text "SELECT id, balance FROM accounts WHERE id = ANY($1) ORDER BY id FOR UPDATE")
    ≡ some (text "select accounts (locked)")
unfolding operation_name
locked_label = refl

insert_label :
    operation_name (text "INSERT INTO accounts(id, balance) VALUES ($1, $2)")
    ≡ some (text "insert accounts(id")
unfolding operation_name
insert_label = refl

update_label :
    operation_name (text "UPDATE accounts\nSET balance = $2 WHERE id = $1")
    ≡ some (text "update accounts")
unfolding operation_name
update_label = refl

panics : operation_name (text " update ") ≡ none
unfolding operation_name
panics = refl
