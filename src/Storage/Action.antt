-- ===== src/Storage/Action.antt =====
-- src/storage.rs: what the operations on a connection share. A failing statement leaves what
-- the earlier ones wrote, as the code opens no transaction.
use subspace_daemon.Base.{Bool, Option, Result, err, none, ok, some}
use subspace_daemon.Storage.Schema.{StorageError, ensure_schema, row_not_found}
use subspace_daemon.Storage.Tables.{Database}

abbrev pub Action : Type 0 → Type 0 → Type 0
Action F A = Database F → Database F × Result StorageError A

abbrev pub pure : {F A : Type 0} → A → Action F A
pure a d = (d, ok a)

-- `fallible(...)?`, where nothing is written
abbrev pub lift : {F A : Type 0} → Result StorageError A → Action F A
lift r d = (d, r)

abbrev pub modify : {F : Type 0} → (Database F → Database F) → Action F (Unit {0})
modify f d = (f d, ok tt)

-- `query_row`: the selected row, and an error if there is none
abbrev pub query_row : {F A : Type 0} → (Database F → Option A) → Action F A
query_row q d = elim (q d) [ none ↦ (d, err row_not_found) | some a ↦ (d, ok a) ]

abbrev pub follow :
    {F A B : Type 0}
    → (A → Action F B)
    → Database F
    → Result StorageError A
    → Database F × Result StorageError B
follow f d (ok a) = f a d
follow f d (err e) = (d, err e)

infixr 5 ◌⟫=◌ ◌⟫◌
abbrev pub ◌⟫=◌ : {F A B : Type 0} → Action F A → (A → Action F B) → Action F B
(m ⟫= f) d = let r = m d in follow f r.0 r.1

abbrev pub ◌⟫◌ : {F B : Type 0} → Action F (Unit {0}) → Action F B → Action F B
m ⟫ k = m ⟫= λ _. k

-- `with_connection`, with the `ensure_schema` that each caller starts with
unfoldable pub with_schema : {F A : Type 0} → Bool → Action F A → Action F A
with_schema auto_migrate k d =
    let checked = ensure_schema d.schema auto_migrate in
    follow (λ _. k) (record d { schema = checked.0 }) checked.1
