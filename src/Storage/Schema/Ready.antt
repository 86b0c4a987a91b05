-- ===== src/Storage/Schema/Ready.antt =====
-- When the store can use a database, and what the migration makes of it.
use subspace_daemon.Base.{
  Bool, Bool-cases, List, String, [], any-append, ap, arith, eq_iff, eq_refl, false, filter, inl,
  inr, is_empty, is_ok, not, refl, true, ◌&&◌, ◌++◌, ◌==◌, ◌||◌, ◌∷◌, ◌≡◌,
}
use subspace_daemon.Storage.Schema.{
  Schema, required_tables, added_columns, contains, missing_from, missing_required_tables,
  legacy_schema_present, create_tables, ensure_daemon_event_columns, check_columns, ensure_schema,
}

-- Every table and every column is there.
unfoldable pub is_complete : Schema → Bool
is_complete s =
    is_empty (missing_required_tables s) && is_empty (missing_from s.event_columns added_columns)

contains-filter :
    (p : String → Bool) (x : String) (ws : List String)
    → contains x (filter p ws) ≡ (contains x ws && p x)
unfolding contains
contains-filter p x [] = refl
contains-filter p x (w ∷ ws) = elim (Bool-cases (w == x)) [
  | inl e ↦ ground (arith, ap p ((eq_iff w x).0 e), contains-filter p x ws)
  | inr e ↦ ground (arith, contains-filter p x ws)
]

contains-append :
    (x : String) (xs ys : List String) → contains x (xs ++ ys) ≡ (contains x xs || contains x ys)
unfolding contains
contains-append x xs ys = any-append (λ y. y == x) xs ys

contains-missing_from :
    (have wanted : List String) (x : String)
    → contains x (missing_from have wanted) ≡ (contains x wanted && not (contains x have))
unfolding missing_from
contains-missing_from have wanted x = contains-filter (λ y. not (contains y have)) x wanted

missing_from-nil :
    (have wanted : List String)
    → ((x : String) → contains x wanted ≡ true → contains x have ≡ true)
    → missing_from have wanted ≡ []
unfolding missing_from contains
missing_from-nil have [] h = refl
missing_from-nil have (w ∷ ws) h =
    ground (arith, eq_refl w, h w, missing_from-nil have ws (λ x e. h x (ground (arith, e))))

-- With what was missing added, nothing is missing.
missing_from-append :
    (have wanted : List String) → missing_from (have ++ missing_from have wanted) wanted ≡ []
missing_from-append have wanted = missing_from-nil (have ++ missing_from have wanted) wanted (λ x e.
    ground (
      arith,
      contains-append x have (missing_from have wanted),
      contains-missing_from have wanted x,
    ))

create_tables_complete : (s : Schema) → missing_required_tables (create_tables s) ≡ []
unfolding missing_required_tables create_tables
create_tables_complete s = missing_from-append s.tables required_tables

not_legacy : contains "accepted_message" required_tables ≡ false
unfolding contains
not_legacy = refl

create_tables-legacy :
    (s : Schema) → legacy_schema_present (create_tables s) ≡ legacy_schema_present s
unfolding legacy_schema_present create_tables missing_required_tables
create_tables-legacy s = ground (
  arith,
  contains-append "accepted_message" s.tables (missing_from s.tables required_tables),
  contains-missing_from s.tables required_tables "accepted_message",
  not_legacy,
)

check_columns-tables : (s : Schema) (a : Bool) → (check_columns s a).0.tables ≡ s.tables
unfolding check_columns ensure_daemon_event_columns
check_columns-tables s a = ground arith

-- the migration of the columns, where no table is missing
check_columns-ok :
    (s : Schema) (a : Bool)
    → missing_required_tables s ≡ []
    → is_ok (check_columns s a).1 ≡ (a || is_empty (missing_from s.event_columns added_columns))
unfolding check_columns ensure_daemon_event_columns missing_required_tables
check_columns-ok s a h = ground arith

check_columns_complete :
    (s : Schema) (a : Bool)
    → is_ok (check_columns s a).1 ≡ true
    → is_complete (check_columns s a).0 ≡ true
unfolding check_columns ensure_daemon_event_columns missing_required_tables is_complete
check_columns_complete s a h = ground (arith, missing_from-append s.event_columns added_columns)

-- The check succeeds exactly on a database without the legacy table, and, if nothing may be
-- migrated, with every required table and column.
pub ensure_schema-ok :
    (s : Schema) (a : Bool)
    → is_ok (ensure_schema s a).1 ≡ (not (legacy_schema_present s) && (a || is_complete s))
unfolding ensure_schema is_complete
ensure_schema-ok s a =
    ground
      (arith, check_columns-ok s a, check_columns-ok (create_tables s) a, create_tables_complete s)

ensure_schema-is_complete :
    (s : Schema) (a : Bool)
    → is_ok (ensure_schema s a).1 ≡ true
    → is_complete (ensure_schema s a).0 ≡ true
unfolding ensure_schema
ensure_schema-is_complete s a h =
    ground (arith, check_columns_complete s a, check_columns_complete (create_tables s) a)

check_columns-legacy :
    (s : Schema) (a : Bool) → legacy_schema_present (check_columns s a).0 ≡ legacy_schema_present s
unfolding legacy_schema_present
check_columns-legacy s a = rw (check_columns-tables s a) refl

ensure_schema-legacy :
    (s : Schema) (a : Bool) → legacy_schema_present (ensure_schema s a).0 ≡ legacy_schema_present s
unfolding ensure_schema
ensure_schema-legacy s a = ground (
  arith,
  check_columns-legacy s a,
  check_columns-legacy (create_tables s) a,
  create_tables-legacy s,
)

-- Where the check succeeds, every required table and column is there afterwards, and checking
-- again succeeds, whether or not anything may be migrated.
pub ensure_schema_complete :
    (s : Schema) (a b : Bool)
    → is_ok (ensure_schema s a).1 ≡ true
    → (is_complete (ensure_schema s a).0 ≡ true)
      × (is_ok (ensure_schema (ensure_schema s a).0 b).1 ≡ true)
ensure_schema_complete s a b h =
    let complete = ensure_schema-is_complete s a h in
    let legacy = ensure_schema-legacy s a in
    (complete, ground (arith, ensure_schema-ok (ensure_schema s a).0 b, ensure_schema-ok s a))
