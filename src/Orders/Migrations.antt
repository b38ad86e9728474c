-- ===== src/Orders/Migrations.antt =====
-- The objects of a PostgreSQL database that apps/orders/migrations changes, and the operations of
-- Alembic that the migrations call. An operation that PostgreSQL refuses raises.
pub mod Versions
pub mod Declared
pub mod RoundTrip
mod Tests
use swarmscope.Base.{
  ℕ, Bool, true, false, not, ◌&&◌, ◌||◌, Option, none, some, List, [], ◌∷◌, ◌++◌, Text, any, all,
  same_text, if◌then◌else◌,
}

pub data ColumnType : Type 0 where
  uuid integer timestamptz jsonb : ColumnType
  varchar : ℕ → ColumnType

pub record Column : Type 0 where
  pub name : Text
  pub type : ColumnType
  pub nullable : Bool
  pub server_default : Option Text

-- A check names its text and the columns in it; a foreign key names its columns, the other table
-- with its schema and columns, and what a deletion does.
pub data Rule : Type 0 where
  primary_key unique : List Text → Rule
  check : Text → List Text → Rule
  foreign_key : List Text → Text → Text → List Text → Text → Rule

pub record Constraint : Type 0 where
  pub name : Text
  pub rule : Rule

pub record Index : Type 0 where
  pub name : Text
  pub columns : List Text
  pub predicate : Option Text

pub record Table : Type 0 where
  pub schema : Text
  pub name : Text
  pub columns : List Column
  pub constraints : List Constraint
  pub indexes : List Index

pub record Database : Type 0 where
  pub schemas : List Text
  pub tables : List Table

-- `op.execute` on the two schema statements, and the other operations, each with its schema
pub data Operation : Type 0 where
  create_schema_if_not_exists drop_schema_if_exists : Text → Operation
  create_table : Table → Operation
  drop_table : Text → Text → Operation
  create_index : Text → Text → Index → Operation
  drop_index : Text → Text → Operation
  add_column : Text → Text → Column → Operation
  drop_column : Text → Text → Text → Operation
  create_constraint : Text → Text → Constraint → Operation
  drop_constraint : Text → Text → Text → Operation

abbrev pub in_schema : Text → Table → Bool
in_schema schema t = same_text t.schema schema

abbrev pub is_table : Text → Text → Table → Bool
is_table schema name t = same_text t.schema schema && same_text t.name name

abbrev pub has_index : Text → Table → Bool
has_index name t = any (λ (i : Index). same_text i.name name) t.indexes

-- a relation of this name: tables and indexes of one schema share their names
abbrev pub takes_name : Text → Text → Table → Bool
takes_name schema name t = same_text t.schema schema && (same_text t.name name || has_index name t)

abbrev pub refers_to : Text → Text → Constraint → Bool
refers_to schema name c = elim c.rule [
  | foreign_key columns s t others ondelete ↦ same_text s schema && same_text t name
  | _ ↦ false
]

abbrev pub references : Text → Text → Table → Bool
references schema name t = any (refers_to schema name) t.constraints

abbrev pub target_exists : List Table → Constraint → Bool
target_exists tables c = elim c.rule [
  | foreign_key columns s t others ondelete ↦ any (is_table s t) tables
  | _ ↦ true
]

abbrev pub rule_columns : Rule → List Text
rule_columns (primary_key columns) = columns
rule_columns (unique columns) = columns
rule_columns (check text columns) = columns
rule_columns (foreign_key columns s t others ondelete) = columns

abbrev pub keep : {A : Type 0} → (A → Bool) → List A → List A
keep p [] = []
keep p (x ∷ xs) = if p x then x ∷ keep p xs else keep p xs

abbrev pub cons_tables : Table → Option (List Table) → Option (List Table)
cons_tables t none = none
cons_tables t (some ts) = some (t ∷ ts)

abbrev pub replace_with : Option Table → List Table → Option (List Table)
replace_with none ts = none
replace_with (some t) ts = some (t ∷ ts)

-- `f` on the first table that passes the test
abbrev pub change : (Table → Bool) → (Table → Option Table) → List Table → Option (List Table)
change p f [] = none
change p f (t ∷ ts) = if p t then replace_with (f t) ts else cons_tables t (change p f ts)

abbrev pub remove : (Table → Bool) → List Table → Option (List Table)
remove p [] = none
remove p (t ∷ ts) = if p t then some ts else cons_tables t (remove p ts)

abbrev pub with_tables : Database → Option (List Table) → Option Database
with_tables d none = none
with_tables d (some ts) = some (record d { tables = ts })

abbrev pub has_column : Text → Table → Bool
has_column name t = any (λ (c : Column). same_text c.name name) t.columns

abbrev pub has_constraint : Text → Table → Bool
has_constraint name t = any (λ (c : Constraint). same_text c.name name) t.constraints

abbrev pub plus_column : Column → Table → Option Table
plus_column c t =
    if has_column c.name t then none else some (record t { columns = t.columns ++ (c ∷ []) })

-- A dropped column takes its indexes and its constraints with it.
abbrev pub minus_column : Text → Table → Option Table
minus_column name t =
    if has_column name t
    then some (record t {
      columns = keep (λ (c : Column). not (same_text c.name name)) t.columns;
      constraints =
          keep (λ (c : Constraint). not (any (same_text name) (rule_columns c.rule))) t.constraints;
      indexes = keep (λ (i : Index). not (any (same_text name) i.columns)) t.indexes;
    })
    else none

abbrev pub plus_constraint : Constraint → Table → Option Table
plus_constraint c t =
    if has_constraint c.name t
    then none
    else some (record t { constraints = t.constraints ++ (c ∷ []) })

abbrev pub minus_constraint : Text → Table → Option Table
minus_constraint name t =
    if has_constraint name t
    then some (record t {
      constraints = keep (λ (c : Constraint). not (same_text c.name name)) t.constraints;
    })
    else none

abbrev pub plus_index : Index → Table → Option Table
plus_index i t =
    if all (λ name. has_column name t) i.columns
    then some (record t { indexes = t.indexes ++ (i ∷ []) })
    else none

abbrev pub minus_index : Text → Table → Option Table
minus_index name t =
    some (record t { indexes = keep (λ (i : Index). not (same_text i.name name)) t.indexes })

abbrev pub new_schema : Text → List Text → List Text
new_schema name schemas = if any (same_text name) schemas then schemas else name ∷ schemas

unfoldable pub apply_operation : Operation → Database → Option Database
apply_operation (create_schema_if_not_exists name) d =
    some (record d { schemas = new_schema name d.schemas })
apply_operation (drop_schema_if_exists name) d =
    if any (in_schema name) d.tables
    then none
    else some (record d { schemas = keep (λ s. not (same_text name s)) d.schemas })
apply_operation (create_table t) d =
    if any (takes_name t.schema t.name) d.tables
    then none
    else if all (target_exists d.tables) t.constraints
    then some (record d { tables = t ∷ d.tables })
    else none
apply_operation (drop_table schema name) d =
    with_tables d (elim (remove (is_table schema name) d.tables) [
      | none ↦ none
      | some rest ↦ if any (references schema name) rest then none else some rest
    ])
apply_operation (create_index schema table i) d =
    if any (takes_name schema i.name) d.tables
    then none
    else with_tables d (change (is_table schema table) (plus_index i) d.tables)
apply_operation (drop_index schema name) d =
    with_tables d
      (change (λ t. same_text t.schema schema && has_index name t) (minus_index name) d.tables)
apply_operation (add_column schema table c) d =
    with_tables d (change (is_table schema table) (plus_column c) d.tables)
apply_operation (drop_column schema table name) d =
    with_tables d (change (is_table schema table) (minus_column name) d.tables)
apply_operation (create_constraint schema table c) d =
    with_tables d (change (is_table schema table) (plus_constraint c) d.tables)
apply_operation (drop_constraint schema table name) d =
    with_tables d (change (is_table schema table) (minus_constraint name) d.tables)

abbrev and_apply : Operation → Option Database → Option Database
and_apply o none = none
and_apply o (some d) = apply_operation o d

-- after operations that may have raised
unfoldable pub apply_rest : List Operation → Option Database → Option Database
unfolding apply_operation
apply_rest [] r = r
apply_rest (o ∷ os) r = apply_rest os (and_apply o r)

-- a migration's operations, in the one transaction that `env.py` opens: all of them or none
abbrev pub apply_operations : List Operation → Database → Option Database
apply_operations os d = apply_rest os (some d)

-- one file of `versions`
pub record Migration : Type 0 where
  pub revision : Text
  pub down_revision : Option Text
  pub upgrade : List Operation
  pub downgrade : List Operation
