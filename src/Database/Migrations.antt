-- ===== src/Database/Migrations.antt =====
-- src/infrastructure/database/migrations/runner.ts. The database is its tables, `S`, and the rows of
-- _migrations by version. A migration changes the tables or throws, `none`; the transaction around it
-- then leaves the database as it was.
pub mod Idempotence
mod Tests
use onlyapi.Base.{
  Bool, List, Map, Option, String, [], delete, get, has, if◌then◌else◌, none, set, some, ℕ, ◌+◌,
  ◌∷◌, str_eq, true, false,
}
use onlyapi.Core.Results.{Result, err, ok}

pub record Migration (S : Type 0) : Type 0 where
  pub version : String
  pub name : String
  pub up : S → Option S
  pub down : S → Option S

pub record AppliedRow : Type 0 where
  pub name : String
  pub applied_at : ℕ

pub record Database (S : Type 0) : Type 0 where
  pub tables : S
  pub applied : Map AppliedRow

module _ {S : Type 0} where
  -- The transaction of one migration, which is refused too when the version is taken.
  pub apply_migration : Migration S → ℕ → Database S → Option (Database S)
  apply_migration m now db = elim (m.up db.tables) [
    | none ↦ none
    | some tables ↦
        if has m.version db.applied
        then none
        else some (record {
          tables = tables;
          applied = set m.version (record { name = m.name; applied_at = now }) db.applied;
        })
  ]

  -- The loop over the migrations, where `applied` is what getAppliedVersions returned and `so_far`
  -- are applied. A migration that throws ends it, `err`, after those before it.
  pub apply_pending :
      Map AppliedRow → List (Migration S) → ℕ → ℕ → Database S → Result ℕ (Unit {0}) × Database S
  unfolding apply_migration
  apply_pending applied [] now so_far db = (ok so_far, db)
  apply_pending applied (m ∷ ms) now so_far db =
      let skipped = apply_pending applied ms now so_far db in
      let run : Result ℕ (Unit {0}) × Database S = elim (apply_migration m now db) [
        | none ↦ (err tt, db)
        | some db' ↦ apply_pending applied ms now (so_far + 1) db'
      ] in
      if has m.version applied then skipped else run

  pub migrate_up : List (Migration S) → ℕ → Database S → Result ℕ (Unit {0}) × Database S
  unfolding apply_pending
  migrate_up migrations now db = apply_pending db.applied migrations now 0 db

  -- `migrations.find((m) => m.version === version)`
  pub find_migration : String → List (Migration S) → Option (Migration S)
  find_migration version [] = none
  find_migration version (m ∷ ms) =
      if str_eq m.version version then some m else find_migration version ms

  -- `last` is the version that `ORDER BY version DESC LIMIT 1` finds.
  pub migrate_down :
      (Map AppliedRow → Option String)
      → List (Migration S)
      → Database S
      → Result (Option String) (Unit {0}) × Database S
  unfolding find_migration
  migrate_down last migrations db = elim (last db.applied) [
    | none ↦ (ok none, db)
    | some version ↦ elim (find_migration version migrations) [
      | none ↦ (ok none, db)
      | some m ↦ elim (m.down db.tables) [
        | none ↦ (err tt, db)
        | some tables ↦
            (ok (some m.version), record { tables = tables; applied = delete m.version db.applied })
      ]
    ]
  ]
