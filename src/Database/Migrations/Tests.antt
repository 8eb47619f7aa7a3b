-- ===== src/Database/Migrations/Tests.antt =====
-- Runs of the migration runner over tables that are a list of names.
use onlyapi.Base.{All, List, String, [], delete, get, has, none, refl, set, some, ◌≡◌, ◌∷◌}
use onlyapi.Core.Results.{ok}
use onlyapi.Database.Migrations.{
  Database, Migration, apply_migration, apply_pending, find_migration, migrate_down, migrate_up,
}
use onlyapi.Database.Migrations.Idempotence.{IsApplied, migrate_up-twice}

abbrev creates : String → String → Migration (List String)
creates version table = record {
  version = version;
  name = table;
  up = λ tables. some (table ∷ tables);
  down = λ tables. elim tables [ [] ↦ none | t ∷ ts ↦ some ts ];
}

abbrev two : List (Migration (List String))
two = creates "001" "users" ∷ creates "002" "audit_log" ∷ []

abbrev empty : Database (List String)
empty = record { tables = []; applied = [] }

abbrev done : Database (List String)
done = record {
  tables = "audit_log" ∷ "users" ∷ [];
  applied =
      ("001", record { name = "users"; applied_at = 7 })
      ∷ ("002", record { name = "audit_log"; applied_at = 7 })
      ∷ [];
}

both_run : migrate_up two 7 empty ≡ (ok 2, done)
unfolding migrate_up apply_pending apply_migration has get set
both_run = refl

migrate_up-twice_example : All (IsApplied done.applied) two × (migrate_up two 9 done ≡ (ok 0, done))
migrate_up-twice_example = migrate_up-twice two 7 9 2 empty done both_run

-- The newest is undone first.
last_undone : migrate_down (λ rows. some "002") two done ≡ (
  ok (some "002"),
  record {
    tables = "users" ∷ [];
    applied = ("001", record { name = "users"; applied_at = 7 }) ∷ [];
  },
)
unfolding migrate_down find_migration delete
last_undone = refl
