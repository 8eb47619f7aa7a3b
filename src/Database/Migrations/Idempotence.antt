-- ===== src/Database/Migrations/Idempotence.antt =====
-- What is applied after `migrate_up`.
use onlyapi.Base.{
  bind_some, absent_some, some_inj, All, Bool, Bool-cases, List, Map, Option-cases, String, [], ap,
  false, get-set_ne, get-set_self, has, if◌then◌else◌, inl, inr, none, refl, set, some,
  str_eq-cases, subst, sym, true, ℕ, ◌+◌, ◌≡◌, ◌∙◌, ◌∷◌, kept,
}
use onlyapi.Core.Results.{Result, err, ok}
use onlyapi.Database.Migrations.{
  AppliedRow, Database, Migration, apply_migration, apply_pending, migrate_up,
}

has-set_self :
    (k : String) (row : AppliedRow) (rows : Map AppliedRow) → has k (set k row rows) ≡ true
unfolding has
has-set_self k row rows =
    ap (λ o. elim o as (λ x. Bool) [ none ↦ false | some _ ↦ true ]) (get-set_self k row rows)

has-set :
    (v k : String) (row : AppliedRow) (rows : Map AppliedRow)
    → has v rows ≡ true
    → has v (set k row rows) ≡ true
unfolding has
has-set v k row rows h = elim (str_eq-cases v k) [
  | inl (y, same) ↦ subst (λ x. has x (set k row rows) ≡ true) (sym same) (has-set_self k row rows)
  | inr (f, other) ↦
      ap (λ o. elim o as (λ x. Bool) [ none ↦ false | some _ ↦ true ])
        (get-set_ne k v row rows other)
      ∙ h
]

-- Every version of the first is a version of the second.
abbrev Within : Map AppliedRow → Map AppliedRow → Type 0
Within rows rows' = (v : String) → has v rows ≡ true → has v rows' ≡ true

failed : (n : ℕ) → ok n ≡ err (tt {0}) → ⊥
failed n h = cc

module _ {S : Type 0} where
  -- The version is among the rows.
  abbrev pub IsApplied : Map AppliedRow → Migration S → Type 0
  IsApplied applied m = has m.version applied ≡ true

  -- A migration that is run is applied, and what was applied before it stays.
  apply_migration-some :
      (m : Migration S) (now : ℕ) (db db' : Database S)
      → apply_migration m now db ≡ some db'
      → IsApplied db'.applied m × Within db.applied db'.applied
  unfolding apply_migration
  apply_migration-some m now db db' h =
      let row : AppliedRow = record { name = m.name; applied_at = now } in
      let after : S → Database S =
        λ t. record { tables = t; applied = set m.version row db.applied } in
      let run = λ (t : S). if has m.version db.applied then none else some (after t) in
      let (tables, e, h') = bind_some (m.up db.tables) run h in
      elim (Bool-cases (has m.version db.applied)) [
        | inl t ↦
            absurd (absent_some (sym h' ∙ ap (λ b. if b then none else some (after tables)) t))
        | inr f ↦
            let same : after tables ≡ db' =
              some_inj (sym (ap (λ b. if b then none else some (after tables)) f) ∙ h') in
            subst (λ (d : Database S). IsApplied d.applied m × Within db.applied d.applied) same
              (
                has-set_self m.version row db.applied,
                λ v held. has-set v m.version row db.applied held,
              )
      ]

  -- Where the loop ends without an error, every migration is applied.
  apply_pending-ok :
      (applied : Map AppliedRow) (ms : List (Migration S)) (now so_far n : ℕ) (db db' : Database S)
      → Within applied db.applied
      → apply_pending applied ms now so_far db ≡ (ok n, db')
      → All (IsApplied db'.applied) ms × Within db.applied db'.applied
  unfolding apply_pending
  apply_pending-ok applied [] now so_far n db db' w h = (
    tt,
    subst (λ (d : Database S). Within db.applied d.applied) (ap (λ r. r.1) h) (λ v held. held),
  )
  apply_pending-ok applied (m ∷ ms) now so_far n db db' w h =
      elim (Bool-cases (has m.version applied)) [
        | inl t ↦
            let rest : apply_pending applied ms now so_far db ≡ (ok n, db') =
              sym (rw (apply_pending, t) refl) ∙ h in
            let (all, kept) = apply_pending-ok applied ms now so_far n db db' w rest in
            ((kept m.version (w m.version t), all), kept)
        | inr f ↦ elim (Option-cases (apply_migration m now db)) [
          | inl e ↦ absurd (
              let thrown : apply_pending applied (m ∷ ms) now so_far db ≡ (err tt, db) =
                rw (apply_pending, f, e) refl in
              failed n (ap (λ (r : Result ℕ (Unit {0}) × Database S). r.0) (sym h ∙ thrown)))
          | inr (d, e) ↦
              let (held, kept) = apply_migration-some m now db d e in
              let rest : apply_pending applied ms now (so_far + 1) d ≡ (ok n, db') =
                sym (rw (apply_pending, f, e) refl) ∙ h in
              let (all, kept') =
                apply_pending-ok applied ms now (so_far + 1) n d db' (λ v x. kept v (w v x)) rest in
              ((kept' m.version held, all), λ v x. kept' v (kept v x))
        ]
      ]

  -- Where every migration is applied, the loop does nothing.
  apply_pending-none :
      (applied : Map AppliedRow) (ms : List (Migration S)) (now so_far : ℕ) (db : Database S)
      → All (IsApplied applied) ms
      → apply_pending applied ms now so_far db ≡ (ok so_far, db)
  unfolding apply_pending
  apply_pending-none applied [] now so_far db h = refl
  apply_pending-none applied (m ∷ ms) now so_far db (h, hs) =
      rw (apply_pending, h) (apply_pending-none applied ms now so_far db hs)

  -- After a run of `migrate_up` that throws nothing every migration is applied, and a second run, at
  -- any time, applies none and leaves the database as it is.
  pub migrate_up-twice :
      (ms : List (Migration S)) (now later n : ℕ) (db db' : Database S)
      → migrate_up ms now db ≡ (ok n, db')
      → All (IsApplied db'.applied) ms × (migrate_up ms later db' ≡ (ok 0, db'))
  unfolding migrate_up
  migrate_up-twice ms now later n db db' h =
      let (all, kept) = apply_pending-ok db.applied ms now 0 n db db' (λ v held. held) h in
      (all, apply_pending-none db'.applied ms later 0 db' all)
