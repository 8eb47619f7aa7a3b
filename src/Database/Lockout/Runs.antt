-- ===== src/Database/Lockout/Runs.antt =====
-- The lockout in the database and the one in memory, on the same calls.
use onlyapi.Base.{
  List, String, [], arith, get, some, ℕ, ◌∷◌, ◌≡◌, ◌≤◌, Option-cases, eq_iff, has, inl, inr, refl,
  true, Bool-cases, ap, kept, leb, ltb, str_eq-cases, subst, sym, ◌+◌, ◌<◌, ◌∙◌, ◌≢◌, ap₂,
  get-set_self,
}
use onlyapi.Database.Lockout.{
  count_row, incremented, is_row_locked, record_row, reset_row, update_row,
}
use onlyapi.Database.Lockout.Agreement.{
  get-update_row, is_row_locked-agrees, record_row-agrees, record_row-others, update_row-others,
}
use onlyapi.Security.Lockout.{
  LockoutConfig, LockoutEntry, LockoutStore, fresh, record_failed_attempt, reset_attempts,
}
use onlyapi.Security.Lockout.Refinement.{
  Status, counting, expire, is_locked-refines, locked, locked_at, record_failed_attempt-refines,
  reset_attempts-refines, status, fail_status,
}
use onlyapi.Database.Lockout.Calls.{
  Call, Fits, answers, checks, fails, reports, resets, row_answers, row_step, shows, step,
}

-- A status at a later time.
later : ℕ → Status → Status
later t (counting n) = counting n
later t (locked u) = expire u t

status-later :
    (email : String) (now t : ℕ) (m : LockoutStore)
    → now ≤ t
    → status email t m ≡ later t (status email now m)
unfolding status later
status-later email now t m le = ground arith

has-update_row :
    (email j : String) (change : LockoutEntry → LockoutEntry) (m : LockoutStore)
    → has j (update_row email change m) ≡ has j m
unfolding update_row has
has-update_row email j change m = elim (Option-cases (get email m)) [
  | inl gone ↦ rw (update_row, gone) refl
  | inr (row, found) ↦ ground (arith, get-update_row email j change m row found, eq_iff email j)
]

has-count_row :
    (c : LockoutConfig) (email j : String) (now : ℕ) (row : LockoutEntry) (m : LockoutStore)
    → has j (count_row c email now row m).1 ≡ has j m
unfolding count_row
has-count_row c email j now row m =
    let counted = update_row email incremented m in
    let lock : LockoutEntry → LockoutEntry = λ _. record {
      attempts = row.attempts + 1;
      locked_until = some (now + c.lockout_duration_ms);
    } in
    let once = has-update_row email j incremented m in
    let twice = has-update_row email j lock counted ∙ once in
    elim (Bool-cases (leb c.max_attempts (row.attempts + 1))) [
      | inl t ↦ rw (count_row, t) twice
      | inr f ↦ rw (count_row, f) once
    ]

-- No failed login adds a row or takes one away.
has-record_row :
    (c : LockoutConfig) (email j : String) (now : ℕ) (m : LockoutStore)
    → has j (record_row c email now m).1 ≡ has j m
unfolding record_row
has-record_row c email j now m = elim (Option-cases (get email m)) [
  | inl gone ↦ rw (record_row, gone) refl
  | inr (row, found) ↦ elim (Option-cases row.locked_until) [
    | inl open_row ↦ rw (record_row, found, open_row) (has-count_row c email j now row m)
    | inr (t, until) ↦ elim (Bool-cases (ltb now t)) [
      | inl on ↦ rw (record_row, found, until, on) refl
      | inr over ↦
          rw (record_row, found, until, over)
            (has-update_row email j incremented (update_row email (λ _. fresh) m)
              ∙ has-update_row email j (λ _. fresh) m)
    ]
  ]
]

has-is_row_locked :
    (email j : String) (now : ℕ) (m : LockoutStore) → has j (is_row_locked email now m).1 ≡ has j m
unfolding is_row_locked reset_row
has-is_row_locked email j now m = ground (arith, has-update_row email j (λ _. fresh) m)

has-row_step :
    (c : LockoutConfig) (call : Call) (email j : String) (now : ℕ) (m : LockoutStore)
    → has j (row_step c call email now m).1 ≡ has j m
unfolding row_step reset_row
has-row_step c fails email j now m = has-record_row c email j now m
has-row_step c resets email j now m = has-update_row email j (λ _. fresh) m
has-row_step c checks email j now m = has-is_row_locked email j now m

Fits-row_step :
    (c : LockoutConfig) (call : Call) (email : String) (now t : ℕ) (m : LockoutStore)
    (calls : List (Call × String × ℕ))
    → Fits t m calls
    → Fits t (row_step c call email now m).1 calls
unfolding Fits
Fits-row_step c call email now t m [] f = tt
Fits-row_step c call email now t m ((call', email', t') ∷ calls) (le, k, f) =
    (le, has-row_step c call email email' now m ∙ k, Fits-row_step c call email now t' m calls f)

-- The statuses of all accounts are the same from a time on.
abbrev Same : ℕ → LockoutStore → LockoutStore → Type 0
Same now rows store = (j : String) (t : ℕ) → now ≤ t → status j t rows ≡ status j t store

-- Statuses that are the same now are the same later.
now_Same :
    (now : ℕ) (rows store : LockoutStore)
    → ((j : String) → status j now rows ≡ status j now store)
    → Same now rows store
now_Same now rows store same j t le =
    status-later j now t rows le ∙ ap (later t) (same j) ∙ sym (status-later j now t store le)

status-get :
    (j : String) (t : ℕ) (m m' : LockoutStore) → get j m ≡ get j m' → status j t m ≡ status j t m'
unfolding status
status-get j t m m' e = rw (status, e) refl

-- A change of one account keeps the statuses the same where it does so for that account.
one_account-Same :
    (email : String) (now : ℕ) (rows store rows' store' : LockoutStore)
    → Same now rows store
    → status email now rows' ≡ status email now store'
    → ((j : String) → j ≢ email → get j rows' ≡ get j rows)
    → ((j : String) → j ≢ email → get j store' ≡ get j store)
    → Same now rows' store'
one_account-Same email now rows store rows' store' s here others others' =
    now_Same now rows' store' (λ j. elim (str_eq-cases email j) [
      | inl (y, same) ↦ subst (λ k. status k now rows' ≡ status k now store') same here
      | inr (f, other) ↦
          let ne : j ≢ email = λ p. other (sym p) in
          status-get j now rows' rows (others j ne)
          ∙ s j now (omega arith)
          ∙ sym (status-get j now store' store (others' j ne))
    ])

reset_row-status :
    (email : String) (now : ℕ) (rows : LockoutStore)
    → status email now (reset_row email rows) ≡ counting 0
unfolding status reset_row update_row
reset_row-status email now rows = ground (arith, get-set_self email fresh rows)

-- One call: the same answer, and the same statuses.
step-Same :
    (c : LockoutConfig) (call : Call) (email : String) (now : ℕ) (rows store : LockoutStore)
    → 0 < c.lockout_duration_ms
    → 1 < c.max_attempts
    → has email rows ≡ true
    → Same now rows store
    → let (a, rows') = row_step c call email now rows in
      let (b, store') = step c call email now store in (a ≡ b) × Same now rows' store'
unfolding row_step step has reset_row
step-Same c fails email now rows store d more k s = elim (Option-cases (get email rows)) [
  | inl gone ↦ absurd (ground arith)
  | inr (row, found) ↦
      (let (held, after) = record_row-agrees c email now rows row d more found in
        let (held', after', others') = record_failed_attempt-refines c email now store d in
        let here = ap (fail_status c now) (s email now (omega arith)) in
        (
          ap reports (held ∙ ap (λ x. x.0) here ∙ sym held'),
          one_account-Same email now rows store (record_row c email now rows).1
              (record_failed_attempt c email now store).1 s
              (after ∙ ap (λ x. x.1) here ∙ sym after')
              (λ j ne. record_row-others c email j now rows ne) others',
        ))
]
step-Same c resets email now rows store d more k s =
    let (cleared, others') = reset_attempts-refines email now store in
    (
      refl,
      one_account-Same email now rows store (reset_row email rows) (reset_attempts email store) s
          (reset_row-status email now rows ∙ sym cleared)
          (λ j ne. update_row-others email j (λ _. fresh) rows ne) others',
    )
step-Same c checks email now rows store d more k s =
    let (at, kept) = is_row_locked-agrees email now rows in
    let (at', kept') = is_locked-refines email now store in
    (
      ap shows (at ∙ ap locked_at (s email now (omega arith)) ∙ sym at'),
      λ j t le. kept j t le ∙ s j t le ∙ sym (kept' j t le),
    )

-- On calls for accounts that have a row, at times that do not go back, where more than one failure is
-- allowed and the lock time is positive: from statuses that are the same, the lockout in the database
-- gives all the answers that the one in memory gives.
pub row_answers-answers :
    (c : LockoutConfig) (calls : List (Call × String × ℕ)) (now : ℕ) (rows store : LockoutStore)
    → 0 < c.lockout_duration_ms
    → 1 < c.max_attempts
    → Fits now rows calls
    → ((j : String) → status j now rows ≡ status j now store)
    → row_answers c calls rows ≡ answers c calls store
unfolding row_answers answers Fits
row_answers-answers c [] now rows store d more f s = refl
row_answers-answers c ((call, email, t) ∷ calls) now rows store d more (le, k, f) s =
    let same : Same t rows store = λ j u ge. now_Same now rows store s j u (omega arith) in
    let (a, after) = step-Same c call email t rows store d more k same in
    ap₂ (λ x xs. x ∷ xs) a
      (row_answers-answers c calls t (row_step c call email t rows).1 (step c call email t store).1
        d more (Fits-row_step c call email t t rows calls f) (λ j. after j t (omega arith)))
