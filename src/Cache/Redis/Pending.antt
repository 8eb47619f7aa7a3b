-- ===== src/Cache/Redis/Pending.antt =====
-- Which calls are answered, and with what.
use onlyapi.Base.{
  All-append, Option-cases, some_inj, absent_some, All, Bool-cases, List, [], ap, arith, inl, inr,
  some, sym, ℕ, ◌+◌, ◌++◌, ◌<◌, ◌≡◌, ◌≢◌, ◌∙◌, ◌∷◌, some_inj,
}
use onlyapi.Cache.Redis.{
  Connection, Numbers, create_connection, includes_crlf, on_data, send_command,
}

-- Data that arrives piece by piece.
abbrev pub on_all : List (List ℕ) → Connection → Connection
on_all [] s = s
on_all (chunk ∷ chunks) s = on_all chunks (on_data chunk s)

abbrev pub concat : List (List ℕ) → List ℕ
concat [] = []
concat (x ∷ xs) = x ++ concat xs

-- The calls and the data that a connection sees.
pub data Event : Type 0 where
  sends : List (List ℕ) → Event
  reads : List ℕ → Event

All-weaken {ℓ} :
    {A : Type ℓ} (P Q : A → Type 0) (xs : List A) → ((x : A) → P x → Q x) → All P xs → All Q xs
All-weaken P Q [] f h = tt
All-weaken P Q (x ∷ xs) f (h, hs) = (f x h, All-weaken P Q xs f hs)

module _ (N : Numbers) where
  abbrev pub run : List Event → Connection → Connection
  run [] s = s
  run (sends args ∷ es) s = run es (send_command N args s)
  run (reads chunk ∷ es) s = run es (on_data chunk s)

  -- No answer went to the call, and none will: it is not the one that waits.
  abbrev pub IsLost : ℕ → Connection → Type 0
  IsLost call s =
      (call < s.calls) × (s.resolve_response ≢ some call) × All (λ a. a.0 ≢ call) s.answered

  on_data-IsLost :
      (call : ℕ) (chunk : List ℕ) (s : Connection) → IsLost call s → IsLost call (on_data chunk s)
  unfolding on_data
  on_data-IsLost call chunk s (old, ne, none_yet) = elim (Option-cases s.resolve_response) [
    | inl n ↦ rw (n, on_data) (old, ne, none_yet)
    | inr (k, e) ↦ elim (Bool-cases (includes_crlf (s.response_buffer ++ chunk))) [
      | inl t ↦
          rw (e, t, on_data)
            (
              old,
              λ p. absent_some (sym p),
              All-append (λ a. a.0 ≢ call) s.answered ((k, s.response_buffer ++ chunk) ∷ [])
                  none_yet ((λ p. ne (e ∙ ap some p)), tt),
            )
      | inr f ↦ rw (e, f, on_data) (old, ne, none_yet)
    ]
  ]

  run-IsLost :
      (call : ℕ) (es : List Event) (s : Connection) → IsLost call s → IsLost call (run es s)
  unfolding send_command
  run-IsLost call [] s h = h
  run-IsLost call (sends args ∷ es) s (old, ne, none_yet) =
      run-IsLost call es (send_command N args s)
        (omega arith, (λ e. absurd (omega (arith, some_inj e))), none_yet)
  run-IsLost call (reads chunk ∷ es) s h =
      run-IsLost call es (on_data chunk s) (on_data-IsLost call chunk s h)

  -- The call that waits is the newest one or older, and is not answered yet.
  abbrev IsFresh : Connection → Type 0
  IsFresh s =
      All (λ a. a.0 < s.calls) s.answered
      × ((k : ℕ) → s.resolve_response ≡ some k → (k < s.calls) × All (λ a. a.0 ≢ k) s.answered)

  send-IsFresh :
      (args : List (List ℕ)) (s : Connection) → IsFresh s → IsFresh (send_command N args s)
  unfolding send_command
  send-IsFresh args s (old, h) = (
    All-weaken (λ a. a.0 < s.calls) (λ a. a.0 < s.calls + 1) s.answered (λ a lt. omega arith) old,
    λ k e.
        let same : s.calls ≡ k = some_inj e in
        (
          omega arith,
          All-weaken (λ a. a.0 < s.calls) (λ a. a.0 ≢ k) s.answered (λ a lt p. absurd (omega arith))
              old,
        ),
  )

  on_data-IsFresh : (chunk : List ℕ) (s : Connection) → IsFresh s → IsFresh (on_data chunk s)
  unfolding on_data
  on_data-IsFresh chunk s (old, h) = elim (Option-cases s.resolve_response) [
    | inl n ↦ rw (n, on_data) (old, h)
    | inr (k, e) ↦ elim (Bool-cases (includes_crlf (s.response_buffer ++ chunk))) [
      | inl t ↦
          rw (e, t, on_data)
            (
              All-append (λ a. a.0 < s.calls) s.answered ((k, s.response_buffer ++ chunk) ∷ []) old
                  ((h k e).0, tt),
              λ j p. absurd (absent_some (sym p)),
            )
      | inr f ↦ rw (e, f, on_data) (old, h)
    ]
  ]

  run-IsFresh : (es : List Event) (s : Connection) → IsFresh s → IsFresh (run es s)
  run-IsFresh [] s h = h
  run-IsFresh (sends args ∷ es) s h = run-IsFresh es (send_command N args s) (send-IsFresh args s h)
  run-IsFresh (reads chunk ∷ es) s h = run-IsFresh es (on_data chunk s) (on_data-IsFresh chunk s h)

  start-IsFresh : IsFresh create_connection
  unfolding create_connection
  start-IsFresh = (tt, λ k e. absurd (absent_some (sym e)))

  -- A call that still waits when the next command is sent is never answered, whatever is sent and read
  -- from then on.
  pub overtaken :
      (before after : List Event) (args : List (List ℕ)) (k : ℕ)
      → (run before create_connection).resolve_response ≡ some k
      → All (λ a. a.0 ≢ k) (run after (send_command N args (run before create_connection))).answered
  unfolding send_command
  overtaken before after args k e =
      let s = run before create_connection in
      let (old, h) = run-IsFresh before create_connection start-IsFresh in
      let (lt, none_yet) = h k e in
      let lost : IsLost k (send_command N args s) =
        (omega arith, (λ p. absurd (omega (arith, some_inj p))), none_yet) in
      (run-IsLost k after (send_command N args s) lost).2
