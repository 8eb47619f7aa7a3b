-- ===== src/Application/Auth/Replay.antt =====
-- A refresh token that was exchanged or logged out stays refused: the laws that this rests on.
pub mod Requests
pub mod Interleaved
use onlyapi.Application.Auth.{Ports, day_ms, revoked_token}
use onlyapi.Application.Auth.Sessions.{refresh, refresh_check}
use onlyapi.Base.{
  String, arith, inl, inr, str_eq-cases, subst, sym, true, ℕ, ◌*◌, ◌+◌, ◌<◌, ◌≡◌, ◌≢◌, ◌≤◌, Bool,
  false, if◌then◌else◌,
}
use onlyapi.Core.Errors.{AppError}
use onlyapi.Core.Operations.{Op, attempt, ◌>>=◌}
use onlyapi.Core.Results.{Outcome, err, ok}
use onlyapi.Core.Tokens.{TokenPayload}
use onlyapi.Database.Families.{RefreshTokenFamily}

-- Whatever it returns, the operation keeps a property of the state.
abbrev pub Keeps : {S A : Type 0} → (S → Type 0) → Op S A → Type 0
Keeps {S} B p = (s : S) → B s → B (p s).1

-- The calls that do not add to the blacklist keep the property.
pub record PortsKeep {S : Type 0} (P : Ports S) (B : S → Type 0) : Type 0 where
  pub verify_password : (a b : String) → Keeps B (P.verify_password a b)
  pub find_by_email : (a : String) → Keeps B (P.find_by_email a)
  pub is_locked : (a : String) → Keeps B (P.is_locked a)
  pub record_failed_attempt : (a : String) → Keeps B (P.record_failed_attempt a)
  pub reset_attempts : (a : String) → Keeps B (P.reset_attempts a)
  pub sign : (a : TokenPayload) → Keeps B (P.sign a)
  pub refresh_token : (a : String) → Keeps B (P.refresh_token a)
  pub is_blacklisted : (a : String) → Keeps B (P.is_blacklisted a)
  pub create_family : (a b : String) → Keeps B (P.create_family a b)
  pub find_by_token_hash : (a : String) → Keeps B (P.find_by_token_hash a)
  pub rotate : (a b c : String) → Keeps B (P.rotate a b c)
  pub revoke_family : (a : String) → Keeps B (P.revoke_family a)
  pub revoke_all_for_user : (a : String) → Keeps B (P.revoke_all_for_user a)

-- What the service relies on: an added hash is refused until its time, no other call takes that back,
-- nor does the time that passes, and the clock does not go back over an addition. `Stands h since s`
-- says of the store in `s` that `h` is refused until seven days after `since`; an entry for that long or
-- longer makes it so.
pub record BlacklistLaws {S : Type 0} (P : Ports S) : Type 1 where
  pub Stands : String → ℕ → S → Type 0
  pub begun : (h : String) (since : ℕ) (s : S) → Stands h since s → since ≤ P.now s
  pub refuses :
      (h : String) (since : ℕ) (s : S)
      → Stands h since s
      → P.now s < since + 7 * day_ms
      → (P.is_blacklisted h s).0 ≡ ok true
  pub adds :
      (h : String) (since t : ℕ) (s : S)
      → since ≤ P.now s
      → since + 7 * day_ms ≤ t
      → Stands h since (P.add_blacklisted h t s).1
  pub clock : (h : String) (t : ℕ) (s : S) → P.now s ≤ P.now (P.add_blacklisted h t s).1
  pub add_other :
      (h j : String) (t since : ℕ) → j ≢ h → Keeps (Stands h since) (P.add_blacklisted j t)
  pub wait : ℕ → S → S
  pub waits : (h : String) (since n : ℕ) (s : S) → Stands h since s → Stands h since (wait n s)
  pub others : (h : String) (since : ℕ) → PortsKeep P (Stands h since)

module _ {S : Type 0} (P : Ports S) (L : BlacklistLaws P) where
  -- A token whose hash stands is refused, and nothing is written but by the look at the blacklist.
  pub refresh-refused :
      (token : String) (since : ℕ) (s : S)
      → L.Stands (P.hash_token token) since s
      → P.now s < since + 7 * day_ms
      → refresh P token s ≡ (err revoked_token, (P.is_blacklisted (P.hash_token token) s).1)
  unfolding refresh refresh_check
  refresh-refused token since s b lt =
      let refused = L.refuses (P.hash_token token) since s b lt in ground arith

  -- An entry that is made for seven days, or longer, takes none of another token back.
  pub Keeps-add :
      (h j : String) (since t : ℕ)
      → since + 7 * day_ms ≤ t
      → Keeps (L.Stands h since) (P.add_blacklisted j t)
  Keeps-add h j since t le s b = elim (str_eq-cases j h) [
    | inl (_, p) ↦
        subst (λ x. L.Stands h since (P.add_blacklisted x t s).1) (sym p)
          (L.adds h since t s (L.begun h since s b) le)
    | inr (_, ne) ↦ L.add_other h j t since ne s b
  ]

  pub Keeps-add_now :
      (h j : String) (since : ℕ)
      → Keeps (L.Stands h since) (λ s. P.add_blacklisted j (P.now s + 7 * day_ms) s)
  Keeps-add_now h j since s b =
      let le = L.begun h since s b in Keeps-add h j since (P.now s + 7 * day_ms) (omega arith) s b
