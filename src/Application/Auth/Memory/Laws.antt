-- ===== src/Application/Auth/Memory/Laws.antt =====
-- The in-memory blacklist keeps the laws that the service relies on.
use onlyapi.Application.Auth.Memory.{Platform, System, memory_ports}
use onlyapi.Application.Auth.Replay.{BlacklistLaws}
use onlyapi.Application.Auth.{day_ms}
use onlyapi.Base.{String, ap, arith, str_eq_ne, str_eq_self, true, ℕ, ◌*◌, ◌+◌, ◌<◌, ◌∙◌, ◌≡◌, ◌≤◌}
use onlyapi.Security.Blacklist.Laws.{is_blacklisted-reported, add-reported, reported}
use onlyapi.Core.Results.{ok}

-- The clock has passed `since`, and at every time from now to its end the hash is reported.
abbrev pub Refused : String → ℕ → System → Type 0
Refused h since s =
    (since ≤ s.clock)
    × ((t : ℕ) → s.clock ≤ t → t < since + 7 * day_ms → reported h t s.blacklist ≡ true)

pub memory-BlacklistLaws : (E : Platform) → BlacklistLaws (memory_ports E)
unfolding memory_ports
memory-BlacklistLaws E = record {
  Stands = Refused;
  begun = λ h since s b. b.0;
  refuses = λ h since s b lt.
      let (a, _) = is_blacklisted-reported h s.clock s.blacklist in
      ap ok (a ∙ b.1 s.clock (omega arith) lt);
  adds = λ h since u s le far.
      (le, λ t now_le lt. ground (arith, add-reported h u s.blacklist h t, str_eq_self h));
  clock = λ h u s. omega arith;
  add_other = λ h j u since ne s b.
      (b.0, λ t le lt. add-reported j u s.blacklist h t ∙ rw (str_eq_ne j h ne) (b.1 t le lt));
  wait = λ n s. record s { clock = s.clock + n };
  waits = λ h since n s b. (omega (arith, b.0), λ t le lt. b.1 t (omega arith) lt);
  others = λ h since. record {
    verify_password = λ a c s b. b;
    find_by_email = λ a s b. b;
    is_locked = λ a s b. b;
    record_failed_attempt = λ a s b. b;
    reset_attempts = λ a s b. b;
    sign = λ a s b. b;
    refresh_token = λ a s b. b;
    is_blacklisted = λ a s b.
        let (_, same) = is_blacklisted-reported a s.clock s.blacklist in
        (b.0, λ t le lt. same h t le ∙ b.1 t le lt);
    create_family = λ a c s b. b;
    find_by_token_hash = λ a s b. b;
    rotate = λ a c d s b. b;
    revoke_family = λ a s b. b;
    revoke_all_for_user = λ a s b. b;
  };
}
