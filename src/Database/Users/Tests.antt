-- ===== src/Database/Users/Tests.antt =====
-- Runs of the repository, and its theorems at a concrete store.
use onlyapi.Base.{
  String, [], arith, eq_iff, get, inl, inr, none, refl, some, ap, ◌∙◌, sym, ◌∷◌, ◌≡◌, ◌≢◌, ◌↔◌, ◌⊎◌,
  false, true, sym, ◌∙◌, find_value,
}
use onlyapi.Core.Results.{ok}
use onlyapi.Core.Users.{User, user}
use onlyapi.Database.Users.{CreateUserData, UpdateUserData, UserStore, find_by_email, find_email}
use onlyapi.Database.Users.Emails.{IsSound}

abbrev ann : User
ann = record {
  id = "1";
  email = "ann@x.org";
  password_hash = "h1";
  role = user;
  email_verified = false;
  mfa_enabled = false;
  mfa_secret = none;
  password_changed_at = none;
  created_at = 5;
  updated_at = 5;
}

abbrev bob : User
bob = record {
  id = "2";
  email = "bob@x.org";
  password_hash = "h2";
  role = user;
  email_verified = true;
  mfa_enabled = false;
  mfa_secret = none;
  password_changed_at = some 7;
  created_at = 7;
  updated_at = 9;
}

abbrev users : UserStore
users = ("1", ann) ∷ ("2", bob) ∷ []

abbrev carl : CreateUserData
carl = record { email = "carl@x.org"; password_hash = "h3"; role = user }

abbrev to_bob : UpdateUserData
to_bob = record {
  email = some "bob@x.org";
  password_hash = none;
  role = none;
  email_verified = none;
  mfa_enabled = none;
  mfa_secret = none;
  password_changed_at = none;
}

abbrev with_mfa : UpdateUserData
with_mfa = record {
  email = none;
  password_hash = none;
  role = none;
  email_verified = none;
  mfa_enabled = some true;
  mfa_secret = some (some "JBSWY3DP");
  password_changed_at = none;
}

find_bob : find_by_email "bob@x.org" users ≡ ok bob
unfolding find_by_email find_email onlyapi.Base.find_value
find_bob = refl

-- Where the store `users` has an entry.
users-cases :
    (k : String) (u : User)
    → get k users ≡ some u
    → ((k ≡ "1") × (u ≡ ann)) ⊎ ((k ≡ "2") × (u ≡ bob))
unfolding get
users-cases k u g = ground (arith, eq_iff "1" k, eq_iff "2" k)

users-IsSound : IsSound users
unfolding get
users-IsSound = record {
  distinct = (refl, (refl, tt));
  keyed = λ k u g. elim (users-cases k u g) [ inl (p, q) ↦ rw (p, q) | inr (p, q) ↦ rw (p, q) ];
  unique = λ k j u v gu gv e. elim (users-cases k u gu) [
    | inl (p, q) ↦ elim (users-cases j v gv) [
      | inl (p', q') ↦ p ∙ sym p'
      | inr (p', q') ↦ absurd (ann_ne_bob (sym (ap (λ x. x.email) q) ∙ e ∙ ap (λ x. x.email) q'))
    ]
    | inr (p, q) ↦ elim (users-cases j v gv) [
      | inl (p', q') ↦
          absurd (ann_ne_bob (sym (ap (λ x. x.email) q') ∙ sym e ∙ ap (λ x. x.email) q))
      | inr (p', q') ↦ p ∙ sym p'
    ]
  ];
}
  where
    ann_ne_bob : ann.email ≢ bob.email
    ann_ne_bob h = ground (arith, eq_iff ann.email bob.email)
