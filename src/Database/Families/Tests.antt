-- ===== src/Database/Families/Tests.antt =====
-- The theorems about sessions at a concrete table.
use onlyapi.Base.{
  String, [], ap, arith, eq_iff, false, get, if◌then◌else◌, inl, inr, refl, some, str_eq, sym, ◌∙◌,
  ◌∷◌, ◌≡◌, ◌≢◌, none, ◌⊎◌,
}
use onlyapi.Database.Families.{FamilyStore, RefreshTokenFamily, rotate}
use onlyapi.Database.Families.Sessions.{IsSound, advance, rotate-session, session}

abbrev laptop : RefreshTokenFamily
laptop = record {
  id = "f1";
  user_id = "1";
  current_token_hash = "h1";
  revoked = false;
  created_at = 3;
  updated_at = 3;
}

abbrev phone : RefreshTokenFamily
phone = record {
  id = "f2";
  user_id = "2";
  current_token_hash = "h2";
  revoked = false;
  created_at = 4;
  updated_at = 8;
}

abbrev families : FamilyStore
families = ("f1", laptop) ∷ ("f2", phone) ∷ []

families-cases :
    (k : String) (f : RefreshTokenFamily)
    → get k families ≡ some f
    → ((k ≡ "f1") × (f ≡ laptop)) ⊎ ((k ≡ "f2") × (f ≡ phone))
unfolding get
families-cases k f g = ground (arith, eq_iff "f1" k, eq_iff "f2" k)

families-IsSound : IsSound families
unfolding get
families-IsSound = record {
  distinct = (refl, (refl, tt));
  keyed = λ k f g. elim (families-cases k f g) [ inl (p, q) ↦ rw (p, q) | inr (p, q) ↦ rw (p, q) ];
  unique = λ k j f g gf gg e. elim (families-cases k f gf) [
    | inl (p, q) ↦ elim (families-cases j g gg) [
      | inl (p', q') ↦ p ∙ sym p'
      | inr (p', q') ↦
          absurd
            (apart (sym (ap (λ x. x.current_token_hash) q) ∙ e ∙ ap (λ x. x.current_token_hash) q'))
    ]
    | inr (p, q) ↦ elim (families-cases j g gg) [
      | inl (p', q') ↦ absurd (
          apart
            (sym (ap (λ x. x.current_token_hash) q') ∙ sym e ∙ ap (λ x. x.current_token_hash) q))
      | inr (p', q') ↦ p ∙ sym p'
    ]
  ];
}
  where
    apart : laptop.current_token_hash ≢ phone.current_token_hash
    apart h = ground (arith, eq_iff laptop.current_token_hash phone.current_token_hash)

abbrev f1 : String
f1 = "f1"

rotate-session_example :
    let m' = (rotate "f1" "h1" "h9" 20 families).1 in
    (session "f1" m' ≡ (
      if str_eq "f1" "f1"
      then advance "h1" "h9" (session "f1" families)
      else session "f1" families))
    × ((f : RefreshTokenFamily)
        → get "f1" families ≡ some f
        → f1 ≡ f1
        → f.current_token_hash ≡ "h1"
        → get "f1" m' ≡ some (record f { current_token_hash = "h9"; updated_at = 20 }))
    × ((f : RefreshTokenFamily)
        → get "f1" families ≡ some f
        → (f1 ≢ f1) ⊎ (f.current_token_hash ≢ "h1")
        → get "f1" m' ≡ some f)
    × (get "f1" families ≡ none → get "f1" m' ≡ none)
rotate-session_example = rotate-session "f1" "h1" "h9" 20 families "f1" families-IsSound
