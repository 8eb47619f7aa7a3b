-- ===== src/Security/TokenService/RoundTrip.antt =====
-- What a token that the service made is at the check: its three parts, its signature and its claims.
use onlyapi.Base.{
  split, split-part, split_last, IsPart, append_assoc, absent_some, some_inj, All, Bool-cases, List,
  Option-cases, [], arith, if◌then◌else◌, inl, inr, map, none, refl, some, true, ℕ, ◌++◌, ◌==◌, ◌≡◌,
  ◌≢◌, ◌∷◌, ◌∙◌, ap, sym,
}
use onlyapi.Security.Base32.{strip_padding, strip_step}
use onlyapi.Security.Base32.RoundTrip.{AreBytes}
use onlyapi.Security.TokenService.{
  Claims, Platform, base64url, base64url_decode, base64url_encode, create_jwt, plain_char,
  read_claims, same_bytes, url_char, verify_jwt, verify_parts, verify_split, with_times, is_expired,
  jwt_header,
}

-- A character of standard base64 is none of `-`, `.` and `_`.
abbrev pub IsPlain : ℕ → Type 0
IsPlain c = (c ≢ 45) × (c ≢ 46) × (c ≢ 95)

-- What the service relies on: base64 is read back without its padding, its alphabet, and that the
-- HMAC is bytes.
pub record IsPlatform (P : Platform) : Type 0 where
  pub btoa-plain : (bs : List ℕ) → All IsPlain (P.btoa bs)
  pub atob-btoa : (bs : List ℕ) → AreBytes bs → P.atob (strip_padding (P.btoa bs)) ≡ some bs
  pub hmac-bytes : (key message mac : List ℕ) → P.hmac key message ≡ some mac → AreBytes mac

-- The JSON text of these claims is ASCII, which is its own UTF-8, and is parsed back.
abbrev pub Survives : Platform → Claims → Type 0
Survives P claims =
    AreBytes (P.stringify claims)
    × (P.utf8 (P.stringify claims) ≡ P.stringify claims)
    × (P.parse (P.stringify claims) ≡ some claims)

abbrev NoDots : List ℕ → Type 0
NoDots cs = IsPart 46 cs

same_bytes_self : (bs : List ℕ) → same_bytes bs bs ≡ true
unfolding same_bytes
same_bytes_self [] = refl
same_bytes_self (b ∷ bs) = ground (arith, same_bytes_self bs)

strip_step-All : (P : ℕ → Type 0) (c : ℕ) (cs : List ℕ) → P c → All P cs → All P (strip_step c cs)
unfolding strip_step
strip_step-All P c [] h hs = elim (Bool-cases (c == 61)) [ inl t ↦ rw t tt | inr f ↦ rw f (h, tt) ]
strip_step-All P c (d ∷ ds) h hs = (h, hs)

strip_padding-All : (P : ℕ → Type 0) (cs : List ℕ) → All P cs → All P (strip_padding cs)
unfolding strip_padding
strip_padding-All P [] h = tt
strip_padding-All P (c ∷ cs) (h, hs) =
    strip_step-All P c (strip_padding cs) h (strip_padding-All P cs hs)

strip_step-map :
    (c : ℕ) (cs : List ℕ)
    → strip_step (url_char c) (map url_char cs) ≡ map url_char (strip_step c cs)
unfolding strip_step url_char
strip_step-map c [] = ground arith
strip_step-map c (d ∷ ds) = refl

-- The padding is not touched by the change of alphabet.
strip_padding-map :
    (cs : List ℕ) → strip_padding (map url_char cs) ≡ map url_char (strip_padding cs)
unfolding strip_padding
strip_padding-map [] = refl
strip_padding-map (c ∷ cs) =
    ap (strip_step (url_char c)) (strip_padding-map cs) ∙ strip_step-map c (strip_padding cs)

plain_char-url_char : (c : ℕ) → IsPlain c → plain_char (url_char c) ≡ c
unfolding plain_char url_char
plain_char-url_char c h = ground arith

map_plain : (cs : List ℕ) → All IsPlain cs → map plain_char (map url_char cs) ≡ cs
map_plain [] h = refl
map_plain (c ∷ cs) (h, hs) = rw (plain_char-url_char c h, map_plain cs hs) refl

url_char-NoDots : (cs : List ℕ) → All IsPlain cs → NoDots (map url_char cs)
unfolding url_char
url_char-NoDots [] h = tt
url_char-NoDots (c ∷ cs) (h, hs) = (ground arith, url_char-NoDots cs hs)

module _ (P : Platform) (laws : IsPlatform P) where
  base64url-NoDots : (bs : List ℕ) → NoDots (base64url P bs)
  unfolding base64url
  base64url-NoDots bs =
      strip_padding-All (λ c. c ≢ 46) (map url_char (P.btoa bs))
        (url_char-NoDots (P.btoa bs) (laws.btoa-plain bs))

  -- Bytes in the URL alphabet are read back.
  base64url_decode-base64url :
      (bs : List ℕ) → AreBytes bs → base64url_decode P (base64url P bs) ≡ some bs
  unfolding base64url base64url_decode
  base64url_decode-base64url bs h =
      let chars = laws.btoa-plain bs in
      ap (λ cs. P.atob (map plain_char cs)) (strip_padding-map (P.btoa bs))
      ∙ ap P.atob
          (map_plain (strip_padding (P.btoa bs)) (strip_padding-All IsPlain (P.btoa bs) chars))
      ∙ laws.atob-btoa bs h

  read_claims_text :
      (body text : List ℕ) (claims : Claims) (at : ℕ)
      → base64url_decode P body ≡ some text
      → P.parse text ≡ some claims
      → read_claims P body at ≡ (if is_expired claims at then some none else some (some claims))
  unfolding read_claims
  read_claims_text body text claims at e e' = rw (read_claims, e, e') refl

  -- The claims that were written are read, unless they have expired.
  read_claims_back :
      (claims : Claims) (at : ℕ)
      → Survives P claims
      → read_claims P (base64url_encode P (P.stringify claims)) at
        ≡ (if is_expired claims at then some none else some (some claims))
  unfolding base64url_encode
  read_claims_back claims at (text, same, parsed) =
      let body = base64url_encode P (P.stringify claims) in
      let e =
        ap (λ t. base64url_decode P (base64url P t)) same
        ∙ base64url_decode-base64url (P.stringify claims) text in
      read_claims_text body (P.stringify claims) claims at e parsed

  verify_parts_mac :
      (secret header body sig mac : List ℕ) (at : ℕ)
      → P.hmac (P.utf8 secret) (P.utf8 (header ++ 46 ∷ body)) ≡ some mac
      → base64url_decode P sig ≡ some mac
      → verify_parts P secret header body sig at ≡ read_claims P body at
  unfolding verify_parts
  verify_parts_mac secret header body sig mac at e e' =
      rw (verify_parts, e', e, same_bytes_self mac) refl

  verify_jwt-join :
      (secret header body sig : List ℕ) (at : ℕ)
      → NoDots header
      → NoDots body
      → NoDots sig
      → verify_jwt P ((header ++ 46 ∷ body) ++ 46 ∷ sig) secret at
        ≡ verify_parts P secret header body sig at
  unfolding verify_jwt verify_split
  verify_jwt-join secret header body sig at h b s =
      let parts =
        ap (split 46) (append_assoc header (46 ∷ body) (46 ∷ sig))
        ∙ split-part 46 header (body ++ 46 ∷ sig) h in
      let parts' = split-part 46 body sig b ∙ ap (λ ps. body ∷ ps) (split_last 46 sig s) in
      ap (λ ps. verify_split P ps secret at) (parts ∙ ap (λ ps. header ∷ ps) parts')

  -- What createJwt returns.
  create_jwt-signed :
      (claims : Claims) (secret token : List ℕ) (ttl now : ℕ)
      → create_jwt P claims secret ttl now ≡ some token
      → let data' =
          base64url_encode P jwt_header
          ++ 46 ∷ base64url_encode P (P.stringify (with_times claims ttl now)) in
        (mac : List ℕ) × (P.hmac (P.utf8 secret) (P.utf8 data') ≡ some mac)
        × (token ≡ data' ++ 46 ∷ base64url P mac)
  unfolding create_jwt
  create_jwt-signed claims secret token ttl now made =
      let data' =
        base64url_encode P jwt_header
        ++ 46 ∷ base64url_encode P (P.stringify (with_times claims ttl now)) in
      elim (Option-cases (P.hmac (P.utf8 secret) (P.utf8 data'))) [
        | inl n ↦ absurd (absent_some (sym made ∙ rw (create_jwt, n) refl))
        | inr (mac, e) ↦ (mac, e, some_inj (sym made ∙ rw (create_jwt, e) refl))
      ]

  -- A token that was made is checked by the expiry of its claims alone.
  pub verify_jwt-create_jwt :
      (claims : Claims) (secret token : List ℕ) (ttl now at : ℕ)
      → Survives P (with_times claims ttl now)
      → create_jwt P claims secret ttl now ≡ some token
      → verify_jwt P token secret at ≡ (
          if is_expired (with_times claims ttl now) at
          then some none
          else some (some (with_times claims ttl now)))
  unfolding base64url_encode
  verify_jwt-create_jwt claims secret token ttl now at survives made =
      let whole = with_times claims ttl now in
      let header = base64url_encode P jwt_header in
      let body = base64url_encode P (P.stringify whole) in
      let (mac, signed, made') = create_jwt-signed claims secret token ttl now made in
      ap (λ t. verify_jwt P t secret at) made'
      ∙ verify_jwt-join secret header body (base64url P mac) at
          (base64url-NoDots (P.utf8 jwt_header)) (base64url-NoDots (P.utf8 (P.stringify whole)))
          (base64url-NoDots mac)
      ∙ verify_parts_mac secret header body (base64url P mac) mac at signed (
          base64url_decode-base64url mac
            (laws.hmac-bytes (P.utf8 secret) (P.utf8 (header ++ 46 ∷ body)) mac signed))
      ∙ read_claims_back whole at survives
