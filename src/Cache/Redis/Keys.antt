-- ===== src/Cache/Redis/Keys.antt =====
-- The answer to KEYS, an array of bulk strings, has the form of a command.
use onlyapi.Base.{
  All, Bool-cases, List, [], arith, codes, false, filter, inl, inr, length, not, prepend, refl,
  starts_with, suc, true, ℕ, ◌++◌, ◌==◌, ◌≡◌, ◌≢◌, ◌∷◌, ap,
}
use onlyapi.Cache.Redis.{
  Numbers, crlf, encode_args, encode_command, is_not_empty, keys_of, keys_of_lines, split_lines,
}
use onlyapi.Cache.Redis.Replies.{IsDecimal, IsLine, digits-IsLine}

-- A key that is one line, not empty and without "$" in front.
abbrev pub IsKey : List ℕ → Type 0
IsKey key = IsLine key × (is_not_empty key ≡ true) × (starts_with (codes "$") key ≡ false)

split_lines-line :
    (line rest : List ℕ)
    → IsLine line
    → split_lines (line ++ (crlf ++ rest)) ≡ line ∷ split_lines rest
unfolding split_lines prepend
split_lines-line [] rest h = refl
split_lines-line (c ∷ []) rest (h, hs) =
    let f : (c == 13) ≡ false = ground arith in rw (f, split_lines) refl
split_lines-line (c ∷ d ∷ cs) rest (h, hs) =
    let f : (c == 13) ≡ false = ground arith in
    rw (f, split_lines) (ap (prepend c) (split_lines-line (d ∷ cs) rest hs))

no_zero_first :
    (cs rest : List ℕ)
    → starts_with (codes "0") cs ≡ false
    → starts_with (codes "0") (cs ++ (crlf ++ rest)) ≡ false
unfolding starts_with
no_zero_first [] rest h = refl
no_zero_first (c ∷ cs) rest h = h

module _ (N : Numbers) (L : IsDecimal N) where
  abbrev kept : List (List ℕ) → List (List ℕ)
  kept lines = filter (λ line. not (starts_with (codes "$") line)) (filter is_not_empty lines)

  number-IsLine : (c n : ℕ) → c ≢ 13 → IsLine (c ∷ N.show n)
  number-IsLine c n ne = (ne, digits-IsLine (N.show n) (L.digits n))

  kept-args :
      (keys : List (List ℕ)) → All IsKey keys → kept (split_lines (encode_args N keys)) ≡ keys
  unfolding encode_args is_not_empty split_lines starts_with
  kept-args [] h = refl
  kept-args (key ∷ keys) ((line, full, plain), hs) =
      let n = N.byte_length key in
      let rest = encode_args N keys in
      rw
        (
          split_lines-line (b'$' ∷ N.show n) (key ++ (crlf ++ rest))
              (number-IsLine b'$' n (λ e. absurd (omega arith))),
          split_lines-line key rest line,
          full,
          plain,
          kept-args keys hs,
        )
        refl

  -- The keys from the array's lines.
  array_lines :
      (keys : List (List ℕ))
      → All IsKey keys
      → keys_of_lines (filter is_not_empty (split_lines (encode_command N keys))) ≡ keys
  unfolding encode_command keys_of_lines is_not_empty
  array_lines keys h =
      rw
        (split_lines-line (b'*' ∷ N.show (length keys)) (encode_args N keys)
          (number-IsLine b'*' (length keys) (λ e. absurd (omega arith))))
        (kept-args keys h)

  -- The keys of an array of bulk strings are those that the server listed, where each is one line, not
  -- empty and without "$" in front.
  pub keys_of-encode :
      (keys : List (List ℕ)) → All IsKey keys → keys_of (encode_command N keys) ≡ keys
  unfolding keys_of encode_command starts_with
  keys_of-encode [] h = elim (Bool-cases (starts_with (codes "*0") (encode_command N []))) [
    | inl t ↦ rw (t, keys_of) refl
    | inr f ↦ rw (f, keys_of) (array_lines [] h)
  ]
  keys_of-encode (key ∷ keys) h =
      let n = suc (length keys) in
      let more : starts_with (codes "*0") (encode_command N (key ∷ keys)) ≡ false =
        no_zero_first (N.show n) (encode_args N (key ∷ keys)) (L.no_zero n (omega arith)) in
      rw (more, keys_of) (array_lines (key ∷ keys) h)
