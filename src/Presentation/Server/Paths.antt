-- ===== src/Presentation/Server/Paths.antt =====
-- The path that the server reads out of a URL.
use onlyapi.Base.{
  List, Option, ℕ, IsPart, [], ap, arith, codes, length, none, refl, some, starts_with, substring,
  take, text_eq, ◌++◌, ◌+◌, ◌∷◌, ◌≡◌, append_assoc, length-append, sym, ◌-◌, ◌∙◌, append_nil,
}
use onlyapi.Presentation.Server.{extract_path, index_from, index_of, after_scheme}

-- The first place of a text that begins with a character: after a part without it.
index_of-part :
    (c : ℕ) (part rest : List ℕ)
    → IsPart c part
    → index_of (c ∷ []) (part ++ c ∷ rest) ≡ some (length part)
unfolding index_of starts_with
index_of-part c [] rest h = ground arith
index_of-part c (x ∷ xs) rest (h, hs) = ground (arith, index_of-part c xs rest hs)

index_of-slashes :
    (part rest : List ℕ)
    → IsPart b'/' part
    → index_of (codes "//") (part ++ codes "//" ++ rest) ≡ some (length part)
unfolding index_of starts_with
index_of-slashes [] rest h = refl
index_of-slashes (x ∷ xs) rest (h, hs) = ground (arith, index_of-slashes xs rest hs)

index_of-none : (c : ℕ) (part : List ℕ) → IsPart c part → index_of (c ∷ []) part ≡ none
unfolding index_of starts_with text_eq
index_of-none c [] h = refl
index_of-none c (x ∷ xs) (h, hs) = ground (arith, index_of-none c xs hs)

substring-part : (part rest : List ℕ) → substring (length part) (part ++ rest) ≡ rest
unfolding substring
substring-part [] rest = refl
substring-part (x ∷ xs) rest = substring-part xs rest

take-part : (part rest : List ℕ) → take (length part) (part ++ rest) ≡ part
take-part [] rest = refl
take-part (x ∷ xs) rest = ap (λ t. x ∷ t) (take-part xs rest)

index_from-part :
    (c : ℕ) (before part rest : List ℕ)
    → IsPart c part
    → index_from (c ∷ []) (length before) (before ++ part ++ c ∷ rest)
      ≡ some (length (before ++ part))
unfolding index_from
index_from-part c before part rest h =
    let behind : substring (length before) (before ++ part ++ c ∷ rest) ≡ part ++ c ∷ rest =
      ap (substring (length before)) (append_assoc before part (c ∷ rest))
      ∙ substring-part before (part ++ c ∷ rest) in
    ground (arith, behind, index_of-part c part rest h, length-append before part)

index_from-none :
    (c : ℕ) (before part : List ℕ)
    → IsPart c part
    → index_from (c ∷ []) (length before) (before ++ part) ≡ none
unfolding index_from
index_from-none c before part h = ground (arith, substring-part before part, index_of-none c part h)

-- What stands behind the path: nothing, or a question mark and a text.
abbrev pub query_text : Option (List ℕ) → List ℕ
query_text none = []
query_text (some q) = b'?' ∷ q

abbrev pub url_of : List ℕ → List ℕ → List ℕ → Option (List ℕ) → List ℕ
url_of scheme host path query = scheme ++ codes "//" ++ host ++ b'/' ∷ (path ++ query_text query)

-- The two searches before the path find its place.
path_start :
    (scheme host rest : List ℕ)
    → IsPart b'/' scheme
    → IsPart b'/' host
    → let url = scheme ++ codes "//" ++ host ++ b'/' ∷ rest in
      index_from (codes "/") (after_scheme (index_of (codes "//") url)) url
      ≡ some (length (scheme ++ codes "//" ++ host))
path_start scheme host rest hs hh =
    let url = scheme ++ codes "//" ++ host ++ b'/' ∷ rest in
    let slashes : index_of (codes "//") url ≡ some (length scheme) =
      ap (index_of (codes "//")) (append_assoc (scheme ++ codes "//") host (b'/' ∷ rest))
      ∙ index_of-slashes scheme (host ++ b'/' ∷ rest) hs in
    let behind : length scheme + 2 ≡ length (scheme ++ codes "//") =
      sym (length-append scheme (codes "//")) in
    ap (λ o. index_from (codes "/") (after_scheme o) url) slashes
    ∙ ap (λ n. index_from (codes "/") n url) behind
    ∙ index_from-part b'/' (scheme ++ codes "//") host rest hh

-- From the place of the path on, the path ends before a question mark or at the end.
path_end :
    (before path : List ℕ) (query : Option (List ℕ))
    → IsPart b'?' path
    → let url = before ++ (path ++ query_text query) in
      (elim (index_from (codes "?") (length before) url) [
        | none ↦ substring (length before) url
        | some q ↦ take (q - length before) (substring (length before) url)
      ])
      ≡ path
path_end before path none h =
    let found : index_from (codes "?") (length before) (before ++ (path ++ [])) ≡ none =
      ap (λ t. index_from (codes "?") (length before) (before ++ t)) (append_nil path)
      ∙ index_from-none b'?' before path h in
    let behind : substring (length before) (before ++ (path ++ [])) ≡ path =
      substring-part before (path ++ []) ∙ append_nil path in
    ground (arith, found, behind)
path_end before path (some q) h =
    let found : index_from (codes "?") (length before) (before ++ (path ++ b'?' ∷ q))
        ≡ some (length (before ++ path)) =
      ap (index_from (codes "?") (length before)) (sym (append_assoc before path (b'?' ∷ q)))
      ∙ index_from-part b'?' before path q h in
    let behind : substring (length before) (before ++ (path ++ b'?' ∷ q)) ≡ path ++ b'?' ∷ q =
      substring-part before (path ++ b'?' ∷ q) in
    let measured : length (before ++ path) - length before ≡ length path =
      omega (arith, length-append before path) in
    rw (found, behind, measured) (take-part path (b'?' ∷ q))

-- The path of a URL: a scheme and a host without a slash, a path from its slash on without a question
-- mark, and perhaps a query; whatever stands in the host and the query, the path is what is read.
pub extract_path-url_of :
    (scheme host path : List ℕ) (query : Option (List ℕ))
    → IsPart b'/' scheme
    → IsPart b'/' host
    → IsPart b'?' path
    → extract_path (url_of scheme host path query) ≡ b'/' ∷ path
unfolding extract_path
extract_path-url_of scheme host path query hs hh hp =
    let before = scheme ++ codes "//" ++ host in
    rw (extract_path, path_start scheme host (path ++ query_text query) hs hh)
      (path_end before (b'/' ∷ path) query ((λ same. absurd cc), hp))
