-- ===== src/Tracing/Context/Forms.antt =====
-- What the interface TraceContext promises of its fields.
use onlyapi.Base.{
  List, Option, [], arith, length, none, refl, some, suc, true, zero, ℕ, ◌<◌, ◌∷◌, ◌≡◌,
  Option-cases, false, inl, inr, some_inj, subst,
}
use onlyapi.Tracing.Context.{
  ◌>>=◌, TraceContext, all_zero, create_trace_context, format_traceparent, hex_byte, hex_value,
  is_hex, match_char, match_hex, match_traceparent, parse_hex, parse_traceparent, random_hex,
  resolve_trace_context,
}
use onlyapi.Tracing.Context.RoundTrip.{
  IsHex, match_traceparent_lem, IsId, random_hex-AreHex, hex_byte-AreHex,
}

-- A parent that is there is an id that is not all 0.
abbrev pub IsParent : Option (List ℕ) → Type 0
IsParent none = Unit
IsParent (some cs) = IsId 16 cs

pub record IsContext (ctx : TraceContext) : Type 0 where
  pub trace : IsHex 32 ctx.trace_id
  pub span : IsHex 16 ctx.span_id
  pub parent : IsParent ctx.parent_span_id
  pub byte : ctx.flags < 256

and_then :
    {A B : Type 0} (o : Option A) (f : A → Option B) (b : B)
    → (o >>= f) ≡ some b
    → (a : A) × (o ≡ some a) × (f a ≡ some b)
and_then none f b h = absurd cc
and_then (some a) f b h = (a, refl, h)

match_hex-IsHex : (n : ℕ) (cs d rest : List ℕ) → match_hex n cs ≡ some (d, rest) → IsHex n d
unfolding match_hex
match_hex-IsHex zero cs d rest h =
    (let none_read : [] ≡ d = ground arith in subst (IsHex 0) none_read (refl, tt))
match_hex-IsHex (suc n) [] d rest h = absurd cc
match_hex-IsHex (suc n) (c ∷ cs) d rest h = elim (Option-cases (match_hex n cs)) [
  | inl fails ↦ absurd (ground arith)
  | inr ((d', more), found) ↦
      (let (e, hs) = match_hex-IsHex n cs d' more found in
        let first : is_hex c ≡ true = ground arith in
        let same : c ∷ d' ≡ d = ground arith in
        subst (IsHex (suc n)) same (omega arith, (first, hs)))
]

hex_value_small : (c : ℕ) → is_hex c ≡ true → hex_value c < 16
unfolding is_hex hex_value
hex_value_small c h = ground arith

parse_hex_byte : (cs : List ℕ) → IsHex 2 cs → parse_hex 0 cs < 256
unfolding parse_hex
parse_hex_byte [] (e, h) = absurd (omega arith)
parse_hex_byte (a ∷ []) (e, h) = absurd (omega arith)
parse_hex_byte (a ∷ b ∷ []) (e, h) =
    let high = hex_value_small a h.0 in let low = hex_value_small b h.1.0 in omega arith
parse_hex_byte (a ∷ b ∷ c ∷ cs) (e, h) = absurd (omega arith)

-- Nothing stands behind the flags.
ends :
    (rest : List ℕ) (x y : List ℕ × List ℕ × List ℕ)
    → (elim rest [ [] ↦ some x | c ∷ cs ↦ none ]) ≡ some y
    → x ≡ y
ends [] x y h = some_inj h
ends (c ∷ cs) x y h = absurd cc

match_traceparent-IsHex :
    (header trace parent flags : List ℕ)
    → match_traceparent header ≡ some (trace, parent, flags)
    → IsHex 32 trace × IsHex 16 parent × IsHex 2 flags
unfolding match_traceparent
match_traceparent-IsHex header trace parent flags h =
    let (a, _, h1) = and_then (match_char 48 header) _ _ h in
    let (b, _, h2) = and_then (match_char 48 a) _ _ h1 in
    let (c, _, h3) = and_then (match_char 45 b) _ _ h2 in
    let (trace', m, h4) = and_then (match_hex 32 c) _ _ h3 in
    let (d, _, h5) = and_then (match_char 45 trace'.1) _ _ h4 in
    let (parent', m', h6) = and_then (match_hex 16 d) _ _ h5 in
    let (e, _, h7) = and_then (match_char 45 parent'.1) _ _ h6 in
    let (flags', m'', h8) = and_then (match_hex 2 e) _ _ h7 in
    let same = ends flags'.1 (trace'.0, parent'.0, flags'.0) (trace, parent, flags) h8 in
    subst (λ x. IsHex 32 x.0 × IsHex 16 x.1 × IsHex 2 x.2) same
      (
        match_hex-IsHex 32 c trace'.0 trace'.1 m,
        match_hex-IsHex 16 d parent'.0 parent'.1 m',
        match_hex-IsHex 2 e flags'.0 flags'.1 m'',
      )

parse_traceparent-IsContext :
    (clean : List ℕ → List ℕ) (span : List ℕ) (header : Option (List ℕ)) (ctx : TraceContext)
    → length span ≡ 8
    → parse_traceparent clean span header ≡ some ctx
    → IsContext ctx
unfolding parse_traceparent
parse_traceparent-IsContext clean span none ctx bytes h = absurd cc
parse_traceparent-IsContext clean span (some header) ctx bytes h =
    elim (Option-cases (match_traceparent (clean header))) [
      | inl fails ↦ absurd (ground arith)
      | inr ((trace, parent, flags), found) ↦
          (let (t, p, f) = match_traceparent-IsHex (clean header) trace parent flags found in
            let not_zero : all_zero parent ≡ false = ground arith in
            let parsed : TraceContext = record {
              trace_id = trace;
              span_id = random_hex span;
              parent_span_id = some parent;
              flags = parse_hex 0 flags;
            } in
            let same : parsed ≡ ctx = ground arith in
            let (hex, twice) = random_hex-AreHex span in
            subst IsContext same (record {
              trace = t;
              span = (omega arith, hex);
              parent = (p.0, p.1, not_zero);
              byte = parse_hex_byte flags f;
            }))
    ]

-- Whatever header comes, and whatever bytes are drawn, sixteen for a trace and eight for a span: the
-- context that a request gets has the form that its interface promises, and the header that is written
-- for it is in the standard's format and carries its ids.
pub resolve_trace_context-IsContext :
    (clean : List ℕ → List ℕ) (span trace' span' : List ℕ) (header : Option (List ℕ))
    → length span ≡ 8
    → length trace' ≡ 16
    → length span' ≡ 8
    → let ctx = resolve_trace_context clean span trace' span' header in
      IsContext ctx
      × (match_traceparent (format_traceparent ctx)
          ≡ some (ctx.trace_id, ctx.span_id, hex_byte ctx.flags))
unfolding resolve_trace_context create_trace_context format_traceparent hex_byte
resolve_trace_context-IsContext clean span trace' span' header s t s' =
    let ctx = resolve_trace_context clean span trace' span' header in
    let formed : IsContext ctx = (elim (Option-cases (parse_traceparent clean span header)) [
      | inl fails ↦
          (let (hex, twice) = random_hex-AreHex trace' in
            let (hex', twice') = random_hex-AreHex span' in
            rw (resolve_trace_context, fails)
              (record {
                trace = (omega arith, hex);
                span = (omega arith, hex');
                parent = tt;
                byte = omega arith;
              }))
      | inr (parsed, found) ↦
          rw (resolve_trace_context, found)
            (parse_traceparent-IsContext clean span header parsed s found)
    ]) in
    let written =
      match_traceparent_lem ctx.trace_id ctx.span_id (hex_byte ctx.flags) formed.trace formed.span
        (refl, hex_byte-AreHex ctx.flags) in
    (formed, written)
