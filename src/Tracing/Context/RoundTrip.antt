-- ===== src/Tracing/Context/RoundTrip.antt =====
-- A context that was written as a header is read back.
use onlyapi.Base.{
  All, All-append, List, Option, [], ap, arith, false, length, refl, some, suc, sym, true, zero, ℕ,
  ◌%◌, ◌*◌, ◌++◌, ◌/◌, ◌<◌, ◌==◌, ◌≡◌, ◌∙◌, ◌∷◌, ◌||◌,
}
use mathlib.Core.List.{append-nil}
use onlyapi.Tracing.Context.{
  TraceContext, all_zero, format_traceparent, hex_byte, hex_digit, hex_value, is_hex, match_char,
  match_hex, match_traceparent, parse_hex, parse_traceparent, random_hex,
}

abbrev pub AreHex : List ℕ → Type 0
AreHex cs = All (λ c. is_hex c ≡ true) cs

match_hex-append :
    (n : ℕ) (cs rest : List ℕ)
    → length cs ≡ n
    → AreHex cs
    → match_hex n (cs ++ rest) ≡ some (cs, rest)
unfolding match_hex
match_hex-append zero [] rest e h = refl
match_hex-append zero (c ∷ cs) rest e h = absurd (omega arith)
match_hex-append (suc n) [] rest e h = absurd (omega arith)
match_hex-append (suc n) (c ∷ cs) rest e (h, hs) =
    rw (h, match_hex-append n cs rest (omega arith) hs) refl

hex_digit-is_hex : (d : ℕ) → d < 16 → is_hex (hex_digit d) ≡ true
unfolding hex_digit is_hex
hex_digit-is_hex d h = ground arith

hex_value-hex_digit : (d : ℕ) → d < 16 → hex_value (hex_digit d) ≡ d
unfolding hex_value hex_digit
hex_value-hex_digit d h = ground arith

pub hex_byte-AreHex : (b : ℕ) → AreHex (hex_byte b)
unfolding hex_byte
hex_byte-AreHex b =
    (hex_digit-is_hex (b / 16 % 16) (omega arith), (hex_digit-is_hex (b % 16) (omega arith), tt))

parse_hex-hex_byte : (b : ℕ) → b < 256 → parse_hex 0 (hex_byte b) ≡ b
unfolding parse_hex hex_byte
parse_hex-hex_byte b h =
    rw (hex_value-hex_digit (b / 16 % 16) (omega arith), hex_value-hex_digit (b % 16) (omega arith))
      (omega arith)

-- Random bytes are written as two hex digits each.
pub random_hex-AreHex :
    (bytes : List ℕ) → AreHex (random_hex bytes) × (length (random_hex bytes) ≡ 2 * length bytes)
unfolding random_hex hex_byte
random_hex-AreHex [] = (tt, refl)
random_hex-AreHex (b ∷ bytes) =
    let (h, e) = random_hex-AreHex bytes in
    let (h1, (h2, none_left)) = hex_byte-AreHex b in ((h1, (h2, h)), omega arith)

-- The ids that a header may carry: hex digits of the standard's lengths, not all 0.
abbrev pub IsId : ℕ → List ℕ → Type 0
IsId n cs = (length cs ≡ n) × AreHex cs × (all_zero cs ≡ false)

-- A character of a header.
abbrev pub IsHeaderChar : ℕ → Type 0
IsHeaderChar c = (is_hex c || c == 45) ≡ true

-- Hex digits, as many as the standard says.
abbrev pub IsHex : ℕ → List ℕ → Type 0
IsHex n cs = (length cs ≡ n) × AreHex cs

pub match_traceparent_lem :
    (trace span flags : List ℕ)
    → IsHex 32 trace
    → IsHex 16 span
    → IsHex 2 flags
    → match_traceparent (48 ∷ 48 ∷ 45 ∷ (trace ++ 45 ∷ (span ++ 45 ∷ flags)))
      ≡ some (trace, span, flags)
unfolding match_traceparent match_char
match_traceparent_lem trace span flags (lt, ht) (ls, hs) (lf, hf) =
    let flags' = ap (match_hex 2) (sym (append-nil flags)) ∙ match_hex-append 2 flags [] lf hf in
    rw
      (
        match_hex-append 32 trace (45 ∷ (span ++ 45 ∷ flags)) lt ht,
        match_hex-append 16 span (45 ∷ flags) ls hs,
        flags',
      )
      refl

-- The header of a context is of characters that `clean` keeps.
hex_header : (cs : List ℕ) → AreHex cs → All IsHeaderChar cs
hex_header [] h = tt
hex_header (c ∷ cs) (h, hs) = (rw h refl, hex_header cs hs)

format_traceparent-chars :
    (ctx : TraceContext)
    → AreHex ctx.trace_id
    → AreHex ctx.span_id
    → All IsHeaderChar (format_traceparent ctx)
unfolding format_traceparent is_hex
format_traceparent-chars ctx trace span =
    let flags = hex_header (hex_byte ctx.flags) (hex_byte-AreHex ctx.flags) in
    let tail =
      All-append IsHeaderChar ctx.span_id (45 ∷ hex_byte ctx.flags) (hex_header ctx.span_id span)
        (refl, flags) in
    let body =
      All-append IsHeaderChar ctx.trace_id (45 ∷ (ctx.span_id ++ 45 ∷ hex_byte ctx.flags))
        (hex_header ctx.trace_id trace) (refl, tail) in
    (refl, (refl, (refl, body)))

parse_traceparent_matched :
    (clean : List ℕ → List ℕ) (bytes header trace span flags : List ℕ)
    → match_traceparent (clean header) ≡ some (trace, span, flags)
    → all_zero trace ≡ false
    → all_zero span ≡ false
    → parse_traceparent clean bytes (some header)
      ≡ some (record {
        trace_id = trace;
        span_id = random_hex bytes;
        parent_span_id = some span;
        flags = parse_hex 0 flags;
      })
unfolding parse_traceparent
parse_traceparent_matched clean bytes header trace span flags e zt zs =
    rw (parse_traceparent, e, zt, zs) refl

-- The header of a context with ids that are not all 0 and flags of a byte is parsed, by a service
-- that draws the bytes `span` for a span of its own, to the same trace and the same flags, with the
-- span of the context as the parent; `clean` keeps hex digits and dashes.
pub parse_traceparent-format :
    (clean : List ℕ → List ℕ) (span : List ℕ) (ctx : TraceContext)
    → ((cs : List ℕ) → All IsHeaderChar cs → clean cs ≡ cs)
    → IsId 32 ctx.trace_id
    → IsId 16 ctx.span_id
    → ctx.flags < 256
    → parse_traceparent clean span (some (format_traceparent ctx))
      ≡ some (record {
        trace_id = ctx.trace_id;
        span_id = random_hex span;
        parent_span_id = some ctx.span_id;
        flags = ctx.flags;
      })
unfolding format_traceparent
parse_traceparent-format clean span ctx keeps trace parent byte =
    let kept = keeps (format_traceparent ctx) (format_traceparent-chars ctx trace.1 parent.1) in
    let matched =
      match_traceparent_lem ctx.trace_id ctx.span_id (hex_byte ctx.flags) (trace.0, trace.1)
        (parent.0, parent.1) (refl, hex_byte-AreHex ctx.flags) in
    let as_context : ℕ → Option TraceContext = λ flags. some (record {
      trace_id = ctx.trace_id;
      span_id = random_hex span;
      parent_span_id = some ctx.span_id;
      flags = flags;
    }) in
    parse_traceparent_matched clean span (format_traceparent ctx) ctx.trace_id ctx.span_id
      (hex_byte ctx.flags) (ap match_traceparent kept ∙ matched) trace.2 parent.2
    ∙ ap as_context (parse_hex-hex_byte ctx.flags byte)
