-- ===== src/Tracing/Context.antt =====
-- src/infrastructure/tracing/trace-context.ts. Texts are lists of code units; the random bytes are
-- arguments, and `clean` is `trim().toLowerCase()`.
pub mod RoundTrip
pub mod Forms
mod Tests
use onlyapi.Base.{
  Bool, List, Option, [], false, if◌then◌else◌, leb, none, some, suc, true, zero, ℕ, ◌%◌, ◌&&◌, ◌*◌,
  ◌+◌, ◌++◌, ◌-◌, ◌/◌, ◌==◌, ◌∷◌, ◌||◌, length, ltb,
}

pub record TraceContext : Type 0 where
  pub trace_id : List ℕ
  pub span_id : List ℕ
  pub parent_span_id : Option (List ℕ)
  pub flags : ℕ

-- A digit of `toString(16)`.
pub hex_digit : ℕ → ℕ
hex_digit d = if ltb d 10 then 48 + d else 87 + d

-- `toString(16).padStart(2, "0")` of a byte.
pub hex_byte : ℕ → List ℕ
unfolding hex_digit
hex_byte b = hex_digit (b / 16 % 16) ∷ hex_digit (b % 16) ∷ []

-- The loop over the random bytes.
pub random_hex : List ℕ → List ℕ
unfolding hex_byte
random_hex [] = []
random_hex (b ∷ bytes) = hex_byte b ++ random_hex bytes

-- `[0-9a-f]`
pub is_hex : ℕ → Bool
is_hex c = (leb 48 c && leb c 57) || (leb 97 c && leb c 102)

-- `([0-9a-f]{n})` at the start of a text: what it matches and the rest.
pub match_hex : ℕ → List ℕ → Option (List ℕ × List ℕ)
unfolding is_hex
match_hex zero cs = some ([], cs)
match_hex (suc n) [] = none
match_hex (suc n) (c ∷ cs) =
    let rest = match_hex n cs in
    if is_hex c then elim rest [ none ↦ none | some (d, more) ↦ some (c ∷ d, more) ] else none

-- A character that is written out.
pub match_char : ℕ → List ℕ → Option (List ℕ)
match_char k [] = none
match_char k (c ∷ cs) = if c == k then some cs else none

infixl 1 ◌>>=◌
abbrev ◌>>=◌ : {A B : Type 0} → Option A → (A → Option B) → Option B
none >>= f = none
some a >>= f = f a

-- `^00-([0-9a-f]{32})-([0-9a-f]{16})-([0-9a-f]{2})$`
pub match_traceparent : List ℕ → Option (List ℕ × List ℕ × List ℕ)
unfolding match_hex match_char
match_traceparent header = do
  a ← match_char 48 header
  b ← match_char 48 a
  c ← match_char 45 b
  trace ← match_hex 32 c
  d ← match_char 45 trace.1
  parent ← match_hex 16 d
  e ← match_char 45 parent.1
  flags ← match_hex 2 e
  elim flags.1 [ [] ↦ some (trace.0, parent.0, flags.0) | _ ∷ _ ↦ none ]

-- `Number.parseInt(text, 16)` of hex digits.
pub hex_value : ℕ → ℕ
hex_value c = if ltb c 58 then c - 48 else c - 87

pub parse_hex : ℕ → List ℕ → ℕ
unfolding hex_value
parse_hex value [] = value
parse_hex value (c ∷ cs) = parse_hex (value * 16 + hex_value c) cs

-- The text is `"0".repeat(...)`.
pub all_zero : List ℕ → Bool
all_zero [] = true
all_zero (c ∷ cs) = c == 48 && all_zero cs

-- `span` are the eight bytes of the new span.
pub parse_traceparent : (List ℕ → List ℕ) → List ℕ → Option (List ℕ) → Option TraceContext
unfolding match_traceparent all_zero parse_hex random_hex
parse_traceparent clean span none = none
parse_traceparent clean span (some header) = elim (match_traceparent (clean header)) [
  | none ↦ none
  | some (trace, parent, flags) ↦
      if all_zero trace
      then none
      else if all_zero parent
      then none
      else some (record {
        trace_id = trace;
        span_id = random_hex span;
        parent_span_id = some parent;
        flags = parse_hex 0 flags;
      })
]

pub create_trace_context : List ℕ → List ℕ → TraceContext
unfolding random_hex
create_trace_context trace span = record {
  trace_id = random_hex trace;
  span_id = random_hex span;
  parent_span_id = none;
  flags = 1;
}

-- `trace'` and `span'` are the random bytes of createTraceContext.
pub resolve_trace_context :
    (List ℕ → List ℕ) → List ℕ → List ℕ → List ℕ → Option (List ℕ) → TraceContext
unfolding parse_traceparent create_trace_context
resolve_trace_context clean span trace' span' header = elim (parse_traceparent clean span header) [
  | none ↦ create_trace_context trace' span'
  | some ctx ↦ ctx
]

-- The flags are those of one byte.
pub format_traceparent : TraceContext → List ℕ
unfolding hex_byte
format_traceparent ctx =
    48 ∷ 48 ∷ 45 ∷ (ctx.trace_id ++ 45 ∷ (ctx.span_id ++ 45 ∷ hex_byte ctx.flags))
