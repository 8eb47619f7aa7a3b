-- ===== src/Tracing/Context/Tests.antt =====
-- Runs of the trace context, and its round trip at a concrete context.
use onlyapi.Base.{List, [], arith, refl, some, ℕ, ◌≡◌, ◌∷◌}
use onlyapi.Tracing.Context.{
  TraceContext, all_zero, create_trace_context, format_traceparent, hex_byte, hex_digit, is_hex,
  match_char, match_hex, match_traceparent, parse_traceparent, random_hex, resolve_trace_context,
}
use onlyapi.Tracing.Context.RoundTrip.{parse_traceparent-format, random_hex-AreHex, IsId}
use onlyapi.Tracing.Context.Forms.{IsContext, resolve_trace_context-IsContext}

abbrev clean : List ℕ → List ℕ
clean cs = cs

-- Sixteen and eight bytes of the standard's example.
abbrev trace_bytes : List ℕ
trace_bytes =
    75 ∷ 249 ∷ 47 ∷ 53 ∷ 119 ∷ 179 ∷ 77 ∷ 166 ∷ 163 ∷ 206 ∷ 146 ∷ 157 ∷ 14 ∷ 14 ∷ 71 ∷ 54 ∷ []

abbrev span_bytes : List ℕ
span_bytes = 0 ∷ 240 ∷ 103 ∷ 170 ∷ 11 ∷ 169 ∷ 2 ∷ 183 ∷ []

abbrev context : TraceContext
context = create_trace_context trace_bytes span_bytes

trace_IsId : IsId 32 context.trace_id
unfolding create_trace_context random_hex hex_byte hex_digit all_zero
trace_IsId = (refl, (random_hex-AreHex trace_bytes).0, refl)

span_IsId : IsId 16 context.span_id
unfolding create_trace_context random_hex hex_byte hex_digit all_zero
span_IsId = (refl, (random_hex-AreHex span_bytes).0, refl)

parse_traceparent-format_example :
    parse_traceparent clean span_bytes (some (format_traceparent context))
    ≡ some (record {
      trace_id = context.trace_id;
      span_id = random_hex span_bytes;
      parent_span_id = some context.span_id;
      flags = 1;
    })
unfolding create_trace_context
parse_traceparent-format_example =
    parse_traceparent-format clean span_bytes context (λ cs h. refl) trace_IsId span_IsId
      (omega arith)

-- A header that is cut short starts a new trace.
short_header :
    resolve_trace_context clean [] trace_bytes span_bytes (some (48 ∷ 48 ∷ 45 ∷ 97 ∷ [])) ≡ context
unfolding resolve_trace_context parse_traceparent match_traceparent match_char match_hex is_hex
short_header = refl

resolve_trace_context-IsContext_example :
    let ctx =
      resolve_trace_context clean span_bytes trace_bytes span_bytes
        (some (format_traceparent context)) in
    IsContext ctx
    × (match_traceparent (format_traceparent ctx)
        ≡ some (ctx.trace_id, ctx.span_id, hex_byte ctx.flags))
resolve_trace_context-IsContext_example =
    resolve_trace_context-IsContext clean span_bytes trace_bytes span_bytes
      (some (format_traceparent context)) refl refl refl
