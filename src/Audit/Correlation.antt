-- ===== src/Audit/Correlation.antt =====
-- The trace and span identifiers of an audit record (`trace_ids` of
-- crates/kiteframe-provider/src/invocation.rs), taken from the checked trace context.
mod Examples
use Prim.Native.String.{◌++◌ as append}
use kiteframe.Base.{
  ok-injective, not-eq_false, after_refusal, >>=-eq_ok, of_chars-append, chars_eq, ◌||◌, ◌&&◌, inl,
  inr, Bool-cases, eq_of_==, and-eq_true, refuse_if, ℕ, ◌≡◌, refl, sym, ap, ◌∙◌, Bool, true, false,
  not, String, Char, List, [], ◌∷◌, ◌++◌, Option, some, none, Result, ok, err, ◌>>=◌, ◌>>◌, map_err,
  chars, of_chars, of_chars-chars, chars-append, all, any, length, utf8, ◌==◌, nat_eq, ℕ_discrete,
}
use kiteframe.Base.Within.{all-Elem}
use kiteframe.Contract.Diagnostic.{Diagnostic}
use kiteframe.Contract.Refs.{TraceContext}
use kiteframe.Contract.Trace.{
  check_baggage, collect_baggage, is_lower_hex, bytes_of, split_parts, valid_parts,
  valid_traceparent, trace_context_try_new,
}
use kiteframe.Contract.Trace.Split.{join, join-split}
use kiteframe.Audit.{correlation_id_new, trace_id_new, span_id_new, unavailable}

-- `trace_ids` on what `split` yields.
unfoldable pub ids_of_parts : List (List Char) → Result Diagnostic (String × String)
unfolding trace_id_new span_id_new unavailable
ids_of_parts [] = err (unavailable "validated invocation trace context omitted its trace ID")
ids_of_parts (version ∷ []) =
    err (unavailable "validated invocation trace context omitted its trace ID")
ids_of_parts (version ∷ trace ∷ []) =
    err (unavailable "validated invocation trace context omitted its span ID")
ids_of_parts (version ∷ trace ∷ span ∷ rest) = do
  trace_id ← map_err unavailable (trace_id_new (of_chars trace))
  span_id ← map_err unavailable (span_id_new (of_chars span))
  ok (trace_id, span_id)

unfoldable pub trace_ids : TraceContext → Result Diagnostic (String × String)
unfolding split_parts ids_of_parts
trace_ids context = ids_of_parts (split_parts "-" (chars context.traceparent))

some_other :
    (same rest all_rest : Bool)
    → (not same || rest) ≡ true
    → (rest ≡ true → all_rest ≡ false)
    → (same && all_rest) ≡ false
some_other true rest all_rest h k = k h
some_other false rest all_rest h k = refl

any-all :
    (xs : List ℕ) → any (λ byte. not (byte == 48)) xs ≡ true → all (λ byte. byte == 48) xs ≡ false
any-all [] h = cc
any-all (x ∷ xs) h =
    some_other (x == 48) (any (λ byte. not (byte == 48)) xs) (all (λ byte. byte == 48) xs) h
      (any-all xs)

-- A checked identifier.
correlation_id_new-ok :
    (size : ℕ) (message value : String)
    → (length (utf8 value) == size) ≡ true
    → all is_lower_hex (utf8 value) ≡ true
    → any (λ byte. not (byte == 48)) (utf8 value) ≡ true
    → correlation_id_new size message value ≡ ok value
unfolding correlation_id_new
correlation_id_new-ok size message value l h n = rw (l, h, any-all (utf8 value) n) refl

abbrev all_hex : List Char → Bool
all_hex part = all is_lower_hex (bytes_of part)

tests-eq_true :
    (a b c d e f g : Bool)
    → (a && b && c && d && e && f && g) ≡ true
    → (a ≡ true) × (b ≡ true) × (c ≡ true) × (e ≡ true) × (f ≡ true) × (g ≡ true)
tests-eq_true a b c d e f g h =
    let (h1, at_g) = and-eq_true h in
    let (h2, at_f) = and-eq_true h1 in
    let (h3, at_e) = and-eq_true h2 in
    let (h4, _) = and-eq_true {b = d} h3 in
    let (h5, at_c) = and-eq_true h4 in
    let (at_a, at_b) = and-eq_true h5 in (at_a, at_b, at_c, at_e, at_f, at_g)

ids_of_parts-valid :
    (parts : List (List Char))
    → valid_parts parts ≡ true
    → (trace : List Char) × (span : List Char) × (flags : List Char) × (parts
        ≡ chars "00" ∷ trace ∷ span ∷ flags ∷ [])
      × (ids_of_parts parts ≡ ok (of_chars trace, of_chars span))
unfolding valid_parts ids_of_parts trace_id_new span_id_new
ids_of_parts-valid [] h = cc
ids_of_parts-valid (version ∷ []) h = cc
ids_of_parts-valid (version ∷ trace ∷ []) h = cc
ids_of_parts-valid (version ∷ trace ∷ span ∷ []) h = cc
ids_of_parts-valid (version ∷ trace ∷ span ∷ flags ∷ []) h =
    let (start, trace_length, span_length, hex, trace_other, span_other) =
      tests-eq_true (version == chars "00") (length (bytes_of trace) == 32)
        (length (bytes_of span) == 16) (length (bytes_of flags) == 2)
        (all all_hex (trace ∷ span ∷ flags ∷ [])) (any (λ byte. not (byte == 48)) (bytes_of trace))
        (any (λ byte. not (byte == 48)) (bytes_of span)) h in
    let trace_hex = all-Elem all_hex trace (trace ∷ span ∷ flags ∷ []) hex (inl refl) in
    let span_hex = all-Elem all_hex span (trace ∷ span ∷ flags ∷ []) hex (inr (inl refl)) in
    let trace_id =
      correlation_id_new-ok 32 "audit trace ID must be 32 non-zero lowercase hexadecimal characters"
        (of_chars trace) trace_length trace_hex trace_other in
    let span_id =
      correlation_id_new-ok 16 "audit span ID must be 16 non-zero lowercase hexadecimal characters"
        (of_chars span) span_length span_hex span_other in
    (
      trace,
      span,
      flags,
      ap (λ first. first ∷ trace ∷ span ∷ flags ∷ []) (eq_of_== start),
      rw (trace_id, span_id) refl,
    )
ids_of_parts-valid (version ∷ trace ∷ span ∷ flags ∷ more ∷ rest) h = cc

append-dash :
    (part rest : List Char)
    → of_chars (part ++ "-" ∷ rest) ≡ append (of_chars part) (append "-" (of_chars rest))
append-dash part rest =
    of_chars-append part ("-" ∷ rest)
    ∙ ap (append (of_chars part)) (of_chars-append ("-" ∷ []) rest)

joined :
    (trace span flags : List Char)
    → of_chars (join "-" (chars "00" ∷ trace ∷ span ∷ flags ∷ []))
      ≡ append "00-" (
          append
            (of_chars trace)
            (append "-" (append (of_chars span) (append "-" (of_chars flags)))))
joined trace span flags =
    of_chars-append (chars "00-") (trace ++ "-" ∷ (span ++ "-" ∷ flags))
    ∙ ap (append "00-") (
        append-dash trace (span ++ "-" ∷ flags)
        ∙ ap (λ rest. append (of_chars trace) (append "-" rest)) (append-dash span flags))

trace_context_try_new-traceparent :
    (traceparent : String) (tracestate : Option String) (baggage : List (String × String))
    {context : TraceContext}
    → trace_context_try_new traceparent tracestate baggage ≡ ok context
    → (valid_traceparent traceparent ≡ true) × (context.traceparent ≡ traceparent)
unfolding trace_context_try_new
trace_context_try_new-traceparent traceparent tracestate baggage h =
    let (valid, h1) =
      after_refusal (not (valid_traceparent traceparent))
        "traceparent must be a valid W3C trace context header" h in
    let (_, h2) = after_refusal _ "tracestate must use the canonical W3C subset" h1 in
    let (_, _, h3) = >>=-eq_ok (check_baggage baggage) _ h2 in
    let (checked, _, h4) = >>=-eq_ok (collect_baggage baggage) _ h3 in
    let same = ap (λ c. c.traceparent) (ok-injective h4) in
    (not-eq_false (valid_traceparent traceparent) valid, sym same)

-- What `TraceContext::try_new` accepts is the version 00, a trace, a span and flags with a dash between
-- each two, and its trace and its span are the identifiers that `trace_ids` gives.
pub trace_context_try_new-trace_ids :
    (traceparent : String) (tracestate : Option String) (baggage : List (String × String))
    {context : TraceContext}
    → trace_context_try_new traceparent tracestate baggage ≡ ok context
    → (trace : String) × (span : String) × (flags : String) × (traceparent
        ≡ append "00-" (append trace (append "-" (append span (append "-" flags)))))
      × (trace_ids context ≡ ok (trace, span))
unfolding trace_context_try_new trace_ids valid_traceparent
trace_context_try_new-trace_ids traceparent tracestate baggage h =
    let (valid, same) = trace_context_try_new-traceparent traceparent tracestate baggage h in
    let (trace, span, flags, parts, ids) =
      ids_of_parts-valid (split_parts "-" (chars traceparent)) valid in
    let text =
      sym (of_chars-chars traceparent)
      ∙ ap of_chars (sym (join-split "-" (chars traceparent)))
      ∙ ap (λ parts. of_chars (join "-" parts)) parts
      ∙ joined trace span flags in
    (
      of_chars trace,
      of_chars span,
      of_chars flags,
      text,
      ap (λ text. ids_of_parts (split_parts "-" (chars text))) same ∙ ids,
    )
