-- ===== src/Audit/Correlation/Examples.antt =====
-- The identifiers of a checked trace context, at a sample header.
use Prim.Native.String.{◌++◌ as append}
use kiteframe.Base.{
  Char-discrete, none, Chars-discrete, ◌≡◌, refl, String, [], ok, ℕ_discrete, utf8, utf8_char,
}
use kiteframe.Contract.Trace.{
  split_parts, valid_parts, valid_traceparent, check_baggage, collect_baggage,
  trace_context_try_new,
}
use kiteframe.Audit.Correlation.{trace_ids, trace_context_try_new-trace_ids}
use kiteframe.Contract.Refs.{TraceContext}

abbrev sample_traceparent : String
sample_traceparent = "00-4bf92f3577b34da6a3ce929d0e0e4736-00f067aa0ba902b7-01"

abbrev sample_context : TraceContext
sample_context = record { traceparent = sample_traceparent; tracestate = none; baggage = [] }

sample_context_test : trace_context_try_new sample_traceparent none [] ≡ ok sample_context
unfolding trace_context_try_new check_baggage collect_baggage split_parts valid_parts
    valid_traceparent utf8 utf8_char Char-discrete Chars-discrete ℕ_discrete
sample_context_test = refl

trace_context_try_new-trace_ids_example :
    (trace : String) × (span : String) × (flags : String) × (sample_traceparent
      ≡ append "00-" (append trace (append "-" (append span (append "-" flags)))))
    × (trace_ids sample_context ≡ ok (trace, span))
trace_context_try_new-trace_ids_example =
    trace_context_try_new-trace_ids sample_traceparent none [] sample_context_test
