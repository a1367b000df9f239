-- ===== src/Contract/Trace/Examples.antt =====
-- Headers of trace contexts, accepted and refused.
use mathlib.Core.Option
use kiteframe.Base.{
  Char-discrete, ◌≤◌, ◌≡◌, ◌≢◌, refl, true, false, String, Char, List, [], ◌∷◌, some, none, map,
  chars, utf8, utf8_char, length, Pairwise, is_whitespace, Chars-discrete, ℕ_discrete,
  String-discrete, err,
}
use kiteframe.Contract.Trace.{
  split_parts, split_first, trim_start, trim_end, member_key, valid_members, valid_tracestate,
  valid_tracestate_key, valid_tracestate_key_part, valid_tracestate_value, valid_parts,
  valid_traceparent, baggage_correlation_id_new, check_baggage, collect_baggage,
  trace_context_try_new,
}
use kiteframe.Contract.Trace.Members.{valid_tracestate-keys}

abbrev state_text : String
state_text = "rojo=00f067aa0ba902b7,4t@vendor=x y"

state_text_test : valid_tracestate state_text ≡ true
unfolding split_parts split_first trim_start trim_end member_key valid_members valid_tracestate
    valid_tracestate_key valid_tracestate_key_part valid_tracestate_value is_whitespace utf8
    utf8_char Char-discrete Chars-discrete ℕ_discrete Option.map
state_text_test = refl

valid_tracestate-keys_example :
    (length (utf8 state_text) ≤ 512)
    × (length (split_parts "," (chars state_text)) ≤ 32)
    × ((keys : List (List Char)) × (map member_key (split_parts "," (chars state_text))
          ≡ map some keys)
        × Pairwise (λ a b. a ≢ b) keys)
valid_tracestate-keys_example = valid_tracestate-keys state_text state_text_test

-- The same key twice, a space around a member, an empty member and a key that starts with a digit
-- without a tenant are refused.
refused_test :
    (valid_tracestate "a=1,a=2" ≡ false)
    × (valid_tracestate "a=1, b=2" ≡ false)
    × (valid_tracestate "a=1," ≡ false)
    × (valid_tracestate "4a=1" ≡ false)
    × (valid_tracestate "a=" ≡ false)
    × (valid_tracestate "" ≡ false)
unfolding split_parts split_first trim_start trim_end member_key valid_members valid_tracestate
    valid_tracestate_key valid_tracestate_key_part valid_tracestate_value is_whitespace utf8
    utf8_char Char-discrete Chars-discrete ℕ_discrete Option.map
refused_test = (refl, refl, refl, refl, refl, refl)

traceparent_test :
    (valid_traceparent "00-4bf92f3577b34da6a3ce929d0e0e4736-00f067aa0ba902b7-01" ≡ true)
    × (valid_traceparent "00-4bf92f3577b34da6a3ce929d0e0e4736-0000000000000000-01" ≡ false)
    × (valid_traceparent "01-4bf92f3577b34da6a3ce929d0e0e4736-00f067aa0ba902b7-01" ≡ false)
    × (valid_traceparent "00-4bf92f3577b34da6a3ce929d0e0e4736-00f067aa0ba902b7-01-" ≡ false)
unfolding split_parts valid_parts valid_traceparent utf8 utf8_char Char-discrete Chars-discrete
    ℕ_discrete
traceparent_test = (refl, refl, refl, refl)

baggage_test :
    (trace_context_try_new "00-4bf92f3577b34da6a3ce929d0e0e4736-00f067aa0ba902b7-01" none
        (("user.email", "x") ∷ [])
      ≡ err "baggage key is not allowlisted")
unfolding trace_context_try_new check_baggage collect_baggage baggage_correlation_id_new split_parts
    valid_parts valid_traceparent utf8 utf8_char Char-discrete Chars-discrete ℕ_discrete
    String-discrete
baggage_test = refl
