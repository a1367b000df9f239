-- ===== src/Contract/Trace.antt =====
-- Trace contexts (crates/kiteframe-contract/src/service.rs): `TraceContext::try_new` and the tests
-- of its headers. A text is split and trimmed by characters, its lengths are in bytes. A `BTreeMap`
-- is its list of entries, in the order of its keys.
pub mod Split
mod Members
mod Examples
use Prim.Native.Char.{code}
use mathlib.Core.Option
use kiteframe.Base.{
  ℕ, ◌+◌, Bool, true, false, not, ◌||◌, ◌&&◌, if◌then◌else◌, ltb, leb, ◌==◌, ℕ_discrete, nat_eq,
  string_eq, char_eq, chars_eq, String, Char, List, [], ◌∷◌, ◌++◌, Option, some, none, Result, ok,
  err, ◌>>=◌, ◌>>◌, refuse_if, chars, of_chars, codes, utf8, length, is_empty, any, all,
  is_whitespace, String-discrete, Chars-discrete,
}
use kiteframe.Contract.Refs.{TraceContext}

-- The parts of a text between the separators; there is always one.
abbrev pub in_first : Char → List (List Char) → List (List Char)
in_first c [] = (c ∷ []) ∷ []
in_first c (part ∷ parts) = (c ∷ part) ∷ parts

-- `split` at a character.
unfoldable pub split_parts : Char → List Char → List (List Char)
unfolding Chars-discrete
split_parts separator [] = [] ∷ []
split_parts separator (c ∷ cs) =
    let rest = split_parts separator cs in if c == separator then [] ∷ rest else in_first c rest

-- `split_once` at a character.
unfoldable pub split_first : Char → List Char → Option (List Char × List Char)
unfolding Chars-discrete
split_first separator [] = none
split_first separator (c ∷ cs) =
    let rest = Option.map (λ (before, behind). (c ∷ before, behind)) (split_first separator cs) in
    if c == separator then some ([], cs) else rest

-- `trim`, from the front and from the back.
unfoldable pub trim_start : List Char → List Char
unfolding is_whitespace
trim_start [] = []
trim_start (c ∷ cs) = let rest = trim_start cs in if is_whitespace (code c) then rest else c ∷ cs

unfoldable pub trim_end : List Char → List Char
unfolding is_whitespace
trim_end [] = []
trim_end (c ∷ cs) =
    let rest = trim_end cs in if is_empty rest && is_whitespace (code c) then [] else c ∷ rest

-- `as_bytes` of a part.
abbrev pub bytes_of : List Char → List ℕ
bytes_of part = utf8 (of_chars part)

abbrev is_ascii_digit : ℕ → Bool
is_ascii_digit byte = leb 48 byte && leb byte 57

abbrev is_ascii_lowercase : ℕ → Bool
is_ascii_lowercase byte = leb 97 byte && leb byte 122

abbrev pub is_lower_hex : ℕ → Bool
is_lower_hex byte = is_ascii_digit byte || leb 97 byte && leb byte 102

-- `valid_traceparent` on the parts of the header.
unfoldable pub valid_parts : List (List Char) → Bool
unfolding Chars-discrete ℕ_discrete
valid_parts [] = false
valid_parts (version ∷ []) = false
valid_parts (version ∷ trace ∷ []) = false
valid_parts (version ∷ trace ∷ parent ∷ []) = false
valid_parts (version ∷ trace ∷ parent ∷ flags ∷ []) =
    version == chars "00"
    && length (bytes_of trace) == 32
    && length (bytes_of parent) == 16
    && length (bytes_of flags) == 2
    && all (λ part. all is_lower_hex (bytes_of part)) (trace ∷ parent ∷ flags ∷ [])
    && any (λ byte. not (byte == 48)) (bytes_of trace)
    && any (λ byte. not (byte == 48)) (bytes_of parent)
valid_parts (version ∷ trace ∷ parent ∷ flags ∷ more ∷ rest) = false

unfoldable pub valid_traceparent : String → Bool
unfolding split_parts valid_parts
valid_traceparent value = valid_parts (split_parts "-" (chars value))

abbrev pub valid_tracestate_non_space : ℕ → Bool
valid_tracestate_non_space byte =
    leb 0x21 byte && leb byte 0x2b
    || leb 0x2d byte && leb byte 0x3c
    || leb 0x3e byte && leb byte 0x7e

abbrev last_of : ℕ → List ℕ → ℕ
last_of byte [] = byte
last_of byte (next ∷ rest) = last_of next rest

-- On the bytes of the value.
unfoldable pub valid_tracestate_value : List ℕ → Bool
unfolding ℕ_discrete
valid_tracestate_value [] = false
valid_tracestate_value (first ∷ rest) =
    leb (length (first ∷ rest)) 256
    && valid_tracestate_non_space first
    && valid_tracestate_non_space (last_of first rest)
    && all (λ byte. byte == 32 || valid_tracestate_non_space byte) (first ∷ rest)

-- On the bytes of the part.
unfoldable pub valid_tracestate_key_part : List ℕ → ℕ → Bool → Bool
unfolding ℕ_discrete
valid_tracestate_key_part [] max_length digit_first = false
valid_tracestate_key_part (first ∷ rest) max_length digit_first =
    leb (length (first ∷ rest)) max_length
    && (is_ascii_lowercase first || digit_first && is_ascii_digit first)
    && all
        (λ byte.
          is_ascii_lowercase byte
          || is_ascii_digit byte
          || byte == 95
          || byte == 45
          || byte == 42
          || byte == 47)
        rest

unfoldable pub valid_tracestate_key : List Char → Bool
unfolding split_first valid_tracestate_key_part
valid_tracestate_key key = elim (split_first "@" key) [
  | some (tenant, system) ↦
      valid_tracestate_key_part (bytes_of tenant) 241 true
      && valid_tracestate_key_part (bytes_of system) 14 false
  | none ↦ valid_tracestate_key_part (bytes_of key) 256 false
]

-- The key of one member, if nothing is wrong with the member itself.
unfoldable pub member_key : List Char → Option (List Char)
unfolding split_first trim_start trim_end valid_tracestate_key valid_tracestate_value Chars-discrete
member_key part = elim (split_first "=" part) [
  | none ↦ none
  | some (key, value) ↦
      if trim_end (trim_start part) == part
        && not (any (λ c. c == "=") value)
        && valid_tracestate_key key
        && valid_tracestate_value (bytes_of value)
      then some key
      else none
]

-- The loop over the members, with the keys seen and their number.
unfoldable pub valid_members : List (List Char) → List (List Char) → ℕ → Bool
unfolding member_key Chars-discrete
valid_members [] seen member_count = true
valid_members (part ∷ parts) seen member_count = elim (member_key part) [
  | none ↦ false
  | some key ↦
      leb (member_count + 1) 32
      && not (any (λ k. k == key) seen)
      && valid_members parts (key ∷ seen) (member_count + 1)
]

unfoldable pub valid_tracestate : String → Bool
unfolding split_parts valid_members
valid_tracestate value =
    not (is_empty (chars value))
    && leb (length (utf8 value)) 512
    && all (λ c. ltb c 128) (codes value)
    && valid_members (split_parts "," (chars value)) [] 0

-- `BaggageCorrelationId::new`
unfoldable pub baggage_correlation_id_new : String → Result String String
unfolding ℕ_discrete
baggage_correlation_id_new value = do
  refuse_if (not (length (utf8 value) == 32) || not (all is_lower_hex (utf8 value)))
      "baggage correlation ID must be 32 lowercase hexadecimal characters"
  ok value

abbrev allowed_baggage_keys : List String
allowed_baggage_keys =
    "kiteframe.agent_id" ∷ "kiteframe.request_id" ∷ "kiteframe.session_id" ∷ "kiteframe.task_id"
    ∷ []

-- The loop over the entries, and the collection of the checked entries.
unfoldable pub check_baggage : List (String × String) → Result String (Unit {0})
unfolding baggage_correlation_id_new String-discrete
check_baggage [] = ok tt
check_baggage ((key, value) ∷ entries) = do
  refuse_if (not (any (λ k. k == key) allowed_baggage_keys)) "baggage key is not allowlisted"
  _ ← baggage_correlation_id_new value
  check_baggage entries

unfoldable pub collect_baggage : List (String × String) → Result String (List (String × String))
unfolding baggage_correlation_id_new
collect_baggage [] = ok []
collect_baggage ((key, value) ∷ entries) = do
  id ← baggage_correlation_id_new value
  rest ← collect_baggage entries
  ok ((key, id) ∷ rest)

-- `TraceContext::try_new`
unfoldable pub trace_context_try_new :
    String → Option String → List (String × String) → Result String TraceContext
unfolding valid_traceparent valid_tracestate check_baggage collect_baggage
trace_context_try_new traceparent tracestate baggage = do
  refuse_if (not (valid_traceparent traceparent))
      "traceparent must be a valid W3C trace context header"
  refuse_if (elim tracestate [ none ↦ false | some value ↦ not (valid_tracestate value) ])
      "tracestate must use the canonical W3C subset"
  check_baggage baggage
  checked ← collect_baggage baggage
  ok (record { traceparent = traceparent; tracestate = tracestate; baggage = checked })
