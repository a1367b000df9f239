-- ===== src/Feature.antt =====
-- Features and their negotiation (crates/kiteframe-contract/src/feature.rs,
-- crates/kiteframe-resolver/src/feature.rs). A feature identifier is its text, `name@major`.
mod Negotiated
mod Examples
use mathlib.Core.Option
use Prim.Native.Char.{code}
use Prim.Native.String.{◌++◌ as append}
use kiteframe.Base.{
  ℕ, ◌+◌, ◌-◌, ◌*◌, Bool, true, false, not, ◌&&◌, ◌||◌, Option, none, some, List, [], ◌∷◌, ◌++◌,
  Char, String, chars, Result, ok, err, ◌>>=◌, ◌>>◌, refuse_if, map, any, all, retain, is_empty,
  ◌==◌, leb, ltb, u64_max, char_eq, chars_eq, nat_eq, if◌then◌else◌, Char-discrete,
}
use kiteframe.Contract.Diagnostic.{
  Diagnostic, DiagnosticCode, DiagnosticCategory, DiagnosticStage, diagnostic_error,
}

abbrev pub FeatureId : Type 0
FeatureId = String

-- The text in front of the last `@`, if a later one was found, and else at this one.
abbrev split_here :
    Char → List Char → Option (List Char × List Char) → Option (List Char × List Char)
split_here c rest (some (name, major)) = some (c ∷ name, major)
split_here c rest none = if c == "@" then some ([], rest) else none

-- `rsplit_once('@')`
unfoldable pub rsplit_at : List Char → Option (List Char × List Char)
unfolding Char-discrete
rsplit_at [] = none
rsplit_at (c ∷ rest) = split_here c rest (rsplit_at rest)

-- `char::is_ascii_digit`
abbrev is_digit : Char → Bool
is_digit c = leb 48 (code c) && leb (code c) 57

-- The number that decimal digits write, behind a number read so far.
unfoldable pub digits_value : ℕ → List Char → ℕ
digits_value n [] = n
digits_value n (c ∷ digits) = digits_value (10 * n + (code c - 48)) digits

abbrev starts_with_zero : List Char → Bool
starts_with_zero [] = false
starts_with_zero (c ∷ digits) = c == "0"

-- `FeatureId::new`: a major version that does not fit in a `u64` is refused.
unfoldable pub feature_new : String → Result String FeatureId
unfolding rsplit_at digits_value
feature_new value = elim (rsplit_at (chars value)) [
  | none ↦ err "feature must include a major version"
  | some (name, major) ↦
      refuse_if
        (is_empty name || is_empty major || starts_with_zero major || not (all is_digit major))
        "invalid feature identifier"
      >> refuse_if (ltb u64_max (digits_value 0 major)) "feature major version exceeds u64"
      >> ok value
]

-- `FeatureId::name` and `FeatureId::major`. They panic on a text without `@`, which `new` refuses
-- and for which an empty name and 0 stand here.
unfoldable pub feature_name : FeatureId → List Char
unfolding rsplit_at
feature_name f = elim (rsplit_at (chars f)) [ none ↦ [] | some (name, major) ↦ name ]

unfoldable pub feature_major : FeatureId → ℕ
unfolding rsplit_at digits_value
feature_major f = elim (rsplit_at (chars f)) [
  | none ↦ 0
  | some (name, major) ↦ digits_value 0 major
]

-- A `BTreeSet` in ascending order.
abbrev pub FeatureSet : Type 0
FeatureSet = List FeatureId

pub record FeatureNegotiation : Type 0 where
  pub enabled_optional : FeatureSet
  pub omitted_optional : FeatureSet

-- `compatible`
unfoldable pub compatible : FeatureId → FeatureSet → Bool
compatible feature supported =
    any
      (λ candidate.
        feature_name candidate == feature_name feature
        && feature_major candidate == feature_major feature)
      supported

-- `difference_compatible`
unfoldable pub difference_compatible : FeatureSet → FeatureSet → FeatureSet
difference_compatible left right = retain (λ feature. not (compatible feature right)) left

-- `intersection_compatible`
unfoldable pub intersection_compatible : FeatureSet → FeatureSet → FeatureSet
intersection_compatible left right = retain (λ feature. compatible feature right) left

-- `required_feature_diagnostic`
unfoldable pub required_feature_diagnostic : FeatureId → Diagnostic
unfolding diagnostic_error
required_feature_diagnostic feature =
    diagnostic_error DiagnosticCode.feature_unsupported DiagnosticCategory.feature
      DiagnosticStage.resolve (append "runtime target does not support required feature " feature)

-- `negotiate_features`
unfoldable pub negotiate_features :
    FeatureSet → FeatureSet → FeatureSet → Result (List Diagnostic) FeatureNegotiation
unfolding difference_compatible intersection_compatible
negotiate_features required optional supported =
    refuse_if (not (is_empty (difference_compatible required supported)))
      (map required_feature_diagnostic (difference_compatible required supported))
    >> ok (record {
      enabled_optional = intersection_compatible optional supported;
      omitted_optional = difference_compatible optional supported;
    })
