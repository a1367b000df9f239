-- ===== src/Authority/Selector.antt =====
-- Resource selectors (crates/kiteframe-provider/src/resource.rs): segments with a separator between
-- every two. A text is worked on as the list of its characters.
use mathlib.Core.Option
pub mod Text
pub mod Order
pub mod Parsed
pub mod Meet
pub mod Preorder
use kiteframe.Base.{
  Bool, true, false, not, ◌&&◌, ◌||◌, Option, none, some, List, [], ◌∷◌, ◌++◌, Char, String,
  of_chars, chars, Result, ok, err, ◌>>=◌, ◌>>◌, refuse_if, any, length, is_empty, ◌==◌, char_eq,
  chars_eq, nat_eq, if◌then◌else◌, Char-discrete, Chars-discrete, ℕ_discrete,
}

pub record ParsedSelector : Type 0 where
  pub segments : List (List Char)
  pub separators : List Char

abbrev pub star : List Char
star = "*" ∷ []

-- "${context."
abbrev pub placeholder : List Char
placeholder = chars "${context."

-- `matches!(character, '/' | ':')`
unfoldable pub is_separator : Char → Bool
is_separator c = c == "/" || c == ":"

unfoldable pub begins_with : List Char → List Char → Bool
begins_with [] text = true
begins_with (p ∷ ps) [] = false
begins_with (p ∷ ps) (c ∷ cs) = p == c && begins_with ps cs

-- `text.contains(needle)`
unfoldable pub contains : List Char → List Char → Bool
unfolding begins_with
contains needle [] = begins_with needle []
contains needle (c ∷ cs) = begins_with needle (c ∷ cs) || contains needle cs

abbrev pub empty_segment : String
empty_segment = "resource selector must contain non-empty segments"

-- The loop of `parse` over the characters, with the segment collected so far. A segment and its
-- separator stand in front of what the rest of the loop pushes.
unfoldable pub scan : List Char → List Char → Result String ParsedSelector
unfolding is_separator
scan current [] =
    refuse_if (is_empty current) empty_segment
    >> ok (record { segments = current ∷ []; separators = [] })
scan current (c ∷ cs) =
    if is_separator c
    then refuse_if (is_empty current) empty_segment
      >> (scan [] cs >>= λ rest.
          ok (record { segments = current ∷ rest.segments; separators = c ∷ rest.separators }))
    else scan (current ++ c ∷ []) cs

-- A segment with a `*` that is not the whole segment.
unfoldable pub is_partial_wildcard : List Char → Bool
is_partial_wildcard segment = any (λ c. c == "*") segment && not (segment == star)

-- `ParsedSelector::parse`
unfoldable pub parse : String → Result String ParsedSelector
unfolding contains scan is_partial_wildcard
parse value = do
  refuse_if (contains placeholder (chars value))
      "resource selector contains an unresolved context placeholder"
  parsed ← scan [] (chars value)
  refuse_if (any is_partial_wildcard parsed.segments)
      "resource selector wildcard must occupy a complete segment"
  ok parsed

-- The separators, each in front of its segment: `zip` stops at the shorter list.
unfoldable pub render_rest : List Char → List (List Char) → List Char
render_rest [] segments = []
render_rest (c ∷ separators) [] = []
render_rest (c ∷ separators) (s ∷ segments) = c ∷ s ++ render_rest separators segments

unfoldable pub render_chars : List (List Char) → List Char → List Char
unfolding render_rest
render_chars [] separators = []
render_chars (s ∷ segments) separators = s ++ render_rest separators segments

-- `ParsedSelector::render`. It panics on a selector without segments, which `parse` never builds
-- and for which the empty text stands here.
unfoldable pub render : ParsedSelector → String
unfolding render_chars
render p = of_chars (render_chars p.segments p.separators)

-- `validate_concrete_resource_selector`
unfoldable pub validate_concrete_resource_selector : String → Result String (Unit {0})
validate_concrete_resource_selector value = do
  parsed ← parse value
  refuse_if (any (λ segment. segment == star) parsed.segments)
      "invocation resource selector must not contain wildcards"

-- `candidate == allowed || allowed == "*"` on every pair of segments.
unfoldable pub all_covered : List (List Char) → List (List Char) → Bool
all_covered [] allowed = true
all_covered (c ∷ cs) [] = true
all_covered (c ∷ cs) (a ∷ allowed) = (c == a || a == star) && all_covered cs allowed

-- The same separators and the same number of segments.
unfoldable pub same_shape : ParsedSelector → ParsedSelector → Bool
same_shape p q = p.separators == q.separators && length p.segments == length q.segments

unfoldable pub parsed_is_subset : ParsedSelector → ParsedSelector → Bool
parsed_is_subset candidate allowed =
    same_shape candidate allowed && all_covered candidate.segments allowed.segments

-- `resource_selector_is_subset`
unfoldable pub resource_selector_is_subset : String → String → Bool
resource_selector_is_subset candidate allowed = elim (parse candidate) [
  | err e ↦ false
  | ok c ↦ elim (parse allowed) [ err e ↦ false | ok a ↦ parsed_is_subset c a ]
]

-- The segment that two segments agree on.
unfoldable pub meet_segment : List Char → List Char → Option (List Char)
meet_segment l r =
    if l == r then some l else if l == star then some r else if r == star then some l else none

-- The first segment of the intersection, in front of the others.
unfoldable pub push_segment :
    Option (List Char) → Option (List (List Char)) → Option (List (List Char))
push_segment none rest = none
push_segment (some s) rest = Option.map (λ segments. s ∷ segments) rest

-- The loop of `intersect_resource_selectors` over the pairs of segments.
unfoldable pub intersect_segments : List (List Char) → List (List Char) → Option (List (List Char))
unfolding push_segment
intersect_segments [] right = some []
intersect_segments (l ∷ left) [] = some []
intersect_segments (l ∷ left) (r ∷ right) =
    push_segment (meet_segment l r) (intersect_segments left right)

unfoldable pub intersect_parsed : ParsedSelector → ParsedSelector → Option ParsedSelector
unfolding same_shape intersect_segments
intersect_parsed left right =
    if not (same_shape left right)
    then none
    else Option.map (λ segments. record { segments = segments; separators = left.separators })
        (intersect_segments left.segments right.segments)

-- `intersect_resource_selectors`
unfoldable pub intersect_resource_selectors : String → String → Result String (Option String)
intersect_resource_selectors left right = do
  l ← parse left
  r ← parse right
  ok (Option.map render (intersect_parsed l r))
