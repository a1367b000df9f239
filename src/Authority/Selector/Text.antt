-- ===== src/Authority/Selector/Text.antt =====
-- Resource selectors as texts (crates/kiteframe-provider/src/resource.rs): `parse` against `render`.
use kiteframe.Base.{
  true, false, ◌||◌, List, [], ◌∷◌, ◌++◌, Char, String, of_chars, chars, chars-of_chars,
  of_chars-chars, Char-discrete, ℕ_discrete, Result, ok, err, ◌>>=◌, any, All, is_empty, char_eq,
  chars_eq, nat_eq, ◌≡◌, ◌∙◌, sym, ap, refl, Bool-cases, inl, inr, subst, arith,
}
use kiteframe.Base.Laws.{All-append}
use kiteframe.Authority.Selector.{
  placeholder, contains, begins_with, is_partial_wildcard, ParsedSelector, scan, is_separator,
  render_chars, parse, render,
}
use mathlib.Core.List.{append_assoc, append-nil}
use mathlib.Core.Bool.{or_assoc, or_comm}

-- No separator stands in a segment.
abbrev pub IsSegment : List Char → Type 0
IsSegment s = (is_empty s ≡ false) × All (λ c. is_separator c ≡ false) s

-- What `parse` builds: proper segments with a separator between every two.
abbrev pub IsWoven : List (List Char) → List Char → Type 0
IsWoven [] separators = ⊥
IsWoven (s ∷ []) separators = IsSegment s × (separators ≡ [])
IsWoven (s ∷ t ∷ segments) [] = ⊥
IsWoven (s ∷ t ∷ segments) (c ∷ separators) =
    IsSegment s × (is_separator c ≡ true) × IsWoven (t ∷ segments) separators

-- ------------------------------------------------------------------ the loop

scan-segment :
    (s current rest : List Char)
    → All (λ c. is_separator c ≡ false) s
    → scan current (s ++ rest) ≡ scan (current ++ s) rest
unfolding scan
scan-segment [] current rest h = rw (append-nil current) refl
scan-segment (c ∷ s) current rest h = rw (h.0) (
    scan-segment s (current ++ c ∷ []) rest h.1
    ∙ ap (λ seen. scan seen rest) (append_assoc current (c ∷ []) s))

pub scan-render :
    (segments : List (List Char)) (separators : List Char)
    → IsWoven segments separators
    → scan [] (render_chars segments separators)
      ≡ ok (record { segments = segments; separators = separators })
unfolding scan render_chars
scan-render [] separators h = elim h [ ]
scan-render (s ∷ t ∷ segments) [] h = elim h [ ]
scan-render (s ∷ []) separators h = rw (h.1) (scan-segment s [] [] h.0.1 ∙ rw (h.0.0) refl)
scan-render (s ∷ t ∷ segments) (c ∷ separators) h =
    scan-segment s [] (c ∷ render_chars (t ∷ segments) separators) h.0.1
    ∙ rw (h.1, h.0.0, scan-render (t ∷ segments) separators h.2) refl

IsWoven-cons :
    (s : List Char) (c : Char) (segments : List (List Char)) (separators : List Char)
    → IsSegment s
    → is_separator c ≡ true
    → IsWoven segments separators
    → IsWoven (s ∷ segments) (c ∷ separators)
      × (render_chars (s ∷ segments) (c ∷ separators) ≡ s ++ c ∷ render_chars segments separators)
unfolding render_chars
IsWoven-cons s c [] separators hs hc h = elim h [ ]
IsWoven-cons s c (t ∷ segments) separators hs hc h = ((hs, hc, h), refl)

-- A selector was read from this text.
abbrev IsRead : List Char → Result String ParsedSelector → Type 0
IsRead text (ok p) = IsWoven p.segments p.separators × (render_chars p.segments p.separators ≡ text)
IsRead text (err e) = Unit

IsRead-cons :
    (s : List Char) (c : Char) (cs : List Char) (rest : Result String ParsedSelector)
    → IsSegment s
    → is_separator c ≡ true
    → IsRead cs rest
    → IsRead
        (s ++ c ∷ cs)
        (rest >>= λ p. ok (record { segments = s ∷ p.segments; separators = c ∷ p.separators }))
IsRead-cons s c cs (err e) hs hc h = tt
IsRead-cons s c cs (ok p) hs hc h =
    let woven = IsWoven-cons s c p.segments p.separators hs hc h.0 in
    (woven.0, woven.1 ∙ ap (λ rest. s ++ c ∷ rest) h.1)

-- What was collected is the beginning of the first segment.
scan-IsRead :
    (cs current : List Char)
    → All (λ c. is_separator c ≡ false) current
    → IsRead (current ++ cs) (scan current cs)
unfolding scan render_chars
scan-IsRead [] current h = elim (Bool-cases (is_empty current)) [
  | inl e ↦ rw e tt
  | inr e ↦ rw e (((e, h), refl), refl)
]
scan-IsRead (c ∷ cs) current h = elim (Bool-cases (is_separator c)) [
  | inl e ↦ elim (Bool-cases (is_empty current)) [
    | inl e' ↦ rw (e, e') tt
    | inr e' ↦ rw (e, e') (IsRead-cons current c cs (scan [] cs) (e', h) e (scan-IsRead cs [] tt))
  ]
  | inr e ↦
      rw (e, sym (append_assoc current (c ∷ []) cs))
        (scan-IsRead cs (current ++ c ∷ []) (All-append _ current (c ∷ []) h (e, tt)))
]

-- ------------------------------------------------------------------ placeholders

-- No separator stands in a placeholder, so none spans two segments.
begins_with-segment :
    (needle s : List Char) (c : Char) (rest : List Char)
    → All (λ n. is_separator n ≡ false) needle
    → is_separator c ≡ true
    → begins_with needle (s ++ c ∷ rest) ≡ begins_with needle s
unfolding begins_with
begins_with-segment [] s c rest h hc = refl
begins_with-segment (n ∷ needle) [] c rest h hc = ground arith
begins_with-segment (n ∷ needle) (x ∷ s) c rest h hc =
    rw (begins_with-segment needle s c rest h.1 hc) refl

contains-segment :
    (n : Char) (needle s : List Char) (c : Char) (rest : List Char)
    → All (λ m. is_separator m ≡ false) (n ∷ needle)
    → is_separator c ≡ true
    → contains (n ∷ needle) (s ++ c ∷ rest)
      ≡ (contains (n ∷ needle) s || contains (n ∷ needle) rest)
unfolding contains
contains-segment n needle [] c rest h hc = rw (begins_with-segment (n ∷ needle) [] c rest h hc) refl
contains-segment n needle (x ∷ s) c rest h hc =
    rw
      (
        begins_with-segment (n ∷ needle) (x ∷ s) c rest h hc,
        contains-segment n needle s c rest h hc,
      )
      (sym (
        or_assoc (begins_with (n ∷ needle) (x ∷ s)) (contains (n ∷ needle) s)
          (contains (n ∷ needle) rest)))

no_separator : All (λ n. is_separator n ≡ false) placeholder
unfolding is_separator Char-discrete ℕ_discrete
no_separator = (refl, (refl, (refl, (refl, (refl, (refl, (refl, (refl, (refl, (refl, tt))))))))))

contains-render :
    (segments : List (List Char)) (separators : List Char)
    → IsWoven segments separators
    → contains placeholder (render_chars segments separators) ≡ any (contains placeholder) segments
unfolding render_chars
contains-render [] separators h = elim h [ ]
contains-render (s ∷ t ∷ segments) [] h = elim h [ ]
contains-render (s ∷ []) separators h =
    rw (h.1, append-nil s) (or_comm false (contains placeholder s))
contains-render (s ∷ t ∷ segments) (c ∷ separators) h =
    contains-segment _ _ s c (render_chars (t ∷ segments) separators) no_separator h.1
    ∙ rw (contains-render (t ∷ segments) separators h.2) refl

-- ------------------------------------------------------------------ whole selectors

-- A selector that `parse` can give.
abbrev pub IsSelector : ParsedSelector → Type 0
IsSelector p =
    IsWoven p.segments p.separators
    × (any is_partial_wildcard p.segments ≡ false)
    × (any (contains placeholder) p.segments ≡ false)

-- Writing a selector that `parse` can give and reading the text gives the selector back.
pub parse-render : (p : ParsedSelector) → IsSelector p → parse (render p) ≡ ok p
unfolding parse render
parse-render p h =
    rw
      (
        chars-of_chars (render_chars p.segments p.separators),
        contains-render p.segments p.separators h.0,
        h.2,
        scan-render p.segments p.separators h.0,
        h.1,
      )
      refl

parse-eq_ok :
    (value : String) {p : ParsedSelector}
    → parse value ≡ ok p
    → (contains placeholder (chars value) ≡ false)
      × (scan [] (chars value) ≡ ok p)
      × (any is_partial_wildcard p.segments ≡ false)
unfolding parse
parse-eq_ok value e = ground arith

-- What is read is a well-formed selector, and writing it gives the text back.
pub parse-IsSelector :
    (value : String) {p : ParsedSelector} → parse value ≡ ok p → IsSelector p × (render p ≡ value)
unfolding render
parse-IsSelector value {p} e =
    let steps = parse-eq_ok value e in
    let read = subst (IsRead (chars value)) steps.1 (scan-IsRead (chars value) [] tt) in
    let whole = contains-render p.segments p.separators read.0 in
    (
      (read.0, steps.2, sym whole ∙ ap (contains placeholder) read.1 ∙ steps.0),
      ap of_chars read.1 ∙ of_chars-chars value,
    )
