-- ===== src/Contract/Trace/Split.antt =====
-- `split` and joining (crates/kiteframe-contract/src/service.rs splits its headers).
use kiteframe.Base.{
  eq_of_==, is_empty, ◌≡◌, refl, sym, ap, ◌∙◌, inl, inr, Char, List, [], ◌∷◌, ◌++◌, false, ◌==◌,
  char_eq, chars_eq, Bool-cases,
}
use kiteframe.Contract.Trace.{split_parts, in_first}

-- The parts, with the separator between each two of them.
abbrev pub join : Char → List (List Char) → List Char
join separator [] = []
join separator (part ∷ []) = part
join separator (part ∷ next ∷ rest) = part ++ separator ∷ join separator (next ∷ rest)

join-in_first :
    (separator c : Char) (parts : List (List Char))
    → join separator (in_first c parts) ≡ c ∷ join separator parts
join-in_first separator c [] = refl
join-in_first separator c (part ∷ []) = refl
join-in_first separator c (part ∷ next ∷ rest) = refl

join-empty_part :
    (separator : Char) (parts : List (List Char))
    → is_empty parts ≡ false
    → join separator ([] ∷ parts) ≡ separator ∷ join separator parts
join-empty_part separator [] h = cc
join-empty_part separator (part ∷ rest) h = refl

is_empty-in_first : (c : Char) (parts : List (List Char)) → is_empty (in_first c parts) ≡ false
is_empty-in_first c [] = refl
is_empty-in_first c (part ∷ rest) = refl

is_empty-split : (separator : Char) (cs : List Char) → is_empty (split_parts separator cs) ≡ false
unfolding split_parts
is_empty-split separator [] = refl
is_empty-split separator (c ∷ cs) = elim (Bool-cases (c == separator)) [
  | inl same ↦ rw (same) refl
  | inr other ↦ rw (other) (is_empty-in_first c (split_parts separator cs))
]

-- The parts of a split text, joined again, are the text.
pub join-split :
    (separator : Char) (cs : List Char) → join separator (split_parts separator cs) ≡ cs
unfolding split_parts
join-split separator [] = refl
join-split separator (c ∷ cs) = elim (Bool-cases (c == separator)) [
  | inl same ↦ rw (same) (
      join-empty_part separator (split_parts separator cs) (is_empty-split separator cs)
      ∙ ap (λ rest. separator ∷ rest) (join-split separator cs)
      ∙ ap (λ first. first ∷ cs) (sym (eq_of_== same)))
  | inr other ↦ rw (other) (
      join-in_first separator c (split_parts separator cs)
      ∙ ap (λ rest. c ∷ rest) (join-split separator cs))
]
