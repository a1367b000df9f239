-- ===== src/Audit/Partition/Endings.antt =====
-- Lines and their ends (the guard on the tail and the lines of `read_and_verify` in
-- crates/kiteframe-audit/src/chain.rs): bytes behind complete lines.
use kiteframe.Base.{
  ℕ, zero, suc, ◌≡◌, ◌⊎◌, inl, inr, refl, ap, ◌∙◌, Bool, true, false, not, List, [], ◌∷◌, ◌++◌,
  ◌==◌, nat_eq, arith, Bool-cases, ==_of_eq, ◌≤◌,
}
use kiteframe.Audit.Codec.{IsPrintable}
use kiteframe.Audit.Partition.{extend_first, raw_lines, strip_cr, has_incomplete_tail, take}

raw_lines-cons :
    (byte : ℕ) (bytes : List ℕ)
    → (line : List ℕ) × (lines : List (List ℕ)) × (raw_lines (byte ∷ bytes) ≡ line ∷ lines)
unfolding raw_lines
raw_lines-cons byte bytes = elim (Bool-cases (byte == 10)) [
  | inl feed ↦ ([], raw_lines bytes, rw (feed) refl)
  | inr other ↦
      let first = extend_first-cons byte (raw_lines bytes) in (first.0, first.1, rw (other) first.2)
]
  where
    extend_first-cons :
        (byte : ℕ) (lines : List (List ℕ))
        → (line : List ℕ) × (rest : List (List ℕ)) × (extend_first byte lines ≡ line ∷ rest)
    extend_first-cons byte [] = (byte ∷ [], [], refl)
    extend_first-cons byte (line ∷ lines) = (byte ∷ line, lines, refl)

extend_first-append :
    (byte : ℕ) (ls more : List (List ℕ)) (line : List ℕ) (lines : List (List ℕ))
    → ls ≡ line ∷ lines
    → extend_first byte (ls ++ more) ≡ extend_first byte ls ++ more
extend_first-append byte ls more line lines h = rw (h) refl

no_ending : (byte : ℕ) → 32 ≤ byte → ((byte == 10) ≡ false) × ((byte == 13) ≡ false)
no_ending byte h = (ground arith, ground arith)

-- Complete lines are read as they are, whatever follows them.
pub raw_lines-append :
    (bytes more : List ℕ)
    → has_incomplete_tail bytes ≡ false
    → raw_lines (bytes ++ more) ≡ raw_lines bytes ++ raw_lines more
unfolding raw_lines has_incomplete_tail
raw_lines-append [] more h = refl
raw_lines-append (byte ∷ []) more h = rw (feed_of_tail (byte == 10) h) refl
  where
    feed_of_tail : (b : Bool) → not b ≡ false → b ≡ true
    feed_of_tail b h = ground arith
raw_lines-append (byte ∷ next ∷ bytes) more h =
    let ih = raw_lines-append (next ∷ bytes) more h in
    let (line, lines, parts) = raw_lines-cons next bytes in
    elim (Bool-cases (byte == 10)) [
      | inl feed ↦ rw (feed) (ap (λ rest. [] ∷ rest) ih)
      | inr other ↦ rw (other) (
          ap (extend_first byte) ih
          ∙ extend_first-append byte (raw_lines (next ∷ bytes)) (raw_lines more) line lines parts)
    ]

pub raw_lines-line : (line : List ℕ) → IsPrintable line → raw_lines (line ++ 10 ∷ []) ≡ line ∷ []
unfolding raw_lines
raw_lines-line [] h = rw (==_of_eq {A = ℕ} {a = 10} refl) refl
raw_lines-line (byte ∷ bytes) h = rw ((no_ending byte h.0).0, raw_lines-line bytes h.1) refl

pub strip_cr_printable : (line : List ℕ) → IsPrintable line → strip_cr line ≡ line
unfolding strip_cr
strip_cr_printable [] h = refl
strip_cr_printable (byte ∷ []) h = rw ((no_ending byte h.0).1) refl
strip_cr_printable (byte ∷ next ∷ bytes) h =
    ap (λ rest. byte ∷ rest) (strip_cr_printable (next ∷ bytes) h.1)

pub tail_of_feed : (bytes : List ℕ) → has_incomplete_tail (bytes ++ 10 ∷ []) ≡ false
unfolding has_incomplete_tail
tail_of_feed [] = rw (==_of_eq {A = ℕ} {a = 10} refl) refl
tail_of_feed (byte ∷ []) = tail_of_feed []
tail_of_feed (byte ∷ next ∷ bytes) = tail_of_feed (next ∷ bytes)

tail-append :
    (bytes : List ℕ) (byte : ℕ) (more : List ℕ)
    → has_incomplete_tail (bytes ++ byte ∷ more) ≡ has_incomplete_tail (byte ∷ more)
unfolding has_incomplete_tail
tail-append [] byte more = refl
tail-append (x ∷ []) byte more = refl
tail-append (x ∷ y ∷ bytes) byte more = tail-append (y ∷ bytes) byte more

tail_of_printable :
    (byte : ℕ) (bytes : List ℕ)
    → IsPrintable (byte ∷ bytes)
    → has_incomplete_tail (byte ∷ bytes) ≡ true
unfolding has_incomplete_tail
tail_of_printable byte [] h = rw ((no_ending byte h.0).0) refl
tail_of_printable byte (next ∷ bytes) h = tail_of_printable next bytes h.1

take-line :
    (n : ℕ) (line : List ℕ)
    → IsPrintable line
    → (take n (line ++ 10 ∷ []) ≡ line ++ 10 ∷ []) ⊎ IsPrintable (take n (line ++ 10 ∷ []))
take-line zero line h = inr tt
take-line (suc zero) [] h = inl refl
take-line (suc (suc n)) [] h = inl refl
take-line (suc n) (byte ∷ bytes) h = elim (take-line n bytes h.1) [
  | inl whole ↦ inl (ap (λ rest. byte ∷ rest) whole)
  | inr part ↦ inr (h.0, part)
]

-- A part of a line behind complete lines is the whole line, nothing, or seen at the tail.
pub torn-cases :
    (n : ℕ) (bytes line : List ℕ)
    → IsPrintable line
    → (take n (line ++ 10 ∷ []) ≡ line ++ 10 ∷ [])
      ⊎ (take n (line ++ 10 ∷ []) ≡ [])
      ⊎ (has_incomplete_tail (bytes ++ take n (line ++ 10 ∷ [])) ≡ true)
torn-cases n bytes line h = elim (take-line n line h) [
  | inl whole ↦ inl whole
  | inr part ↦ inr (split (take n (line ++ 10 ∷ [])) part)
]
  where
    split :
        (more : List ℕ)
        → IsPrintable more
        → (more ≡ []) ⊎ (has_incomplete_tail (bytes ++ more) ≡ true)
    split [] h = inl refl
    split (byte ∷ more) h = inr (tail-append bytes byte more ∙ tail_of_printable byte more h)
