-- ===== src/Authority/Selector/Order.antt =====
-- The segments of resource selectors (crates/kiteframe-provider/src/resource.rs): the test of a
-- subset against the loop of the intersection.
use mathlib.Core.Option
use mathlib.Core.Option.{none-ne-some}
use mathlib.Core.Bool.{and_self, and_comm, or_comm}
use kiteframe.Base.{
  Bool, true, false, ◌&&◌, ◌||◌, Option, none, some, List, [], ◌∷◌, Char, All, length, ◌==◌,
  char_eq, chars_eq, nat_eq, if◌then◌else◌, ◌≡◌, ◌∙◌, sym, subst, refl, Bool-cases, inl, inr, arith,
  ◌⊎◌, ==_of_eq, eq_of_==, some_injective,
}
use kiteframe.Authority.Selector.{star, all_covered, meet_segment, push_segment, intersect_segments}

-- ------------------------------------------------------------------ segments

-- `candidate == allowed || allowed == "*"`
abbrev covered : List Char → List Char → Bool
covered c a = c == a || a == star

-- Where two segments agree, and on what.
meet_some-cases :
    (l r : List Char) {s : List Char}
    → meet_segment l r ≡ some s
    → (r ≡ s) × (l ≡ s) ⊎ (l ≡ star) × (r ≡ s) ⊎ (r ≡ star) × (l ≡ s)
unfolding meet_segment
meet_some-cases l r e = ground arith

none_chosen :
    (a b c : Bool) (l r : List Char)
    → (if a then some l else if b then some r else if c then some l else none) ≡ none
    → (a ≡ false) × (b ≡ false) × (c ≡ false)
none_chosen a b c l r e = ground arith

meet_none-cases :
    (l r : List Char)
    → meet_segment l r ≡ none
    → ((l == r) ≡ false) × ((l == star) ≡ false) × ((r == star) ≡ false)
unfolding meet_segment
meet_none-cases l r e = none_chosen (l == r) (l == star) (r == star) l r e

-- Everything is covered by the wildcard.
covered-star : (c : List Char) → covered c star ≡ true
covered-star c = rw (==_of_eq {a = star} refl) (or_comm (c == star) true)

meet_some :
    (c l r : List Char) {s : List Char}
    → meet_segment l r ≡ some s
    → covered c s ≡ (covered c l && covered c r)
meet_some c l r {s} e = elim (meet_some-cases l r e) [
  | inl p ↦ rw (p.0, p.1) (sym (and_self (covered c s)))
  | inr (inl p) ↦ rw (p.0, p.1, covered-star c) refl
  | inr (inr p) ↦ rw (p.0, p.1, covered-star c) (and_comm true (covered c s))
]

meet_none : (c l r : List Char) → meet_segment l r ≡ none → (covered c l && covered c r) ≡ false
meet_none c l r e =
    let h = meet_none-cases l r e in
    elim (Bool-cases (c == l)) [
      | inr n ↦ rw (n, h.1) refl
      | inl y ↦ rw (y, h.2, eq_of_== {a = c} {b = l} y, h.0) refl
    ]

pub covered_trans :
    (a b c : List Char) → covered a b ≡ true → covered b c ≡ true → covered a c ≡ true
covered_trans a b c h k = ground arith

-- ------------------------------------------------------------------ lists of segments

-- An agreement on a head and on the rest.
record Agreed (l r : List Char) (ls rs s : List (List Char)) : Type 0 where
  head : List Char
  tail : List (List Char)
  head_agrees : meet_segment l r ≡ some head
  tail_agrees : intersect_segments ls rs ≡ some tail
  whole : s ≡ head ∷ tail

intersect-cons :
    (l r : List Char) (ls rs : List (List Char)) {s : List (List Char)}
    → intersect_segments (l ∷ ls) (r ∷ rs) ≡ some s
    → Agreed l r ls rs s
unfolding intersect_segments push_segment Option.map
intersect-cons l r ls rs {s} e = go (meet_segment l r) (intersect_segments ls rs) refl refl e
  where
    go :
        (m : Option (List Char)) (t : Option (List (List Char)))
        → meet_segment l r ≡ m
        → intersect_segments ls rs ≡ t
        → push_segment m t ≡ some s
        → Agreed l r ls rs s
    go none t em et h = absurd (none-ne-some _ h)
    go (some m) none em et h = absurd (none-ne-some _ h)
    go (some m) (some t) em et h = record {
      head = m;
      tail = t;
      head_agrees = em;
      tail_agrees = et;
      whole = sym (some_injective h);
    }

module _ (P : List Char → Type 0) where
  pub intersect-All :
      (l r s : List (List Char)) → intersect_segments l r ≡ some s → All P l → All P r → All P s
  unfolding intersect_segments
  intersect-All [] r s e hl hr = subst (All P) (some_injective e) tt
  intersect-All (l ∷ ls) [] s e hl hr = subst (All P) (some_injective e) tt
  intersect-All (l ∷ ls) (r ∷ rs) s e hl hr =
      let parts = intersect-cons l r ls rs e in
      subst (All P) (sym parts.whole) (
        one (meet_some-cases l r parts.head_agrees),
        intersect-All ls rs parts.tail parts.tail_agrees hl.1 hr.1,
      )
    where
      one : {m : List Char} → (r ≡ m) × (l ≡ m) ⊎ (l ≡ star) × (r ≡ m) ⊎ (r ≡ star) × (l ≡ m) → P m
      one (inl p) = subst P p.0 hr.0
      one (inr (inl p)) = subst P p.1 hr.0
      one (inr (inr p)) = subst P p.1 hl.0

-- What the candidate's segments are worth against the outcome of an intersection.
abbrev pub covered_by : List (List Char) → Option (List (List Char)) → Bool
covered_by c none = false
covered_by c (some s) = all_covered c s

and_swap : (a b x y : Bool) → ((a && b) && (x && y)) ≡ ((a && x) && (b && y))
and_swap a b x y = ground arith

covered_by-push :
    (c l r : List Char) (cs : List (List Char)) (m : Option (List Char))
    (o : Option (List (List Char)))
    → meet_segment l r ≡ m
    → covered_by (c ∷ cs) (push_segment m o) ≡ ((covered c l && covered c r) && covered_by cs o)
unfolding all_covered push_segment Option.map
covered_by-push c l r cs none o e = rw (meet_none c l r e) refl
covered_by-push c l r cs (some s) none e = and_comm false (covered c l && covered c r)
covered_by-push c l r cs (some s) (some t) e = rw (meet_some c l r e) refl

pub all_covered-intersect :
    (c l r : List (List Char))
    → length c ≡ length l
    → length l ≡ length r
    → covered_by c (intersect_segments l r) ≡ (all_covered c l && all_covered c r)
unfolding intersect_segments all_covered
all_covered-intersect [] [] [] h k = refl
all_covered-intersect [] [] (r ∷ rs) h k = absurd (omega arith)
all_covered-intersect [] (l ∷ ls) rs h k = absurd (omega arith)
all_covered-intersect (c ∷ cs) [] rs h k = absurd (omega arith)
all_covered-intersect (c ∷ cs) (l ∷ ls) [] h k = absurd (omega arith)
all_covered-intersect (c ∷ cs) (l ∷ ls) (r ∷ rs) h k =
    covered_by-push c l r cs (meet_segment l r) (intersect_segments ls rs) refl
    ∙ rw (all_covered-intersect cs ls rs (omega arith) (omega arith)) refl
    ∙ and_swap (covered c l) (covered c r) (all_covered cs ls) (all_covered cs rs)

pub length-intersect :
    (l r s : List (List Char))
    → intersect_segments l r ≡ some s
    → length l ≡ length r
    → length s ≡ length l
unfolding intersect_segments
length-intersect [] rs s e k = rw (sym (some_injective e)) refl
length-intersect (l ∷ ls) [] s e k = absurd (omega arith)
length-intersect (l ∷ ls) (r ∷ rs) s e k =
    let parts = intersect-cons l r ls rs e in
    rw (parts.whole, length-intersect ls rs parts.tail parts.tail_agrees (omega arith)) refl
