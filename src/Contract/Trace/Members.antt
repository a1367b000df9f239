-- ===== src/Contract/Trace/Members.antt =====
-- The members of a trace state: `valid_tracestate` of crates/kiteframe-contract/src/service.rs.
use kiteframe.Base.{
  not-eq_true, ==_of_eq, ℕ, ◌+◌, ◌≤◌, ◌≡◌, ◌≢◌, refl, sym, ◌∙◌, Bool, true, false, not, ◌||◌, ◌&&◌,
  String, Char, List, [], ◌∷◌, Option, some, none, map, chars, utf8, length, any, all, is_empty,
  All, Pairwise, leb, ◌==◌, chars_eq, and-eq_true, arith, codes, ltb,
}
use kiteframe.Contract.Trace.{split_parts, member_key, valid_members, valid_tracestate}

-- The keys of the members: each member has one, no two are the same, and none was seen before.
abbrev pub IsKeys : List (List Char) → List (List Char) → List (List Char) → Type 0
IsKeys parts seen keys =
    (map member_key parts ≡ map some keys)
    × Pairwise (λ a b. a ≢ b) keys
    × All (λ key. any (λ k. k == key) seen ≡ false) keys

or-eq_false : (a b : Bool) → (a || b) ≡ false → (a ≡ false) × (b ≡ false)
or-eq_false a b h = ground arith

true≢false : true ≡ false → ⊥
true≢false h = cc

apart :
    (key other : List Char) (seen : List (List Char))
    → any (λ k. k == other) (key ∷ seen) ≡ false
    → (key ≢ other) × (any (λ k. k == other) seen ≡ false)
apart key other seen h =
    let (different, unseen) = or-eq_false (key == other) (any (λ k. k == other) seen) h in
    ((λ e. absurd (true≢false (sym (==_of_eq e) ∙ different))), unseen)

apart_from :
    (key : List Char) (seen keys : List (List Char))
    → All (λ other. any (λ k. k == other) (key ∷ seen) ≡ false) keys
    → All (λ other. key ≢ other) keys × All (λ other. any (λ k. k == other) seen ≡ false) keys
apart_from key seen [] h = (tt, tt)
apart_from key seen (other ∷ keys) h =
    let (here, new) = apart key other seen h.0 in
    let (rest, rest_new) = apart_from key seen keys h.1 in ((here, rest), (new, rest_new))

-- The tests of one step of the loop, and the keys behind it.
with_member :
    (part : List Char) (parts seen : List (List Char)) (member_count : ℕ)
    (found : Option (List Char))
    → member_key part ≡ found
    → (elim found [
      | none ↦ false
      | some key ↦
          leb (member_count + 1) 32
          && not (any (λ k. k == key) seen)
          && valid_members parts (key ∷ seen) (member_count + 1)
    ])
      ≡ true
    → ((key : List Char)
        → member_count + 1 ≤ 32
        → valid_members parts (key ∷ seen) (member_count + 1) ≡ true
        → (keys : List (List Char)) × IsKeys parts (key ∷ seen) keys
          × (length parts + (member_count + 1) ≤ 32))
    → (keys : List (List Char)) × IsKeys (part ∷ parts) seen keys
      × (length (part ∷ parts) + member_count ≤ 32)
with_member part parts seen member_count none e h rest = cc
with_member part parts seen member_count (some key) e h rest =
    let (tests, valid) = and-eq_true {b = valid_members parts (key ∷ seen) (member_count + 1)} h in
    let (few, new) = and-eq_true {a = leb (member_count + 1) 32} tests in
    let (keys, (found, apart_keys, unseen), bound) = rest key (ground arith) valid in
    let (others, unseen_before) = apart_from key seen keys unseen in
    (key ∷ keys, (cc, (others, apart_keys), (not-eq_true _ new, unseen_before)), omega arith)

valid_members-IsKeys :
    (parts seen : List (List Char)) (member_count : ℕ)
    → member_count ≤ 32
    → valid_members parts seen member_count ≡ true
    → (keys : List (List Char)) × IsKeys parts seen keys × (length parts + member_count ≤ 32)
unfolding valid_members
valid_members-IsKeys [] seen member_count b h = ([], (refl, tt, tt), omega arith)
valid_members-IsKeys (part ∷ parts) seen member_count b h =
    with_member part parts seen member_count (member_key part) refl h
      (λ key. valid_members-IsKeys parts (key ∷ seen) (member_count + 1))

-- An accepted trace state has at most 512 bytes and at most 32 members; each member has a key
-- by `member_key`, which tests the member, and no two members have the same key.
pub valid_tracestate-keys :
    (value : String)
    → valid_tracestate value ≡ true
    → (length (utf8 value) ≤ 512)
      × (length (split_parts "," (chars value)) ≤ 32)
      × ((keys : List (List Char)) × (map member_key (split_parts "," (chars value))
            ≡ map some keys)
          × Pairwise (λ a b. a ≢ b) keys)
unfolding valid_tracestate
valid_tracestate-keys value h =
    let (tests, valid) = and-eq_true {b = valid_members (split_parts "," (chars value)) [] 0} h in
    let (sized, ascii) = and-eq_true {b = all (λ c. ltb c 128) (codes value)} tests in
    let (some_text, short) = and-eq_true {a = not (is_empty (chars value))} sized in
    let (keys, (found, apart_keys, unseen), bound) =
      valid_members-IsKeys (split_parts "," (chars value)) [] 0 (omega arith) valid in
    (ground arith, omega arith, (keys, found, apart_keys))
