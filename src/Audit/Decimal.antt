-- ===== src/Audit/Decimal.antt =====
-- The decimal text of a `u64` (the sequence number in the identifier that
-- `DurableAuditReceipt::try_new` of crates/kiteframe-provider/src/audit.rs formats).
use Prim.Native.Char.{code}
use Prim.Native.String.{◌++◌ as append}
use mathlib.Core.List.{append_cancel_left, tail-eq_of_cons-eq}
use kiteframe.Base.{
  chars-append, subst, ℕ, zero, suc, ◌+◌, ◌-◌, ◌*◌, ◌/◌, ◌%◌, ◌<◌, ◌≤◌, ◌≡◌, refl, sym, ap, ◌∙◌,
  String, Char, List, [], ◌∷◌, chars, chars-of_chars, All, ◌++◌, ltb, Bool-cases, inl, inr, arith,
  u64_max, true,
}
use kiteframe.Contract.Refs.{Sha256Digest}
use kiteframe.Feature.{digits_value}
use kiteframe.Audit.{digit, digits, decimal, hex, receipt_id}

abbrev power : ℕ → ℕ
power zero = 1
power (suc rounds) = 10 * power rounds

digit_value : (n : ℕ) → n < 10 → code (digit n) ≡ 48 + n
digit_value zero h = refl
digit_value (suc zero) h = refl
digit_value (suc (suc zero)) h = refl
digit_value (suc (suc (suc zero))) h = refl
digit_value (suc (suc (suc (suc zero)))) h = refl
digit_value (suc (suc (suc (suc (suc zero))))) h = refl
digit_value (suc (suc (suc (suc (suc (suc zero)))))) h = refl
digit_value (suc (suc (suc (suc (suc (suc (suc zero))))))) h = refl
digit_value (suc (suc (suc (suc (suc (suc (suc (suc zero)))))))) h = refl
digit_value (suc (suc (suc (suc (suc (suc (suc (suc (suc zero))))))))) h = refl
digit_value (suc (suc (suc (suc (suc (suc (suc (suc (suc (suc n)))))))))) h = absurd (omega arith)

one_digit : (n : ℕ) → ltb n 10 ≡ true → 0 + (code (digit (n % 10)) - 48) ≡ n
one_digit n h =
    let last = digit_value (n % 10) (omega arith) in
    let same : n % 10 ≡ n = ground arith in omega arith

last_digit : (n : ℕ) → 10 * (n / 10) + (code (digit (n % 10)) - 48) ≡ n
last_digit n = let last = digit_value (n % 10) (omega arith) in omega arith

-- Behind digits that are written already, the digits of a number are read as the number.
digits-value :
    (rounds n : ℕ) (acc : List Char)
    → n < power (suc rounds)
    → digits_value 0 (digits (suc rounds) n acc) ≡ digits_value n acc
unfolding digits_value
digits-value zero n acc h =
    let small : ltb n 10 ≡ true = ground arith in
    rw (small) (ap (λ m. digits_value m acc) (one_digit n small))
digits-value (suc rounds) n acc h =
    let shorter = digits-value rounds (n / 10) (digit (n % 10) ∷ acc) (omega arith) in
    elim (Bool-cases (ltb n 10)) [
      | inl small ↦ rw (small) (ap (λ m. digits_value m acc) (one_digit n small))
      | inr large ↦ rw (large) (shorter ∙ ap (λ m. digits_value m acc) (last_digit n))
    ]

-- The decimal text of every `u64` is written to its end in twenty rounds: read as decimal digits it
-- is the number.
decimal-value : (n : ℕ) → n ≤ u64_max → digits_value 0 (chars (decimal n)) ≡ n
unfolding decimal digits_value
decimal-value n h =
    ap (digits_value 0) (chars-of_chars (digits 20 n [])) ∙ digits-value 19 n [] (omega arith)

digits-code :
    (rounds n : ℕ) (acc : List Char)
    → All (λ c. 48 ≤ code c) acc
    → All (λ c. 48 ≤ code c) (digits rounds n acc)
digits-code zero n acc h = h
digits-code (suc rounds) n acc h =
    let last = digit_value (n % 10) (omega arith) in
    let here : All (λ c. 48 ≤ code c) (digit (n % 10) ∷ acc) = (omega arith, h) in
    let more = digits-code rounds (n / 10) (digit (n % 10) ∷ acc) here in
    elim (Bool-cases (ltb n 10)) [ inl small ↦ rw (small) here | inr large ↦ rw (large) more ]

-- What stands before the first slash.
before_slash :
    (xs ys a b : List Char)
    → All (λ c. 48 ≤ code c) xs
    → All (λ c. 48 ≤ code c) ys
    → xs ++ "/" ∷ a ≡ ys ++ "/" ∷ b
    → xs ≡ ys
before_slash [] [] a b h k e = refl
before_slash [] (y ∷ ys) a b h k e =
    let first : ◌≡◌ {A = Char} "/" y = cc in let number = ap code first in absurd (omega arith)
before_slash (x ∷ xs) [] a b h k e =
    let first : ◌≡◌ {A = Char} x "/" = cc in let number = ap code first in absurd (omega arith)
before_slash (x ∷ xs) (y ∷ ys) a b h k e =
    let first : x ≡ y = cc in let rest = before_slash xs ys a b h.1 k.1 (cc) in cc

-- The characters of a text behind a slash.
chars-append_slash : (t : String) → chars (append "/" t) ≡ "/" ∷ chars t
chars-append_slash t = chars-append "/" t

chars-receipt_id :
    (partition : String) (n : ℕ) (h : Sha256Digest)
    → chars (receipt_id partition n h)
      ≡ chars "audit://"
        ++ (chars partition ++ ("/" ∷ (chars (decimal n) ++ ("/" ∷ chars (hex h)))))
unfolding receipt_id
chars-receipt_id partition n h =
    let behind = append (decimal n) (append "/" (hex h)) in
    chars-append "audit://" (append partition (append "/" behind))
    ∙ ap (λ rest. chars "audit://" ++ rest)
        (chars-append partition (append "/" behind)
          ∙ ap (λ rest. chars partition ++ rest)
              (chars-append_slash behind
                ∙ ap (λ rest. "/" ∷ rest)
                    (chars-append (decimal n) (append "/" (hex h))
                      ∙ ap (λ rest. chars (decimal n) ++ rest) (chars-append_slash (hex h)))))

decimal-code : (n : ℕ) → All (λ c. 48 ≤ code c) (chars (decimal n))
unfolding decimal
decimal-code n =
    subst (λ cs. All (λ c. 48 ≤ code c) cs) (sym (chars-of_chars (digits 20 n [])))
      (digits-code 20 n [] tt)

receipt_id-sequence :
    (partition : String) (s t : ℕ) (h k : Sha256Digest)
    → s ≤ u64_max
    → t ≤ u64_max
    → receipt_id partition s h ≡ receipt_id partition t k
    → s ≡ t
receipt_id-sequence partition s t h k hs ht e =
    let whole =
      sym (chars-receipt_id partition s h) ∙ ap chars e ∙ chars-receipt_id partition t k in
    let behind =
      append_cancel_left (chars partition) _ _ (append_cancel_left (chars "audit://") _ _ whole) in
    let same =
      before_slash (chars (decimal s)) (chars (decimal t)) (chars (hex h)) (chars (hex k))
        (decimal-code s) (decimal-code t) (tail-eq_of_cons-eq behind) in
    sym (decimal-value s hs) ∙ ap (digits_value 0) same ∙ decimal-value t ht

-- Receipts of one partition with different sequence numbers, both `u64`, have different identifiers,
-- whatever their hashes are.
pub receipt_id-differs :
    (partition : String) (s t : ℕ) (h k : Sha256Digest)
    → s ≤ u64_max
    → t ≤ u64_max
    → ¬ (s ≡ t)
    → ¬ (receipt_id partition s h ≡ receipt_id partition t k)
receipt_id-differs partition s t h k hs ht n e = n (receipt_id-sequence partition s t h k hs ht e)
