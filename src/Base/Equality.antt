-- ===== src/Base/Equality.antt =====
-- Decidable equality as an instance: one `==` for every type of the program, as derived by
-- `PartialEq` and `Eq`.
use Prim.Native.Nat.{ℕ}
use Prim.Native.Char.{Char, code}
use Prim.Native.String.{String}
use mathlib.Core.Path.{◌≡◌, refl, ap}
use mathlib.Core.Logic.{◌↔◌}
use mathlib.Core.Bool.{Bool, true, false}
use mathlib.Core.List.{List}
use native.Mathlib.Omega.{arith}
use native.Mathlib.Decide.{ℕ_discrete as ℕ_dec}
use text.Mathlib.Text.{◌==◌ as str_eq}
use text.Mathlib.TextEquality.{eq_iff, Char-path}
unfoldable pub use native.Mathlib.Decide.{ℕ_discrete}

pub record Eq {ℓ} (A : Type ℓ) : Type ℓ where
  pub dec : Discrete A

infix 50 ◌==◌
abbrev pub ◌==◌ {ℓ} : {A : Type ℓ} ⦃e : Eq A⦄ → A → A → Bool
◌==◌ ⦃e⦄ a b = elim (e.dec a b) [ yes _ ↦ true | no _ ↦ false ]

unfoldable pub dec_of_test {ℓ} :
    {A : Type ℓ} {a b : A} (t : Bool) → ((t ≡ true) ↔ (a ≡ b)) → Dec (a ≡ b)
dec_of_test true h = yes (h.0 refl)
dec_of_test false h = no (λ e. cc (h.1 e))

-- Texts are compared natively.
unfoldable pub String-discrete : Discrete String
unfolding dec_of_test
String-discrete a b = dec_of_test (str_eq a b) (eq_iff a b)

-- Characters are compared by their numbers.
unfoldable pub Char-discrete : Discrete Char
unfolding ℕ_dec
Char-discrete c d = elim (ℕ_dec (code c) (code d)) [
  | yes e ↦ yes (Char-path c d e)
  | no n ↦ no (λ e. n (ap code e))
]

unfoldable pub Chars-discrete : Discrete (List Char)
Chars-discrete = hlevel Char-discrete

unfoldable pub Strings-discrete : Discrete (List String)
Strings-discrete = hlevel String-discrete

unfoldable pub Bytes-discrete : Discrete (List ℕ)
Bytes-discrete = hlevel ℕ_dec

instance abbrev pub nat_eq : Eq ℕ
nat_eq = record { dec = ℕ_dec }

instance abbrev pub string_eq : Eq String
string_eq = record { dec = String-discrete }

instance abbrev pub char_eq : Eq Char
char_eq = record { dec = Char-discrete }

instance abbrev pub chars_eq : Eq (List Char)
chars_eq = record { dec = Chars-discrete }

instance abbrev pub strings_eq : Eq (List String)
strings_eq = record { dec = Strings-discrete }

instance abbrev pub bytes_eq : Eq (List ℕ)
bytes_eq = record { dec = Bytes-discrete }

pub ==_of_eq {ℓ} : {A : Type ℓ} ⦃e : Eq A⦄ {a b : A} → a ≡ b → (a == b) ≡ true
==_of_eq h = ground arith

pub eq_of_== {ℓ} : {A : Type ℓ} ⦃e : Eq A⦄ {a b : A} → (a == b) ≡ true → a ≡ b
eq_of_== h = ground arith
