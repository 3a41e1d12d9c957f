-- ===== src/Base/Texts.antt =====
-- A `String` is the list of its characters' code points; the numbers printed are below 2 ^ 32.
use Prim.Native.Nat.{ℕ, zero, suc, ◌+◌, ◌/◌, ◌%◌}
use Prim.Native.Char.{code}
use Prim.Native.String.{String}
use mathlib.Core.Path.{◌≡◌, refl}
use mathlib.Core.Logic.{◌↔◌}
use mathlib.Core.Bool.{Bool, true, false, ◌&&◌}
use mathlib.Core.List.{List, [], ◌∷◌, ◌++◌}
use mathlib.Core.Option.{Option, none, some}
use native.Mathlib.Omega.{arith}
use paperlog.Base.Tests.{ltb, ◌==◌, if◌then◌else◌}

abbrev pub Text : Type 0
Text = List ℕ

-- The text of a literal.
abbrev pub codes : String → Text
codes String.[] = []
codes (String.◌∷◌ c s) = code c ∷ codes s

abbrev pub newline : ℕ
newline = 10

unfoldable pub text_eq : Text → Text → Bool
text_eq [] [] = true
text_eq (a ∷ s) (b ∷ t) = a == b && text_eq s t
text_eq _ _ = false

pub text_eq_iff : (s t : Text) → (text_eq s t ≡ true) ↔ (s ≡ t)
unfolding text_eq
text_eq_iff [] [] = (λ _. refl, λ _. refl)
text_eq_iff [] (b ∷ t) = (λ h. cc, λ h. cc)
text_eq_iff (a ∷ s) [] = (λ h. cc, λ h. cc)
text_eq_iff (a ∷ s) (b ∷ t) = ground (arith, text_eq_iff s t)

-- How often a character occurs.
abbrev pub count : ℕ → Text → ℕ
count c [] = 0
count c (x ∷ s) = (if x == c then 1 else 0) + count c s

pub count-append : (c : ℕ) (s t : Text) → count c (s ++ t) ≡ count c s + count c t
count-append c [] t = omega arith
count-append c (x ∷ s) t = omega (arith, count-append c s t)

-- `as_deref().unwrap_or(default)`
abbrev pub unwrap_or {ℓ} : {A : Type ℓ} → Option A → A → A
unwrap_or none d = d
unwrap_or (some a) d = a

-- Decimal digits, last one first into `rest`. A number below 10 ^ fuel is printed whole.
show_digits : ℕ → ℕ → Text → Text
show_digits zero n rest = rest
show_digits (suc fuel) n rest =
    let more = show_digits fuel (n / 10) ((48 + n % 10) ∷ rest) in
    if ltb n 10 then (48 + n) ∷ rest else more

-- `Display` of a u32, which has at most ten digits.
unfoldable pub show_u32 : ℕ → Text
unfolding show_digits
show_u32 n = show_digits 10 n []

count-show_digits : (fuel n : ℕ) (rest : Text) → count 10 (show_digits fuel n rest) ≡ count 10 rest
unfolding show_digits
count-show_digits zero n rest = refl
count-show_digits (suc fuel) n rest =
    ground (arith, count-show_digits fuel (n / 10) ((48 + n % 10) ∷ rest))

-- A printed number has no line break in it.
pub count-show_u32 : (n : ℕ) → count 10 (show_u32 n) ≡ 0
unfolding show_u32
count-show_u32 n = count-show_digits 10 n []

show_u32_runs : show_u32 4294967295 ≡ codes "4294967295"
unfolding show_u32
show_u32_runs = refl
