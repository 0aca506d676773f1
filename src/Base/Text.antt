-- ===== src/Base/Text.antt =====
-- Text as the C library reads it: its bytes before the terminating 0, `strncmp`, `strstr`, and the
-- conversions of `sscanf` that the program uses.
pub mod Digits
use Prim.Native.Nat.{ℕ, zero, suc, ◌+◌, ◌-◌, ◌*◌}
use Prim.Native.Char.{code}
use Prim.Native.String.{String}
use mathlib.Core.Bool.{Bool, true, false, ◌&&◌, ◌||◌}
use mathlib.Core.Option.{Option, none, some}
use mathlib.Core.List.{List, [], ◌∷◌, map}
use amdtop.Base.Tests.{ltb, leb, ◌==◌, if◌then◌else◌}
use amdtop.Base.Int.{ℤ, pos, negsuc}

abbrev pub Bytes : Type 0
Bytes = List ℕ

abbrev pub codes : String → Bytes
codes String.[] = []
codes (String.◌∷◌ c s) = code c ∷ codes s

module _ {ℓ} {A : Type ℓ} where
  abbrev pub take : ℕ → List A → List A
  take zero xs = []
  take (suc n) [] = []
  take (suc n) (x ∷ xs) = x ∷ take n xs

  abbrev pub drop : ℕ → List A → List A
  drop zero xs = xs
  drop (suc n) [] = []
  drop (suc n) (x ∷ xs) = drop n xs

-- `!strncmp(s, p, strlen(p))`
abbrev pub starts : (p s : Bytes) → Bool
starts [] s = true
starts (c ∷ p) [] = false
starts (c ∷ p) (d ∷ s) = (c == d) && starts p s

-- `strstr(s, p)`
unfoldable pub contains : (p s : Bytes) → Bool
contains p [] = starts p []
contains p (d ∷ s) = starts p (d ∷ s) || contains p s

unfoldable pub is_digit : ℕ → Bool
is_digit c = leb b'0' c && leb c b'9'

-- The blanks of `isspace`.
unfoldable pub is_space : ℕ → Bool
is_space c = (c == b' ') || (leb 9 c && leb c 13)

unfoldable pub skip_space : Bytes → Bytes
unfolding is_space
skip_space [] = []
skip_space (c ∷ s) = if is_space c then skip_space s else c ∷ s

-- Decimal digits behind a number that was read already, with the rest of the text.
unfoldable pub read_more : ℕ → Bytes → ℕ × Bytes
read_more n [] = (n, [])
read_more n (c ∷ s) = elim (is_digit c) [
  | true ↦ read_more (n * 10 + (c - b'0')) s
  | false ↦ (n, c ∷ s)
]

unfoldable pub read_digits : Bytes → Option (ℕ × Bytes)
unfolding is_digit read_more
read_digits [] = none
read_digits (c ∷ s) = if is_digit c then some (read_more 0 (c ∷ s)) else none

abbrev pub neg : ℕ → ℤ
neg zero = pos 0
neg (suc n) = negsuc n

abbrev pub signed : (ℕ → ℤ) → Option (ℕ × Bytes) → Option (ℤ × Bytes)
signed f none = none
signed f (some (n, s)) = some (f n, s)

unfoldable pub read_sign : Bytes → Option (ℤ × Bytes)
unfolding read_digits
read_sign [] = none
read_sign (c ∷ s) =
    if c == b'-'
    then signed neg (read_digits s)
    else (if c == b'+' then signed pos (read_digits s) else signed pos (read_digits (c ∷ s)))

-- `%d`, for a number that an `int` holds.
unfoldable pub read_int : Bytes → Option (ℤ × Bytes)
unfolding skip_space read_sign
read_int s = read_sign (skip_space s)

-- The value of a hexadecimal digit.
unfoldable pub hex_digit : ℕ → Option ℕ
unfolding is_digit
hex_digit c =
    if is_digit c
    then some (c - b'0')
    else (if leb b'a' c && leb c b'f'
        then some (c - b'a' + 10)
        else (if leb b'A' c && leb c b'F' then some (c - b'A' + 10) else none))

unfoldable pub read_hex_more : (width n : ℕ) → Bytes → ℕ × Bytes
unfolding hex_digit
read_hex_more zero n s = (n, s)
read_hex_more (suc k) n [] = (n, [])
read_hex_more (suc k) n (c ∷ s) = elim (hex_digit c) [
  | none ↦ (n, c ∷ s)
  | some d ↦ read_hex_more k (n * 16 + d) s
]

unfoldable pub first_hex : Bytes → Option (ℕ × Bytes)
unfolding hex_digit read_hex_more
first_hex [] = none
first_hex (c ∷ s) = elim (hex_digit c) as (λ o. Option (ℕ × Bytes)) [
  | none ↦ none
  | some d ↦ some (read_hex_more 7 d s)
]

-- `%08x`, for digits without a sign and a prefix.
unfoldable pub read_hex : Bytes → Option (ℕ × Bytes)
unfolding skip_space first_hex
read_hex s = first_hex (skip_space s)

-- The bytes before the first blank, with the rest.
unfoldable pub first_word : Bytes → Bytes × Bytes
unfolding is_space
first_word [] = ([], [])
first_word (c ∷ s) = elim (is_space c) [
  | true ↦ ([], c ∷ s)
  | false ↦ let (w, r) = first_word s in (c ∷ w, r)
]

abbrev some_word : Bytes × Bytes → Option (Bytes × Bytes)
some_word ([], s) = none
some_word ((c ∷ w), s) = some (c ∷ w, s)

-- `%s`
unfoldable pub read_word : Bytes → Option (Bytes × Bytes)
unfolding skip_space first_word
read_word s = some_word (first_word (skip_space s))

-- A byte or a blank of a format, `%d`, `%08x`, `%s` and `%*s`.
pub data Item : Type 0 where
  byte : ℕ → Item
  blank int hex text skip : Item

pub data Value : Type 0 where
  num : ℤ → Value
  str : Bytes → Value

abbrev pub lits : String → List Item
lits s = map byte (codes s)

-- The conversions that `sscanf(s, format, …)` makes: its result is how many they are.
unfoldable pub sscanf : List Item → Bytes → List Value
unfolding read_int skip_space read_hex read_word
sscanf [] s = []
sscanf (byte c ∷ f) [] = []
sscanf (byte c ∷ f) (d ∷ s) = if c == d then sscanf f s else []
sscanf (blank ∷ f) s = sscanf f (skip_space s)
sscanf (int ∷ f) s = elim (read_int s) [ none ↦ [] | some (n, r) ↦ num n ∷ sscanf f r ]
sscanf (hex ∷ f) s = elim (read_hex s) [ none ↦ [] | some (n, r) ↦ num (pos n) ∷ sscanf f r ]
sscanf (text ∷ f) s = elim (read_word s) [ none ↦ [] | some (w, r) ↦ str w ∷ sscanf f r ]
sscanf (skip ∷ f) s = elim (read_word s) [ none ↦ [] | some (w, r) ↦ sscanf f r ]
