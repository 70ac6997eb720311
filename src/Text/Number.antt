-- ===== src/Text/Number.antt =====
-- std::to_string of an integer, and std::stoi, std::stol and std::stoll.
pub mod RoundTrip
use cheferd.Prelude.{
  ℕ, zero, suc, ◌+◌, ◌-◌, ◌*◌, ◌/◌, ◌%◌, ◌^◌, ◌≡◌, refl, Bool, ◌&&◌, ◌||◌, Option, none, some, [],
  ◌∷◌, ltb, leb, ◌==◌, if◌then◌else◌, Result, ok, fail, invalid_argument, out_of_range,
}
use cheferd.Prelude.Int.{ℤ, pos, negsuc}
use cheferd.Text.{Bytes, codes}

abbrev pub is_digit : ℕ → Bool
is_digit c = leb b'0' c && leb c b'9'

-- isspace in the "C" locale
abbrev pub is_space : ℕ → Bool
is_space c = c == b' ' || (leb 9 c && leb c 13)

-- The digits of `n` in front of `out`; the fuel must be above `n`.
pub print_digits : ℕ → ℕ → Bytes → Bytes
print_digits zero n out = out
print_digits (suc fuel) n out =
    let rest = print_digits fuel (n / 10) ((b'0' + n % 10) ∷ out) in
    if ltb n 10 then (b'0' + n) ∷ out else rest

pub print_ℕ : ℕ → Bytes
unfolding print_digits
print_ℕ n = print_digits (suc n) n []

-- std::to_string
unfoldable pub to_string : ℤ → Bytes
unfolding print_ℕ
to_string (pos n) = print_ℕ n
to_string (negsuc n) = b'-' ∷ print_ℕ (suc n)

-- The number that the leading digits spell behind `n`.
pub scan_digits : Bytes → ℕ → ℕ
scan_digits [] n = n
scan_digits (c ∷ s) n = if is_digit c then scan_digits s (n * 10 + (c - b'0')) else n

pub skip_spaces : Bytes → Bytes
skip_spaces [] = []
skip_spaces (c ∷ s) = if is_space c then skip_spaces s else c ∷ s

-- At least one digit is wanted.
pub unsigned_value : Bytes → Option ℕ
unfolding scan_digits
unsigned_value [] = none
unsigned_value (c ∷ s) = if is_digit c then some (scan_digits (c ∷ s) 0) else none

abbrev pub negate : ℕ → ℤ
negate zero = pos 0
negate (suc n) = negsuc n

abbrev pub with_sign : (ℕ → ℤ) → Option ℕ → Option ℤ
with_sign f none = none
with_sign f (some n) = some (f n)

pub signed_value : Bytes → Option ℤ
unfolding unsigned_value
signed_value [] = none
signed_value (c ∷ s) =
    if c == b'-'
    then with_sign negate (unsigned_value s)
    else if c == b'+'
    then with_sign pos (unsigned_value s)
    else with_sign pos (unsigned_value (c ∷ s))

-- The value lies between -bound and bound - 1.
abbrev pub fits : ℕ → ℤ → Bool
fits bound (pos n) = ltb n bound
fits bound (negsuc n) = ltb n bound

abbrev pub checked : ℕ → Option ℤ → Result ℤ
checked bound none = fail invalid_argument
checked bound (some z) = if fits bound z then ok z else fail out_of_range

pub to_number : ℕ → Bytes → Result ℤ
unfolding signed_value skip_spaces
to_number bound s = checked bound (signed_value (skip_spaces s))

abbrev pub int_bound : ℕ
int_bound = 2 ^ 31

abbrev pub long_bound : ℕ
long_bound = 2 ^ 63

unfoldable pub stoi : Bytes → Result ℤ
unfolding to_number
stoi s = to_number int_bound s

unfoldable pub stol : Bytes → Result ℤ
unfolding to_number
stol s = to_number long_bound s

unfoldable pub stoll : Bytes → Result ℤ
unfolding to_number
stoll s = to_number long_bound s

to_string_minus : to_string (negsuc 1073741823) ≡ codes "-1073741824"
unfolding to_string
to_string_minus = refl

stoi_prefix : stoi (codes " -12x") ≡ ok (negsuc 11)
unfolding stoi
stoi_prefix = refl

stoi_range : stoi (codes "2147483648") ≡ fail out_of_range
unfolding stoi
stoi_range = refl

stoi_empty : stoi (codes "read") ≡ fail invalid_argument
unfolding stoi
stoi_empty = refl
