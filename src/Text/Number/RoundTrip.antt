-- ===== src/Text/Number/RoundTrip.antt =====
-- A number is read back from its print, which is a word without delimiters.
use mathlib.Core.List.{cons-ne-nil}
use cheferd.Prelude.{
  Bool-cases, inl, inr, false, ℕ, zero, suc, ◌+◌, ◌/◌, ◌%◌, ◌≤◌, ◌<◌, ◌≡◌, ◌≢◌, refl, sym, ap, ◌∙◌,
  true, [], ◌∷◌, some, ok, arith, ltb, All,
}
use cheferd.Prelude.Int.{ℤ, pos, negsuc}
use cheferd.Text.{Bytes, Lacks}
use cheferd.Text.Number.{
  is_digit, print_digits, print_ℕ, to_string, scan_digits, skip_spaces, unsigned_value, negate,
  with_sign, signed_value, fits, checked, to_number, int_bound, long_bound, stoi, stol, stoll,
}

abbrev pub IsDigit : ℕ → Type 0
IsDigit c = (b'0' ≤ c) × (c ≤ b'9')

scan_last : (n : ℕ) (out : Bytes) → scan_digits ((b'0' + n % 10) ∷ out) (n / 10) ≡ scan_digits out n
unfolding scan_digits
scan_last n out = ground arith

scan_digits-print_digits :
    (fuel n : ℕ) (out : Bytes)
    → n < fuel
    → scan_digits (print_digits fuel n out) 0 ≡ scan_digits out n
unfolding print_digits
scan_digits-print_digits zero n out h = elim h [ ]
scan_digits-print_digits (suc f) n out h = elim (Bool-cases (ltb n 10)) [
  | inl e ↦ rw e (unfold scan_digits in ground arith)
  | inr e ↦
      rw e (
        scan_digits-print_digits f (n / 10) ((b'0' + n % 10) ∷ out) (ground arith)
        ∙ scan_last n out)
]

print_digits-digits :
    (fuel n : ℕ) (out : Bytes) → All IsDigit out → All IsDigit (print_digits fuel n out)
unfolding print_digits
print_digits-digits zero n out h = h
print_digits-digits (suc f) n out h = elim (Bool-cases (ltb n 10)) [
  | inl e ↦ rw e (ground arith)
  | inr e ↦ rw e (print_digits-digits f (n / 10) ((b'0' + n % 10) ∷ out) (ground arith))
]

print_digits-ne-nil : (fuel n : ℕ) (x : ℕ) (out : Bytes) → print_digits fuel n (x ∷ out) ≢ []
unfolding print_digits
print_digits-ne-nil zero n x out = cons-ne-nil x out
print_digits-ne-nil (suc f) n x out = elim (Bool-cases (ltb n 10)) [
  | inl e ↦ rw e (cons-ne-nil _ _)
  | inr e ↦ rw e (print_digits-ne-nil f (n / 10) (b'0' + n % 10) (x ∷ out))
]

print_ℕ-ne-nil : (n : ℕ) → print_ℕ n ≢ []
unfolding print_ℕ
print_ℕ-ne-nil n = elim (Bool-cases (ltb n 10)) [
  | inl e ↦ rw e (cons-ne-nil _ _)
  | inr e ↦ rw e (print_digits-ne-nil n (n / 10) (b'0' + n % 10) [])
]

print_ℕ-digits : (n : ℕ) → All IsDigit (print_ℕ n)
unfolding print_ℕ
print_ℕ-digits n = print_digits-digits (suc n) n [] tt

scan_digits-print_ℕ : (n : ℕ) → scan_digits (print_ℕ n) 0 ≡ n
unfolding print_ℕ
scan_digits-print_ℕ n =
    scan_digits-print_digits (suc n) n [] (omega arith) ∙ unfold scan_digits in refl

-- Text that begins with a digit is read as it stands.
unsigned_value-digits :
    (s : Bytes) → s ≢ [] → All IsDigit s → unsigned_value s ≡ some (scan_digits s 0)
unfolding unsigned_value
unsigned_value-digits [] h d = absurd (h refl)
unsigned_value-digits (c ∷ s) h (d, ds) = ground arith

signed_value-digits :
    (s : Bytes)
    → s ≢ []
    → All IsDigit s
    → signed_value (skip_spaces s) ≡ with_sign pos (unsigned_value s)
unfolding signed_value skip_spaces
signed_value-digits [] h d = absurd (h refl)
signed_value-digits (c ∷ s) h (d, ds) = ground arith

unsigned_value-print_ℕ : (n : ℕ) → unsigned_value (print_ℕ n) ≡ some n
unsigned_value-print_ℕ n =
    unsigned_value-digits (print_ℕ n) (print_ℕ-ne-nil n) (print_ℕ-digits n)
    ∙ ap some (scan_digits-print_ℕ n)

signed_value-minus :
    (s : Bytes) → signed_value (skip_spaces (b'-' ∷ s)) ≡ with_sign negate (unsigned_value s)
unfolding signed_value skip_spaces
signed_value-minus s = refl

signed_value-to_string : (z : ℤ) → signed_value (skip_spaces (to_string z)) ≡ some z
unfolding to_string
signed_value-to_string (pos n) =
    signed_value-digits (print_ℕ n) (print_ℕ-ne-nil n) (print_ℕ-digits n)
    ∙ ap (with_sign pos) (unsigned_value-print_ℕ n)
signed_value-to_string (negsuc n) =
    signed_value-minus (print_ℕ (suc n)) ∙ ap (with_sign negate) (unsigned_value-print_ℕ (suc n))

to_number-to_string :
    (bound : ℕ) (z : ℤ) → fits bound z ≡ true → to_number bound (to_string z) ≡ ok z
unfolding to_number
to_number-to_string bound z h = rw (signed_value-to_string z, checked, h) refl

-- An `int` is read back from its print.
pub stoi-to_string : (z : ℤ) → fits int_bound z ≡ true → stoi (to_string z) ≡ ok z
unfolding stoi
stoi-to_string z h = to_number-to_string int_bound z h

-- So is a `long`.
pub stol-to_string : (z : ℤ) → fits long_bound z ≡ true → stol (to_string z) ≡ ok z
unfolding stol
stol-to_string z h = to_number-to_string long_bound z h

pub stoll-to_string : (z : ℤ) → fits long_bound z ≡ true → stoll (to_string z) ≡ ok z
unfolding stoll
stoll-to_string z h = to_number-to_string long_bound z h

digits-Lacks : (c : ℕ) (s : Bytes) → is_digit c ≡ false → All IsDigit s → Lacks c s
digits-Lacks c [] h d = tt
digits-Lacks c (x ∷ s) h (d, ds) = ((λ e. ground arith), digits-Lacks c s h ds)

-- A print is a word for every delimiter that is neither a digit nor the minus sign.
pub to_string-Lacks : (z : ℤ) (c : ℕ) → is_digit c ≡ false → c ≢ b'-' → Lacks c (to_string z)
unfolding to_string
to_string-Lacks (pos n) c h k = digits-Lacks c (print_ℕ n) h (print_ℕ-digits n)
to_string-Lacks (negsuc n) c h k =
    ((λ e. k (sym e)), digits-Lacks c (print_ℕ (suc n)) h (print_ℕ-digits (suc n)))

pub to_string-ne-nil : (z : ℤ) → to_string z ≢ []
unfolding to_string
to_string-ne-nil (pos n) = print_ℕ-ne-nil n
to_string-ne-nil (negsuc n) = cons-ne-nil _ _
