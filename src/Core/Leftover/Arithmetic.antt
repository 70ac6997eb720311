-- ===== src/Core/Leftover/Arithmetic.antt =====
-- The floating point of the leftover policy (src/controller/core_control_application.cpp): the
-- operations on `float` and `double` that its code uses, and the conversions to and from integers.
use cheferd.Prelude.{ℕ, ◌+◌, ◌-◌, ◌%◌, ◌^◌, ◌≡◌, Bool, true, ltb, if◌then◌else◌}
use cheferd.Prelude.Int.{ℤ, pos, sub_ℕ, ◌≤ℤ◌}
use cheferd.Rules.Raw.{wrap, u64_mod}

-- F is `float` and D is `double`; `hundredths n` is the literal of n / 100. A conversion to `long`
-- rounds towards zero.
pub record Floats (F D : Type 0) : Type 0 where
  pub float_of : ℤ → F
  pub double_of : ℤ → D
  pub long_of : F → ℤ
  pub long_of_double : D → ℤ
  pub widen : F → D
  pub narrow : D → F
  pub hundredths : ℕ → D
  pub plus : D → D → D
  pub times : D → D → D
  pub below : D → D → Bool
  pub at_most : D → D → Bool
  pub same_double : D → D → Bool
  pub float_plus : F → F → F
  pub float_times : F → F → F
  pub float_over : F → F → F
  pub float_below : F → F → Bool
  pub floor : F → F

-- A conversion to an integer keeps the order, and an integer whose `float` is below another `float`
-- is itself at most that one, since a `float` is rounded to itself.
pub record IsRounded {F D : Type 0} (floats : Floats F D) : Type 0 where
  pub long_of-mono :
      (f g : F) → floats.float_below f g ≡ true → floats.long_of f ≤ℤ floats.long_of g
  pub below-long_of :
      (z : ℤ) (g : F) → floats.float_below (floats.float_of z) g ≡ true → z ≤ℤ floats.long_of g

-- `unsigned long` of a `long`, and back.
unfoldable pub to_ulong : ℤ → ℕ
to_ulong z = wrap u64_mod z

unfoldable pub to_long : ℕ → ℤ
to_long n = if ltb n (2 ^ 63) then pos n else sub_ℕ n u64_mod

-- Sum and difference of two values of `unsigned long`.
unfoldable pub add_ulong : ℕ → ℕ → ℕ
add_ulong a b = (a + b) % u64_mod

unfoldable pub sub_ulong : ℕ → ℕ → ℕ
sub_ulong a b = (a + (u64_mod - b)) % u64_mod
