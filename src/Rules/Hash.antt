-- ===== src/Rules/Hash.antt =====
-- `hash` and `operator""_` of src/utils/rules_file_parser.cpp: what every `switch` over a string
-- compares.
use Prim.Native.Nat.{bit_xor}
use Prim.Native.String.{String}
use cheferd.Prelude.{ℕ, ◌+◌, ◌-◌, ◌*◌, ◌%◌, ◌^◌, ltb, ◌==◌, if◌then◌else◌, List, [], ◌∷◌, ◌≡◌, refl}
use cheferd.Text.{Bytes, codes}

abbrev salt : ℕ
salt = 10242048

-- A `char` is signed, and extends to 32 bits before the exclusive or.
abbrev widen : ℕ → ℕ
widen c = if ltb c 128 then c else c + (2 ^ 32 - 256)

-- The C string ends at its first NUL; the product wraps at 32 bits.
unfoldable pub hash : Bytes → ℕ
hash [] = salt
hash (c ∷ s) = let rest = hash s in if c == 0 then salt else bit_xor (rest * 33 % 2 ^ 32) (widen c)

-- The first label with this hash decides.
unfoldable pub switch : ℕ → List (String × ℕ) → ℕ → ℕ
unfolding hash
switch h [] other = other
switch h ((label, v) ∷ rest) other = if h == hash (codes label) then v else switch h rest other

hash_read : hash (codes "a") ≡ bit_xor (10242048 * 33 % 2 ^ 32) 97
unfolding hash
hash_read = refl
