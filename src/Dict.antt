-- ===== src/Dict.antt =====
-- std::unordered_map and std::map with string keys, as lists of entries. The order of an unordered
-- map is that of first insertion; a std::map is kept in the order of its keys.
pub mod Laws
pub mod Ordered
pub mod Values
use cheferd.Prelude.{
  ℕ, ◌≡◌, refl, Bool, true, false, Option, none, some, List, [], ◌∷◌, map, ltb, ◌==◌, if◌then◌else◌,
}
use cheferd.Prelude.Int.{ℤ, pos}
use cheferd.Text.{Bytes, same}

abbrev pub Dict {ℓ} : Type ℓ → Type ℓ
Dict V = List (Bytes × V)

-- operator< of two strings
unfoldable pub before : Bytes → Bytes → Bool
before s [] = false
before [] (y ∷ t) = true
before (x ∷ s) (y ∷ t) = if ltb x y then true else if x == y then before s t else false

module _ {ℓ} {V : Type ℓ} where
  abbrev pub keys : Dict V → List Bytes
  keys [] = []
  keys ((k, v) ∷ d) = k ∷ keys d

  -- find, and at, which throws on `none`
  unfoldable pub lookup : Bytes → Dict V → Option V
  lookup k [] = none
  lookup k ((j, v) ∷ d) = if same j k then some v else lookup k d

  -- d[k] = v
  unfoldable pub put : Bytes → V → Dict V → Dict V
  put k v [] = (k, v) ∷ []
  put k v ((j, w) ∷ d) = if same j k then (j, v) ∷ d else (j, w) ∷ put k v d

  -- d.emplace (k, v) keeps an entry that is there
  unfoldable pub emplace : Bytes → V → Dict V → Dict V
  emplace k v [] = (k, v) ∷ []
  emplace k v ((j, w) ∷ d) = if same j k then (j, w) ∷ d else (j, w) ∷ emplace k v d

  -- d.erase (k)
  unfoldable pub erase : Bytes → Dict V → Dict V
  erase k [] = []
  erase k ((j, w) ∷ d) = if same j k then d else (j, w) ∷ erase k d

  -- d[k] = v on a std::map
  unfoldable pub put_ordered : Bytes → V → Dict V → Dict V
  put_ordered k v [] = (k, v) ∷ []
  put_ordered k v ((j, w) ∷ d) =
      if same j k
      then (j, v) ∷ d
      else if before k j
      then (k, v) ∷ (j, w) ∷ d
      else (j, w) ∷ put_ordered k v d

-- Reading d[k] of a map of `long` makes an entry 0 where there is none.
abbrev pub touch : Bytes → Dict ℤ → Dict ℤ
touch k d = emplace k (pos 0) d

abbrev or_zero : Option ℤ → ℤ
or_zero none = pos 0
or_zero (some z) = z

abbrev pub value : Bytes → Dict ℤ → ℤ
value k d = or_zero (lookup k d)
