-- ===== src/Dict/Values.antt =====
-- A predicate of all the values of a dictionary, and what keeps it.
use mathlib.Core.Option.{some-injective}
use cheferd.Prelude.{subst, ◌≡◌, some, [], ◌∷◌, if◌then◌else◌, inl, inr, Bool-cases}
use cheferd.Text.{Bytes, same}
use cheferd.Dict.{Dict, lookup, put, put_ordered, erase, before}

module _ {ℓ} {V : Type ℓ} (P : V → Type 0) where
  abbrev pub Values : Dict V → Type 0
  Values [] = Unit
  Values ((k, v) ∷ d) = P v × Values d

  pub Values-lookup : (k : Bytes) (v : V) (d : Dict V) → Values d → lookup k d ≡ some v → P v
  unfolding lookup
  Values-lookup k v [] h e = cc
  Values-lookup k v ((j, w) ∷ d) (h, hs) e = elim (Bool-cases (same j k)) [
    | inl b ↦
        subst P (some-injective w v (subst (λ c. (if c then some w else lookup k d) ≡ some v) b e))
          h
    | inr b ↦ Values-lookup k v d hs (subst (λ c. (if c then some w else lookup k d) ≡ some v) b e)
  ]

  pub Values-put : (k : Bytes) (v : V) (d : Dict V) → P v → Values d → Values (put k v d)
  unfolding put
  Values-put k v [] h hs = (h, tt)
  Values-put k v ((j, w) ∷ d) h (g, gs) = elim (Bool-cases (same j k)) [
    | inl b ↦ rw b (h, gs)
    | inr b ↦ rw b (g, Values-put k v d h gs)
  ]

  pub Values-put_ordered :
      (k : Bytes) (v : V) (d : Dict V) → P v → Values d → Values (put_ordered k v d)
  unfolding put_ordered
  Values-put_ordered k v [] h hs = (h, tt)
  Values-put_ordered k v ((j, w) ∷ d) h (g, gs) = elim (Bool-cases (same j k)) [
    | inl b ↦ rw b (h, gs)
    | inr b ↦ rw b (elim (Bool-cases (before k j)) [
      | inl c ↦ rw c (h, (g, gs))
      | inr c ↦ rw c (g, Values-put_ordered k v d h gs)
    ])
  ]

  pub Values-erase : (k : Bytes) (d : Dict V) → Values d → Values (erase k d)
  unfolding erase
  Values-erase k [] h = tt
  Values-erase k ((j, w) ∷ d) (g, gs) = elim (Bool-cases (same j k)) [
    | inl b ↦ rw b gs
    | inr b ↦ rw b (g, Values-erase k d gs)
  ]
