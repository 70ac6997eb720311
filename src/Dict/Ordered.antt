-- ===== src/Dict/Ordered.antt =====
-- The order of strings is a strict total order, and a std::map stays in the order of its keys.
use cheferd.Prelude.{◌≡◌, refl, true, false, List, [], ◌∷◌, arith, All, inl, inr, Bool-cases}
use cheferd.Text.{Bytes, same}
use cheferd.Dict.{Dict, keys, put_ordered, erase, before}
use cheferd.Dict.Laws.{Fresh, Distinct}

before_irrefl : (s t : Bytes) → before s t ≡ true → same t s ≡ false
unfolding before same
before_irrefl s [] h = cc
before_irrefl [] (y ∷ t) h = refl
before_irrefl (x ∷ s) (y ∷ t) h = ground (arith, before_irrefl s t)

before_trans : (s t u : Bytes) → before s t ≡ true → before t u ≡ true → before s u ≡ true
unfolding before
before_trans s [] u h k = cc
before_trans s (y ∷ t) [] h k = cc
before_trans [] (y ∷ t) (z ∷ u) h k = refl
before_trans (x ∷ s) (y ∷ t) (z ∷ u) h k = ground (arith, before_trans s t u)

before_total : (s t : Bytes) → same t s ≡ false → before s t ≡ false → before t s ≡ true
unfolding before same
before_total [] [] h k = cc
before_total (x ∷ s) [] h k = refl
before_total [] (y ∷ t) h k = cc
before_total (x ∷ s) (y ∷ t) h k = ground (arith, before_total s t)

abbrev pub Above : Bytes → List Bytes → Type 0
Above k = All (λ j. before k j ≡ true)

abbrev pub Ordered : List Bytes → Type 0
Ordered [] = Unit
Ordered (k ∷ ks) = Above k ks × Ordered ks

Above-trans : (k i : Bytes) (ks : List Bytes) → before k i ≡ true → Above i ks → Above k ks
Above-trans k i [] h a = tt
Above-trans k i (j ∷ ks) h (a, rest) = (before_trans k i j h a, Above-trans k i ks h rest)

Above-Fresh : (k : Bytes) (ks : List Bytes) → Above k ks → Fresh k ks
Above-Fresh k [] a = tt
Above-Fresh k (j ∷ ks) (a, rest) = (before_irrefl k j a, Above-Fresh k ks rest)

pub Ordered-Distinct : (ks : List Bytes) → Ordered ks → Distinct ks
Ordered-Distinct [] h = tt
Ordered-Distinct (k ∷ ks) (a, h) = (Above-Fresh k ks a, Ordered-Distinct ks h)

module _ {ℓ} {V : Type ℓ} where
  Above-put_ordered :
      (i k : Bytes) (v : V) (d : Dict V)
      → before i k ≡ true
      → Above i (keys d)
      → Above i (keys (put_ordered k v d))
  unfolding put_ordered
  Above-put_ordered i k v [] h a = (h, tt)
  Above-put_ordered i k v ((j, w) ∷ d) h (a, rest) = elim (Bool-cases (same j k)) [
    | inl e ↦ rw e (a, rest)
    | inr e ↦ rw e (elim (Bool-cases (before k j)) [
      | inl b ↦ rw b (h, (a, rest))
      | inr b ↦ rw b (a, Above-put_ordered i k v d h rest)
    ])
  ]

  -- A write keeps the order.
  pub put_ordered-Ordered :
      (k : Bytes) (v : V) (d : Dict V) → Ordered (keys d) → Ordered (keys (put_ordered k v d))
  unfolding put_ordered
  put_ordered-Ordered k v [] h = (tt, tt)
  put_ordered-Ordered k v ((j, w) ∷ d) (a, h) = elim (Bool-cases (same j k)) [
    | inl e ↦ rw e (a, h)
    | inr e ↦ rw e (elim (Bool-cases (before k j)) [
      | inl b ↦ rw b ((b, Above-trans k j (keys d) b a), (a, h))
      | inr b ↦
          rw b (Above-put_ordered j k v d (before_total k j e b) a, put_ordered-Ordered k v d h)
    ])
  ]

  Above-erase : (i k : Bytes) (d : Dict V) → Above i (keys d) → Above i (keys (erase k d))
  unfolding erase
  Above-erase i k [] a = tt
  Above-erase i k ((j, w) ∷ d) (a, rest) = elim (Bool-cases (same j k)) [
    | inl e ↦ rw e rest
    | inr e ↦ rw e (a, Above-erase i k d rest)
  ]

  -- So does an erasure.
  pub erase-Ordered : (k : Bytes) (d : Dict V) → Ordered (keys d) → Ordered (keys (erase k d))
  unfolding erase
  erase-Ordered k [] h = tt
  erase-Ordered k ((j, w) ∷ d) (a, h) = elim (Bool-cases (same j k)) [
    | inl e ↦ rw e h
    | inr e ↦ rw e (Above-erase j k d a, erase-Ordered k d h)
  ]
