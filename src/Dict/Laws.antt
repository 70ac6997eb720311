-- ===== src/Dict/Laws.antt =====
-- The laws of the dictionaries: what a lookup finds after each change, and that the keys stay
-- apart.
use cheferd.Prelude.{
  ◌≡◌, refl, ap, ◌∙◌, false, Option, none, some, List, [], ◌∷◌, ◌++◌, arith, if◌then◌else◌, All,
  inl, inr, Bool-cases, length, ◌≤◌,
}
use cheferd.Text.{Bytes, same, same_refl, same_iff}
use cheferd.Dict.{Dict, keys, lookup, put, emplace, erase, put_ordered, before}

-- No key occurs twice.
abbrev pub Fresh : Bytes → List Bytes → Type 0
Fresh k = All (λ j. same j k ≡ false)

abbrev pub Distinct : List Bytes → Type 0
Distinct [] = Unit
Distinct (k ∷ ks) = Fresh k ks × Distinct ks

pub same-sym : (s t : Bytes) → same s t ≡ same t s
unfolding same
same-sym [] [] = refl
same-sym [] (y ∷ t) = refl
same-sym (x ∷ s) [] = refl
same-sym (x ∷ s) (y ∷ t) = ground (arith, same-sym s t)

module _ {ℓ} {V : Type ℓ} where
  pub lookup-put :
      (k j : Bytes) (v : V) (d : Dict V)
      → lookup j (put k v d) ≡ (if same k j then some v else lookup j d)
  unfolding lookup put
  lookup-put k j v [] = refl
  lookup-put k j v ((i, w) ∷ d) =
      ground (arith, same_iff i k, same_iff i j, same_iff k j, lookup-put k j v d)

  pub lookup-put_ordered :
      (k j : Bytes) (v : V) (d : Dict V)
      → lookup j (put_ordered k v d) ≡ (if same k j then some v else lookup j d)
  unfolding lookup put_ordered
  lookup-put_ordered k j v [] = refl
  lookup-put_ordered k j v ((i, w) ∷ d) =
      ground (arith, same_iff i k, same_iff i j, same_iff k j, lookup-put_ordered k j v d)

  abbrev or_else : Option V → V → V
  or_else none v = v
  or_else (some w) v = w

  pub lookup-emplace :
      (k j : Bytes) (v : V) (d : Dict V)
      → lookup j (emplace k v d) ≡ (if same k j then some (or_else (lookup k d) v) else lookup j d)
  unfolding lookup emplace
  lookup-emplace k j v [] = refl
  lookup-emplace k j v ((i, w) ∷ d) =
      ground (arith, same_iff i k, same_iff i j, same_iff k j, lookup-emplace k j v d)

  pub lookup-Fresh : (k : Bytes) (d : Dict V) → Fresh k (keys d) → lookup k d ≡ none
  unfolding lookup
  lookup-Fresh k [] h = refl
  lookup-Fresh k ((i, w) ∷ d) (h, hs) = ground (arith, lookup-Fresh k d hs)

  pub lookup-erase :
      (k j : Bytes) (d : Dict V)
      → Distinct (keys d)
      → lookup j (erase k d) ≡ (if same k j then none else lookup j d)
  unfolding lookup erase
  lookup-erase k j [] h = ground arith
  lookup-erase k j ((i, w) ∷ d) (f, h) =
      ground
        (arith, same_iff i k, same_iff i j, same_iff k j, lookup-erase k j d h, lookup-Fresh i d f)

  Fresh-put :
      (j k : Bytes) (v : V) (d : Dict V)
      → same k j ≡ false
      → Fresh j (keys d)
      → Fresh j (keys (put k v d))
  unfolding put
  Fresh-put j k v [] n f = (n, tt)
  Fresh-put j k v ((i, w) ∷ d) n (f, fs) = elim (Bool-cases (same i k)) [
    | inl e ↦ rw e (f, fs)
    | inr e ↦ rw e (f, Fresh-put j k v d n fs)
  ]

  pub put-Distinct :
      (k : Bytes) (v : V) (d : Dict V) → Distinct (keys d) → Distinct (keys (put k v d))
  unfolding put
  put-Distinct k v [] h = (tt, tt)
  put-Distinct k v ((i, w) ∷ d) (f, h) = elim (Bool-cases (same i k)) [
    | inl e ↦ rw e (f, h)
    | inr e ↦ rw e (Fresh-put i k v d (same-sym k i ∙ e) f, put-Distinct k v d h)
  ]

  Fresh-put_ordered :
      (j k : Bytes) (v : V) (d : Dict V)
      → same k j ≡ false
      → Fresh j (keys d)
      → Fresh j (keys (put_ordered k v d))
  unfolding put_ordered
  Fresh-put_ordered j k v [] n f = (n, tt)
  Fresh-put_ordered j k v ((i, w) ∷ d) n (f, fs) = elim (Bool-cases (same i k)) [
    | inl e ↦ rw e (f, fs)
    | inr e ↦ rw e (elim (Bool-cases (before k i)) [
      | inl b ↦ rw b (n, (f, fs))
      | inr b ↦ rw b (f, Fresh-put_ordered j k v d n fs)
    ])
  ]

  Fresh-erase : (j k : Bytes) (d : Dict V) → Fresh j (keys d) → Fresh j (keys (erase k d))
  unfolding erase
  Fresh-erase j k [] f = tt
  Fresh-erase j k ((i, w) ∷ d) (f, fs) = elim (Bool-cases (same i k)) [
    | inl e ↦ rw e fs
    | inr e ↦ rw e (f, Fresh-erase j k d fs)
  ]

  pub erase-Distinct : (k : Bytes) (d : Dict V) → Distinct (keys d) → Distinct (keys (erase k d))
  unfolding erase
  erase-Distinct k [] h = tt
  erase-Distinct k ((i, w) ∷ d) (f, h) = elim (Bool-cases (same i k)) [
    | inl e ↦ rw e h
    | inr e ↦ rw e (Fresh-erase i k d f, erase-Distinct k d h)
  ]

  pub length-put : (k : Bytes) (v : V) (d : Dict V) → 1 ≤ length (put k v d)
  unfolding put
  length-put k v [] = omega arith
  length-put k v ((j, w) ∷ d) = ground arith

  -- The entry of a key, found at the front, and erased where it is the only one.
  pub lookup-front : (k : Bytes) (v : V) (d : Dict V) → lookup k ((k, v) ∷ d) ≡ some v
  unfolding lookup
  lookup-front k v d = rw (same_refl k) refl

  pub erase-front : (k : Bytes) (v : V) (d : Dict V) → erase k ((k, v) ∷ d) ≡ d
  unfolding erase
  erase-front k v d = rw (same_refl k) refl

  pub put-nil : (k : Bytes) (v : V) → put k v [] ≡ (k, v) ∷ []
  unfolding put
  put-nil k v = refl

  -- An entry behind entries with other keys.
  pub put-Fresh : (k : Bytes) (v : V) (d : Dict V) → Fresh k (keys d) → put k v d ≡ d ++ (k, v) ∷ []
  unfolding put
  put-Fresh k v [] h = refl
  put-Fresh k v ((j, w) ∷ d) (h, hs) = rw h (ap (◌∷◌ (j, w)) (put-Fresh k v d hs))

  pub lookup-past :
      (k : Bytes) (v : V) (d e : Dict V) → Fresh k (keys d) → lookup k (d ++ (k, v) ∷ e) ≡ some v
  unfolding lookup
  lookup-past k v [] e h = rw (same_refl k) refl
  lookup-past k v ((j, w) ∷ d) e (h, hs) = rw h (lookup-past k v d e hs)

  pub erase-past :
      (k : Bytes) (v : V) (d e : Dict V) → Fresh k (keys d) → erase k (d ++ (k, v) ∷ e) ≡ d ++ e
  unfolding erase
  erase-past k v [] e h = rw (same_refl k) refl
  erase-past k v ((j, w) ∷ d) e (h, hs) = rw h (ap (◌∷◌ (j, w)) (erase-past k v d e hs))

  pub keys-append : (d e : Dict V) → keys (d ++ e) ≡ keys d ++ keys e
  keys-append [] e = refl
  keys-append ((k, v) ∷ d) e = ap (◌∷◌ k) (keys-append d e)

Fresh-left : (k : Bytes) (ks js : List Bytes) → Fresh k (ks ++ js) → Fresh k ks
Fresh-left k [] js h = tt
Fresh-left k (j ∷ ks) js (h, hs) = (h, Fresh-left k ks js hs)

Fresh-without : (k i : Bytes) (ks js : List Bytes) → Fresh k (ks ++ i ∷ js) → Fresh k (ks ++ js)
Fresh-without k i [] js (h, hs) = hs
Fresh-without k i (j ∷ ks) js (h, hs) = (h, Fresh-without k i ks js hs)

Fresh-at : (k i : Bytes) (ks js : List Bytes) → Fresh k (ks ++ i ∷ js) → same i k ≡ false
Fresh-at k i [] js (h, hs) = h
Fresh-at k i (j ∷ ks) js (h, hs) = Fresh-at k i ks js hs

-- A key in the middle is not among those before it, and can be left out.
pub Fresh-middle : (k : Bytes) (ks js : List Bytes) → Distinct (ks ++ k ∷ js) → Fresh k ks
Fresh-middle k [] js h = tt
Fresh-middle k (j ∷ ks) js (h, hs) = (same-sym j k ∙ Fresh-at j k ks js h, Fresh-middle k ks js hs)

pub Distinct-without :
    (k : Bytes) (ks js : List Bytes) → Distinct (ks ++ k ∷ js) → Distinct (ks ++ js)
Distinct-without k [] js (h, hs) = hs
Distinct-without k (j ∷ ks) js (h, hs) = (Fresh-without j k ks js h, Distinct-without k ks js hs)
