-- ===== src/Text/Tokens/Laws.antt =====
-- The tokenizer's loop ends and computes `fields`; `fields` undoes the writing of delimited words.
use mathlib.Core.List.{cons-ne-nil}
use cheferd.Prelude.{
  false, ℕ, zero, suc, ◌+◌, ◌-◌, ◌<◌, ◌≡◌, ◌≢◌, refl, sym, ap, ◌∙◌, Option, none, some, List, [],
  ◌∷◌, ◌++◌, arith, ◌==◌, length, take, drop, length-drop, drop-drop, All, append_assoc, append-nil,
  inl, inr, Option-cases, Bool-cases,
}
use cheferd.Text.{Bytes, Lacks}
use cheferd.Text.Find.{shift, find, substr, index_of, index_not}
use cheferd.Text.Tokens.{tokens_loop, run_tokens, tokens_of, grow, join_word, fields}

-- Words are not empty and do not hold the delimiter.
abbrev pub IsWord : ℕ → Bytes → Type 0
IsWord c w = (w ≢ []) × Lacks c w

module _ (c : ℕ) where
  fields-index_not-none : (s : Bytes) → index_not c s ≡ none → fields c s ≡ []
  unfolding index_not fields
  fields-index_not-none [] h = refl
  fields-index_not-none (x ∷ s) h = ground (arith, fields-index_not-none s)

  fields-skip : (s : Bytes) (k : ℕ) → index_not c s ≡ some k → fields c s ≡ fields c (drop k s)
  unfolding index_not fields
  fields-skip [] k h = cc
  fields-skip (x ∷ s) zero h = refl
  fields-skip (x ∷ s) (suc k) h = ground (arith, fields-skip s k)

  -- what stands where the search for another byte stops
  index_not-drop :
      (s : Bytes) (k : ℕ)
      → index_not c s ≡ some k
      → (x : ℕ) × (u : Bytes) × (drop k s ≡ x ∷ u) × ((x == c) ≡ false)
  unfolding index_not
  index_not-drop [] k h = cc
  index_not-drop (x ∷ s) zero h = (x, s, refl, ground arith)
  index_not-drop (x ∷ s) (suc k) h = index_not-drop s k (ground arith)

  fields-index_of-none :
      (x : ℕ) (s : Bytes) → index_of c (x ∷ s) ≡ none → fields c (x ∷ s) ≡ (x ∷ s) ∷ []
  unfolding index_of fields
  fields-index_of-none x [] h = ground arith
  fields-index_of-none x (y ∷ s) h = ground (arith, fields-index_of-none y s)

  fields-take :
      (s : Bytes) (k : ℕ)
      → index_of c s ≡ some (suc k)
      → fields c s ≡ take (suc k) s ∷ fields c (drop (suc k) s)
  unfolding index_of fields
  fields-take [] k h = cc
  fields-take (x ∷ []) k h = ground arith
  fields-take (x ∷ y ∷ s) zero h = ground arith
  fields-take (x ∷ y ∷ s) (suc k) h = ground (arith, fields-take (y ∷ s) k)

  -- the text that is left to read at `last`
  abbrev left_fields : Bytes → Option ℕ → List Bytes
  left_fields rule none = []
  left_fields rule (some p) = fields c (drop p rule)

  abbrev left_bytes : Bytes → Option ℕ → ℕ
  left_bytes rule none = 0
  left_bytes rule (some p) = length (drop p rule)

  index_of-ne-zero : (x : ℕ) (u : Bytes) → (x == c) ≡ false → index_of c (x ∷ u) ≢ some 0
  unfolding index_of
  index_of-ne-zero x u h e = ground arith

  add-sub : (start j : ℕ) → start + j - start ≡ j
  add-sub start j = omega arith

  -- The word at `start` and what follows it are the fields there; the rest is shorter.
  word-left :
      (rule : Bytes) (start x : ℕ) (u : Bytes) (o : Option ℕ)
      → drop start rule ≡ x ∷ u
      → (x == c) ≡ false
      → index_of c (drop start rule) ≡ o
      → (substr rule start (shift start o) ∷ left_fields rule (shift start o)
          ≡ fields c (drop start rule))
        × (left_bytes rule (shift start o) < length (drop start rule))
  word-left rule start x u none e n f =
      (rw e (sym (fields-index_of-none x u (rw e at f))), rw e (omega arith))
  word-left rule start x u (some zero) e n f = absurd (index_of-ne-zero x u n (rw e at f))
  word-left rule start x u (some (suc j)) e n f = (
    rw (← drop-drop (suc j) start rule, e, add-sub) (sym (fields-take (x ∷ u) j (rw e at f))),
    rw (← drop-drop (suc j) start rule, e) (omega (arith, length-drop j u)),
  )

  tokens_loop-fields :
      (fuel : ℕ) (rule : Bytes) (last : Option ℕ) (tokens : List Bytes)
      → left_bytes rule last < fuel
      → tokens_loop fuel rule c last tokens ≡ some (tokens ++ left_fields rule last)
  unfolding tokens_loop
  tokens_loop-fields zero rule last tokens h = elim h [ ]
  tokens_loop-fields (suc fuel) rule none tokens h = ap some (sym (append-nil tokens))
  tokens_loop-fields (suc fuel) rule (some p) tokens h =
      elim (Option-cases (index_not c (drop p rule))) [
        | inl e ↦
            rw (e, tokens_loop) (rw (fields-index_not-none _ e) (ap some (sym (append-nil tokens))))
        | inr (k, e) ↦
            let (x, u, at, n) = index_not-drop (drop p rule) k e in
            let at' : drop (p + k) rule ≡ x ∷ u = sym (drop-drop k p rule) ∙ at in
            let (words, less) =
              word-left rule (p + k) x u (index_of c (drop (p + k) rule)) at' n refl in
            rw (e, tokens_loop)
              (tokens_loop-fields fuel rule (find rule c (p + k)) _
                  (omega (arith, less, length-drop (p + k) rule, length-drop p rule))
                ∙ ap some (
                    append_assoc tokens _ _
                    ∙ ap (◌++◌ tokens) (
                        words
                        ∙ ap (fields c) (sym (drop-drop k p rule))
                        ∙ sym (fields-skip (drop p rule) k e))))
      ]

-- The loop ends within its fuel, and its tokens are the fields of the text.
pub run_tokens-fields : (rule : Bytes) (c : ℕ) → run_tokens rule c ≡ some (fields c rule)
unfolding run_tokens
run_tokens-fields rule c = tokens_loop-fields c (suc (length rule)) rule (some 0) [] (omega arith)

pub tokens_of-fields : (rule : Bytes) (c : ℕ) → tokens_of rule c ≡ fields c rule
unfolding tokens_of
tokens_of-fields rule c = rw (run_tokens-fields rule c) refl

module _ (c : ℕ) where
  fields-word :
      (x : ℕ) (w rest : Bytes)
      → Lacks c (x ∷ w)
      → fields c ((x ∷ w) ++ c ∷ rest) ≡ (x ∷ w) ∷ fields c rest
  unfolding fields
  fields-word x [] rest (n, _) = ground arith
  fields-word x (y ∷ w) rest (n, h) = ground (arith, fields-word y w rest h)

  -- A word in front of a delimiter is the first field.
  pub fields-cons : (w rest : Bytes) → IsWord c w → fields c (w ++ c ∷ rest) ≡ w ∷ fields c rest
  fields-cons [] rest (h, _) = absurd (h refl)
  fields-cons (x ∷ w) rest (_, h) = fields-word x w rest h

  -- A delimiter in front is skipped.
  pub fields-delimiter : (rest : Bytes) → fields c (c ∷ rest) ≡ fields c rest
  unfolding fields
  fields-delimiter rest = ground arith

  fields_last : (x : ℕ) (w : Bytes) → Lacks c (x ∷ w) → fields c (x ∷ w) ≡ (x ∷ w) ∷ []
  unfolding fields
  fields_last x [] (n, _) = ground arith
  fields_last x (y ∷ w) (n, h) = ground (arith, fields_last y w h)

  -- A text that is one word has that field alone.
  pub fields_single : (w : Bytes) → IsWord c w → fields c w ≡ w ∷ []
  fields_single [] (h, _) = absurd (h refl)
  fields_single (x ∷ w) (_, h) = fields_last x w h

  pub fields-nil : fields c [] ≡ []
  unfolding fields
  fields-nil = refl

  -- Every field is a word.
  grow-words : (x : ℕ) (ws : List Bytes) → x ≢ c → All (IsWord c) ws → All (IsWord c) (grow x ws)
  grow-words x [] n h = ((cons-ne-nil x [], (n, tt)), tt)
  grow-words x (w ∷ ws) n ((_, h), hs) = ((cons-ne-nil x w, (n, h)), hs)

  join_word-words :
      (x : ℕ) (s : Bytes) (ws : List Bytes)
      → x ≢ c
      → All (IsWord c) ws
      → All (IsWord c) (join_word c x s ws)
  join_word-words x [] ws n h = ((cons-ne-nil x [], (n, tt)), h)
  join_word-words x (y ∷ s) ws n h = elim (Bool-cases (y == c)) [
    | inl e ↦ rw e ((cons-ne-nil x [], (n, tt)), h)
    | inr e ↦ rw e (grow-words x ws n h)
  ]

  pub fields-words : (s : Bytes) → All (IsWord c) (fields c s)
  unfolding fields
  fields-words [] = tt
  fields-words (x ∷ s) = elim (Bool-cases (x == c)) [
    | inl e ↦ rw e (fields-words s)
    | inr e ↦ rw e (join_word-words x s (fields c s) (ground arith) (fields-words s))
  ]

  -- Every word of a list, each followed by the delimiter.
  abbrev pub delimited : List Bytes → Bytes
  delimited [] = []
  delimited (w ∷ ws) = w ++ c ∷ delimited ws

  pub fields-delimited : (ws : List Bytes) → All (IsWord c) ws → fields c (delimited ws) ≡ ws
  fields-delimited [] h = fields-nil
  fields-delimited (w ∷ ws) (h, hs) =
      fields-cons w (delimited ws) h ∙ ap (◌∷◌ w) (fields-delimited ws hs)

  -- Words that are each followed by the delimiter are the tokens that the loop finds.
  pub tokens_of-delimited : (ws : List Bytes) → All (IsWord c) ws → tokens_of (delimited ws) c ≡ ws
  tokens_of-delimited ws h = tokens_of-fields (delimited ws) c ∙ fields-delimited ws h
