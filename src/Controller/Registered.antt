-- ===== src/Controller/Registered.antt =====
-- The housekeeping rules that a controller has registered (src/controller/controller.cpp).
use cheferd.Prelude.{
  ℕ, suc, ◌+◌, ◌<◌, ◌≡◌, refl, sym, ap, ◌∙◌, some, List, [], ◌∷◌, ◌++◌, map, length-append,
  append_assoc, append-nil, arith, length, get_elem?, Result, ok, fail, ◌>>=◌,
}
use cheferd.Prelude.Int.{minus_one}
use cheferd.Text.{Bytes}
use cheferd.Rules.Raw.{HousekeepingCreateChannelRaw, HousekeepingCreateObjectRaw}
use cheferd.Rules.Staged.{
  parse_rule, read_rules, channel_rule, object_rule, int_max, get_create_channel_rules,
  get_create_object_rules,
}
use cheferd.Rules.Staged.Laws.{
  collect, counted, get_create_channel_rules-collect, get_create_object_rules-collect,
}
use cheferd.Policy.{
  convert_housekeeping_create_channel_string, convert_housekeeping_create_object_string,
}
use cheferd.Controller.{store_rules, register_housekeeping_rules}

read_rules-map :
    (lines : List Bytes) (staged : List (List Bytes)) (n : ℕ)
    → (read_rules lines staged n).0 ≡ staged ++ map parse_rule lines
unfolding read_rules
read_rules-map [] staged n = sym (append-nil staged)
read_rules-map (line ∷ lines) staged n =
    read_rules-map lines _ (n + 1) ∙ append_assoc staged (parse_rule line ∷ []) _

get_elem?-middle :
    {A : Type 0} (before rest : List A) (a : A)
    → get_elem? (before ++ a ∷ rest) (length before) ≡ some a
get_elem?-middle [] rest a = refl
get_elem?-middle (b ∷ before) rest a = get_elem?-middle before rest a

length-map-parse : (lines : List Bytes) → length (map parse_rule lines) ≡ length lines
length-map-parse [] = refl
length-map-parse (line ∷ lines) = ap suc (length-map-parse lines)

module _ {A : Type 0} (convert : A → Bytes) where
  store_rules-rest :
      (raw before rest : List A) (i : ℕ) (stored : List Bytes)
      → raw ≡ before ++ rest
      → i ≡ length before
      → store_rules convert raw i (length rest) stored ≡ ok (stored ++ map convert rest)
  unfolding store_rules
  store_rules-rest raw before [] i stored e k = ap ok (sym (append-nil stored))
  store_rules-rest raw before (a ∷ rest) i stored e k =
      let found : get_elem? raw i ≡ some a = rw e (rw k (get_elem?-middle before rest a)) in
      rw found (
        store_rules-rest raw (before ++ a ∷ []) rest (i + 1) _
          (e ∙ sym (append_assoc before (a ∷ []) rest))
          (ap (λ m. m + 1) k ∙ omega (arith, length-append before (a ∷ [])))
        ∙ ap ok (append_assoc stored (convert a ∷ []) (map convert rest)))

  store_rules-map :
      (raw : List A) (stored : List Bytes)
      → store_rules convert raw 0 (0 + length raw) stored ≡ ok (stored ++ map convert raw)
  store_rules-map raw stored =
      let rounds : 0 + length raw ≡ length raw = omega arith in
      rw rounds (store_rules-rest raw [] raw 0 stored refl refl)

-- The texts of the rules of a file: the channels first, and then the objects.
abbrev pub texts_of :
    List HousekeepingCreateChannelRaw → List HousekeepingCreateObjectRaw → List Bytes
texts_of channels objects =
    map convert_housekeeping_create_channel_string channels
    ++ map convert_housekeeping_create_object_string objects

-- The two halves of the registration, from what the loops over the staged rules make.
abbrev registered :
    Result (ℕ × List HousekeepingCreateChannelRaw)
    → Result (ℕ × List HousekeepingCreateObjectRaw)
    → Result (List Bytes)
registered channel_rules object_rules = do
  (channels, hsk_create_channel) ← channel_rules
  stored ← store_rules convert_housekeeping_create_channel_string hsk_create_channel 0 channels []
  (objects, hsk_create_object) ← object_rules
  store_rules convert_housekeeping_create_object_string hsk_create_object 0 objects stored

registered-counted :
    (channels : Result (List HousekeepingCreateChannelRaw))
    (objects : Result (List HousekeepingCreateObjectRaw))
    → registered (counted 0 [] channels) (counted 0 [] objects)
      ≡ (do cs ← channels; os ← objects; ok (texts_of cs os))
registered-counted (fail e) objects = refl
registered-counted (ok cs) (fail e) =
    rw (store_rules-map convert_housekeeping_create_channel_string cs []) refl
registered-counted (ok cs) (ok os) =
    rw (store_rules-map convert_housekeeping_create_channel_string cs [])
      (store_rules-map convert_housekeeping_create_object_string os _)

-- For a file with fewer lines than the largest `int`, a controller registers the texts of all its
-- create_channel rules, in their order, and then those of all its create_object rules, or ends in
-- the first fault of their conversion, that of a channel first.
pub register_housekeeping_rules-texts_of :
    (lines : List Bytes)
    → length lines < int_max
    → register_housekeeping_rules lines [] ≡ (do
      channels ← collect channel_rule (map parse_rule lines)
      objects ← collect object_rule (map parse_rule lines)
      ok (texts_of channels objects))
unfolding register_housekeeping_rules
register_housekeeping_rules-texts_of lines h =
    let few : length (map parse_rule lines) < int_max = omega (arith, length-map-parse lines) in
    let staged : List (List Bytes) = map parse_rule lines in
    ap
      (λ rules.
        registered (get_create_channel_rules rules minus_one)
          (get_create_object_rules rules minus_one))
      (read_rules-map lines [] 0)
    ∙ ap (λ c. registered c (get_create_object_rules staged minus_one))
        (get_create_channel_rules-collect staged few)
    ∙ ap (registered (counted 0 [] (collect channel_rule staged)))
        (get_create_object_rules-collect staged few)
    ∙ registered-counted (collect channel_rule staged) (collect object_rule staged)
