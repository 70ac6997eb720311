-- ===== src/Text/Find.antt =====
-- The searches of std::string that the program makes; `none` is `npos`.
use cheferd.Prelude.{ℕ, suc, ◌+◌, ◌-◌, Option, none, some, [], ◌∷◌, ◌==◌, if◌then◌else◌, take, drop}
use cheferd.Text.{Bytes}

abbrev pub shift : ℕ → Option ℕ → Option ℕ
shift n none = none
shift n (some k) = some (n + k)

abbrev pub bump : Option ℕ → Option ℕ
bump none = none
bump (some k) = some (suc k)

-- The first index of a byte that is `c`, and of one that is not.
unfoldable pub index_of : ℕ → Bytes → Option ℕ
index_of c [] = none
index_of c (x ∷ s) = if x == c then some 0 else bump (index_of c s)

unfoldable pub index_not : ℕ → Bytes → Option ℕ
index_not c [] = none
index_not c (x ∷ s) = if x == c then bump (index_not c s) else some 0

-- s.find (c, start)
abbrev pub find : Bytes → ℕ → ℕ → Option ℕ
find s c start = shift start (index_of c (drop start s))

-- s.find_first_not_of (c, end); a search from `npos` finds nothing.
abbrev pub find_first_not_of : Bytes → ℕ → Option ℕ → Option ℕ
find_first_not_of s c none = none
find_first_not_of s c (some from) = shift from (index_not c (drop from s))

-- s.substr (start, end - start); with `npos` for the end it runs to the end of the text.
abbrev pub substr : Bytes → ℕ → Option ℕ → Bytes
substr s start none = drop start s
substr s start (some stop) = take (stop - start) (drop start s)
