-- ===== src/Wire/Rates.antt =====
-- The rates of the environments in an enforcement rule: as the global controller prints them
-- (src/controller/core_control_application.cpp) and the interface reads them back
-- (src/networking/local_interface.cpp).
use mathlib.Core.List.{cons-ne-nil}
use cheferd.Prelude.{
  ℕ, ◌≡◌, ◌≢◌, refl, sym, ap, ◌∙◌, [], ◌∷◌, ◌++◌, append_assoc, append-nil, map, arith, All,
  All-append, true, false, ok,
}
use cheferd.Prelude.Int.{ℤ, ◌==ℤ◌}
use cheferd.Text.{Bytes, codes, Lacks}
use cheferd.Text.Tokens.{tokens_of, fields}
use cheferd.Text.Tokens.Laws.{
  IsWord, delimited, tokens_of-fields, fields-cons, fields_single, fields-delimiter,
  fields-delimited,
}
use cheferd.Text.Number.{to_string, fits, long_bound, is_digit}
use cheferd.Text.Number.RoundTrip.{stoll-to_string, to_string-Lacks, to_string-ne-nil}
use cheferd.Core.State.{Envs}
use cheferd.Core.Enforce.{env_rates}
use cheferd.Wire.{Rates, put_rate, fill_env_rates}

-- A `long` that is read back from its print.
abbrev pub Fits : ℤ → Type 0
Fits z = fits long_bound z ≡ true

-- One limit for each of the environments.
abbrev pub limit_each : Envs → ℤ → Rates
limit_each [] limit = []
limit_each (env ∷ envs) limit = (env, limit) ∷ limit_each envs limit

abbrev pub Unlisted : ℤ → Rates → Type 0
Unlisted env = All (λ r. (r.0 ==ℤ env) ≡ false)

-- No environment stands twice.
abbrev pub Separate : Envs → Type 0
Separate [] = Unit
Separate (env ∷ envs) = All (λ e. (env ==ℤ e) ≡ false) envs × Separate envs

pub print-IsWord : (z : ℤ) (c : ℕ) → is_digit c ≡ false → c ≢ b'-' → IsWord c (to_string z)
print-IsWord z c h k = (to_string-ne-nil z, to_string-Lacks z c h k)

abbrev env_rate : ℤ → ℤ → Bytes
env_rate limit env = to_string env ++ b':' ∷ to_string limit

-- The entries are words that a star stands before and behind.
pub env_rates-delimited :
    (envs : Envs) (limit : ℤ)
    → env_rates envs limit ++ codes "*" ≡ b'*' ∷ delimited b'*' (map (env_rate limit) envs)
unfolding env_rates
env_rates-delimited [] limit = refl
env_rates-delimited (env ∷ envs) limit = ap (◌∷◌ b'*') (
    append_assoc (to_string env) _ (codes "*")
    ∙ ap (λ t. to_string env ++ b':' ∷ t)
        (append_assoc (to_string limit) (env_rates envs limit) (codes "*")
          ∙ ap (◌++◌ (to_string limit)) (env_rates-delimited envs limit))
    ∙ sym (append_assoc (to_string env) (b':' ∷ to_string limit) _))

env_rate-IsWord : (limit env : ℤ) → IsWord b'*' (env_rate limit env)
env_rate-IsWord limit env = (
  (λ e. to_string-ne-nil env (prefix_nil (to_string env) _ e)),
  All-append (λ x. x ≢ b'*') (to_string env) _ (to_string-Lacks env b'*' refl (omega arith))
      ((omega arith), to_string-Lacks limit b'*' refl (omega arith)),
)
  where
    prefix_nil : (s t : Bytes) → s ++ t ≡ [] → s ≡ []
    prefix_nil [] t e = refl
    prefix_nil (x ∷ s) t e = absurd (cons-ne-nil _ _ e)

env_rate-words : (limit : ℤ) (envs : Envs) → All (IsWord b'*') (map (env_rate limit) envs)
env_rate-words limit [] = tt
env_rate-words limit (env ∷ envs) = (env_rate-IsWord limit env, env_rate-words limit envs)

pub env_rates-Lacks :
    (c : ℕ) (envs : Envs) (limit : ℤ)
    → is_digit c ≡ false
    → c ≢ b'-'
    → c ≢ b'*'
    → c ≢ b':'
    → Lacks c (env_rates envs limit)
unfolding env_rates
env_rates-Lacks c [] limit h k s t = tt
env_rates-Lacks c (env ∷ envs) limit h k s t = (
  (λ e. s (sym e)),
  All-append (λ x. x ≢ c) (to_string env) _ (to_string-Lacks env c h k)
      (
        (λ e. t (sym e)),
        All-append (λ x. x ≢ c) (to_string limit) _ (to_string-Lacks limit c h k)
            (env_rates-Lacks c envs limit h k s t),
      ),
)

tokens-env_rate :
    (limit env : ℤ) → tokens_of (env_rate limit env) b':' ≡ to_string env ∷ to_string limit ∷ []
tokens-env_rate limit env =
    tokens_of-fields (env_rate limit env) b':'
    ∙ fields-cons b':' (to_string env) (to_string limit) (print-IsWord env b':' refl (omega arith))
    ∙ ap (◌∷◌ (to_string env))
        (fields_single b':' (to_string limit) (print-IsWord limit b':' refl (omega arith)))

put_rate-Unlisted :
    (env limit : ℤ) (rates : Rates)
    → Unlisted env rates
    → put_rate env limit rates ≡ rates ++ (env, limit) ∷ []
unfolding put_rate
put_rate-Unlisted env limit [] h = refl
put_rate-Unlisted env limit ((e, r) ∷ rates) (h, hs) =
    rw h (ap (◌∷◌ (e, r)) (put_rate-Unlisted env limit rates hs))

still_Unlisted :
    (env limit : ℤ) (rates : Rates) (envs : Envs)
    → All (λ e. (env ==ℤ e) ≡ false) envs
    → All (λ e. Unlisted e rates) envs
    → All (λ e. Unlisted e (rates ++ (env, limit) ∷ [])) envs
still_Unlisted env limit rates [] h k = tt
still_Unlisted env limit rates (e ∷ envs) (h, hs) (k, ks) = (
  All-append (λ r. (r.0 ==ℤ e) ≡ false) rates ((env, limit) ∷ []) k (h, tt),
  still_Unlisted env limit rates envs hs ks,
)

fill_env_rates-each :
    (envs : Envs) (limit : ℤ) (rates : Rates)
    → All Fits envs
    → Fits limit
    → Separate envs
    → All (λ e. Unlisted e rates) envs
    → fill_env_rates (map (env_rate limit) envs) rates ≡ ok (rates ++ limit_each envs limit)
unfolding fill_env_rates
fill_env_rates-each [] limit rates f g s u = ap ok (sym (append-nil rates))
fill_env_rates-each (env ∷ envs) limit rates (f, fs) g (s, ss) (u, us) =
    rw (tokens-env_rate limit env) (
      rw (stoll-to_string env f) (
        rw (stoll-to_string limit g) (
          ap (fill_env_rates (map (env_rate limit) envs)) (put_rate-Unlisted env limit rates u)
          ∙ fill_env_rates-each envs limit (rates ++ (env, limit) ∷ []) fs g ss
              (still_Unlisted env limit rates envs s us)
          ∙ ap ok (append_assoc rates ((env, limit) ∷ []) (limit_each envs limit)))))

no_rates : (envs : Envs) → All (λ e. Unlisted e []) envs
no_rates [] = tt
no_rates (env ∷ envs) = (tt, no_rates envs)

pub fill_env_rates-env_rates :
    (envs : Envs) (limit : ℤ)
    → All Fits envs
    → Fits limit
    → Separate envs
    → fill_env_rates (tokens_of (env_rates envs limit ++ codes "*") b'*') []
      ≡ ok (limit_each envs limit)
fill_env_rates-env_rates envs limit f g s =
    ap (λ words. fill_env_rates words [])
      (tokens_of-fields _ b'*'
        ∙ ap (fields b'*') (env_rates-delimited envs limit)
        ∙ fields-delimiter b'*' _
        ∙ fields-delimited b'*' (map (env_rate limit) envs) (env_rate-words limit envs))
    ∙ fill_env_rates-each envs limit [] f g s (no_rates envs)
