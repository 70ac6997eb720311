-- ===== src/Core/Leftover/Shared.antt =====
-- The first phase of the leftover policy hands out what it takes, and never more than there is
-- (src/controller/core_control_application.cpp).
use native.Mathlib.Nat.{div-le_self}
use cheferd.Prelude.{
  ℕ, suc, ◌/◌, ◌≤◌, ◌<◌, ◌≡◌, refl, sym, ap, ◌∙◌, subst, false, List, [], ◌∷◌, arith, length, ok,
  ok-injective, bind-Steps, All,
}
use cheferd.Prelude.Int.{ℤ, pos, negsuc, pos_part, neg_part, ◌+ℤ◌, ◌≤ℤ◌, int_laws}
use cheferd.Text.{Bytes, same}
use cheferd.Dict.{Dict, keys, value}
use cheferd.Dict.Laws.{Fresh, Distinct}
use cheferd.Rules.Raw.{u64_mod}
use cheferd.Core.State.{Core, Locations, StageResponse}
use cheferd.Core.Vanilla.Allocation.{total, value-put_self, value-put_ne}
use cheferd.Core.Leftover.Arithmetic.{Floats, IsRounded, to_ulong, sub_ulong}
use cheferd.Core.Leftover.{
  Usage, first_rate, fair_share_of, threshold_value, share_job, first_phase,
}
use cheferd.Core.Leftover.Measured.{total_app_rate}

-- A rate between 0 and what is left is taken from it without a wrap.
taken_ulong :
    (rate : ℤ) (left limit : ℕ)
    → pos 0 ≤ℤ rate
    → rate ≤ℤ pos left
    → left ≤ limit
    → limit < u64_mod
    → (rate +ℤ pos (sub_ulong left (to_ulong rate)) ≡ pos left)
      × (sub_ulong left (to_ulong rate) ≤ limit)
unfolding to_ulong sub_ulong ◌+ℤ◌
taken_ulong (pos k) left limit p h b w = ground arith
taken_ulong (negsuc k) left limit p h b w = absurd (omega arith)

abbrev Takes : ℤ → ℤ → ℤ → Type 0
Takes a b c = a +ℤ b ≡ c

nothing_given : {a b : ℕ} → a ≡ b → Takes (pos 0) (pos a) (pos b)
nothing_given e = omega (int_laws, e)

more_given : (r t v l m : ℤ) → Takes r m l → Takes t v m → Takes (r +ℤ t) v l
more_given r t v l m f g =
    omega (int_laws, ap pos_part f, ap neg_part f, ap pos_part g, ap neg_part g)

module _ {F D : Type 0} (floats : Floats F D) where
  -- Numbers up to a limit are exact as a `float`.
  abbrev pub Exact : ℕ → Type 0
  Exact limit = (n : ℕ) → n ≤ limit → floats.long_of (floats.float_of (pos n)) ≡ pos n

  -- What the phase takes for a job.
  rate_of : Bytes → ℤ → ℕ → Usage → ℤ
  rate_of app used n u =
      first_rate floats (value app u.demands) used (fair_share_of floats u.left_iops n)

  module _ (app : Bytes) (used : ℤ) (n : ℕ) (u : Usage) where
    value-share_job : value app (share_job floats app used n u).rates ≡ rate_of app used n u
    unfolding share_job rate_of
    value-share_job = value-put_self app _ u.rates

    others-share_job :
        (j : Bytes)
        → same app j ≡ false
        → value j (share_job floats app used n u).rates ≡ value j u.rates
    unfolding share_job
    others-share_job j h = value-put_ne app j _ u.rates h

    left-share_job :
        (share_job floats app used n u).left_iops
        ≡ sub_ulong u.left_iops (to_ulong (rate_of app used n u))
    unfolding share_job rate_of
    left-share_job = refl

  first_rate-le :
      IsRounded floats
      → (demand used : ℤ) (left n : ℕ)
      → first_rate floats demand used (fair_share_of floats left n)
        ≤ℤ floats.long_of (fair_share_of floats left n)
  unfolding first_rate
  first_rate-le rounded demand used left n =
      let fair_share : F = fair_share_of floats left n in
      ground (
        arith,
        rounded.below-long_of demand fair_share,
        rounded.long_of-mono
            (floats.float_plus (floats.float_of used) (threshold_value floats demand used))
            fair_share,
      )

  rates-first_phase :
      (s : Core) (d_stats : Dict StageResponse) (sent : List Bytes) (jobs : Dict Locations)
      (u v : Usage) (j : Bytes)
      → Fresh j (keys jobs)
      → first_phase floats s d_stats sent jobs u ≡ ok v
      → value j v.rates ≡ value j u.rates
  unfolding first_phase
  rates-first_phase s d_stats sent [] u v j f e =
      ap (λ (w : Usage). value j w.rates) (sym (ok-injective e))
  rates-first_phase s d_stats sent ((app, locations) ∷ rest) u v j (f, fs) e =
      let (used, measured, done) =
        bind-Steps (total_app_rate floats s d_stats sent app locations (pos 0)) _ e in
      rates-first_phase s d_stats sent rest (share_job floats app used (suc (length rest)) u) v j fs
        done
      ∙ others-share_job app used (suc (length rest)) u j f

  module _ (rounded : IsRounded floats) (limit : ℕ) (exact : Exact limit) where
    rate-le-left :
        (app : Bytes) (used : ℤ) (n : ℕ) (u : Usage)
        → u.left_iops ≤ limit
        → rate_of app used n u ≤ℤ pos u.left_iops
    unfolding rate_of
    rate-le-left app used n u b =
        let share : u.left_iops / n ≤ u.left_iops = div-le_self u.left_iops n in
        let fair : floats.long_of (fair_share_of floats u.left_iops n) ≡ pos (u.left_iops / n) =
          exact (u.left_iops / n) (omega arith) in
        omega (
          arith,
          first_rate-le rounded (value app u.demands) used u.left_iops n,
          ap pos_part fair,
          ap neg_part fair,
        )

    -- If the numbers up to the limit, which is below 2 ^ 64, are exact as a `float`, and the rates
    -- of the first phase are 0 or more, then those rates, of jobs that occur once each, and what
    -- the phase leaves make up what there was: the phase hands out no more than there is.
    pub first_phase-left_iops :
        (s : Core) (d_stats : Dict StageResponse) (sent : List Bytes) (jobs : Dict Locations)
        (u v : Usage)
        → limit < u64_mod
        → u.left_iops ≤ limit
        → Distinct (keys jobs)
        → first_phase floats s d_stats sent jobs u ≡ ok v
        → All (λ job. pos 0 ≤ℤ value job v.rates) (keys jobs)
        → total (keys jobs) v.rates +ℤ pos v.left_iops ≡ pos u.left_iops
    unfolding first_phase total
    first_phase-left_iops s d_stats sent [] u v w b h e p =
        nothing_given (ap (λ (t : Usage). t.left_iops) (sym (ok-injective e)))
    first_phase-left_iops s d_stats sent ((app, locations) ∷ rest) u v w b (f, h) e (p, ps) =
        let n : ℕ = suc (length rest) in
        let (used, measured, done) =
          bind-Steps (total_app_rate floats s d_stats sent app locations (pos 0)) _ e in
        let t : Usage = share_job floats app used n u in
        let given : value app v.rates ≡ rate_of app used n u =
          rates-first_phase s d_stats sent rest t v app f done ∙ value-share_job app used n u in
        let rate : ℤ = rate_of app used n u in
        let (takes, still) =
          taken_ulong rate u.left_iops limit (subst (λ z. pos 0 ≤ℤ z) given p)
            (rate-le-left app used n u b) b w in
        let left : t.left_iops ≡ sub_ulong u.left_iops (to_ulong rate) =
          left-share_job app used n u in
        more_given (value app v.rates) (total (keys rest) v.rates) (pos v.left_iops)
          (pos u.left_iops) (pos t.left_iops)
          (subst (λ z. Takes z (pos t.left_iops) (pos u.left_iops)) (sym given)
            (subst (λ m. Takes rate (pos m) (pos u.left_iops)) (sym left) takes))
          (first_phase-left_iops s d_stats sent rest t v w (subst (λ m. m ≤ limit) (sym left) still)
            h done ps)
