-- ===== src/Core/Vanilla/Allocation.antt =====
-- The first phase of the vanilla policy hands out what it takes, and never more than there is.
use native.Mathlib.Nat.{div-mul-le_self}
use cheferd.Prelude.{
  ℕ, zero, suc, ◌+◌, ◌*◌, ◌/◌, ◌≤◌, ◌<◌, ◌≡◌, refl, sym, ap, ◌∙◌, false, List, [], ◌∷◌, arith,
  length,
}
use cheferd.Prelude.Int.{ℤ, pos, negsuc, pos_part, neg_part, ◌+ℤ◌, ◌-ℤ◌, ◌/ℤ◌, ◌≤ℤ◌, int_laws}
use cheferd.Text.{Bytes, same, same_refl, same_iff}
use cheferd.Dict.{Dict, put, touch, value}
use cheferd.Dict.Laws.{Fresh, Distinct, lookup-put, lookup-emplace}
use cheferd.Core.Vanilla.{Shares, share_job, first_phase}

-- The sum of the entries of some jobs.
unfoldable pub total : List Bytes → Dict ℤ → ℤ
total [] d = pos 0
total (k ∷ ks) d = value k d +ℤ total ks d

pub value-put_self : (k : Bytes) (z : ℤ) (d : Dict ℤ) → value k (put k z d) ≡ z
value-put_self k z d = rw (lookup-put k k z d, same_refl k) refl

pub value-put_ne :
    (k j : Bytes) (z : ℤ) (d : Dict ℤ) → same k j ≡ false → value j (put k z d) ≡ value j d
value-put_ne k j z d h = rw (lookup-put k j z d, h) refl

pub value-touch : (k j : Bytes) (d : Dict ℤ) → value j (touch k d) ≡ value j d
value-touch k j d = rw (lookup-emplace k j (pos 0) d) (ground (arith, same_iff k j))

one-le-share : (l n : ℕ) → n ≤ l → 0 < n → 1 ≤ l / n
one-le-share l n h k = grind arith

quotient_bound : (q m l : ℕ) → 1 ≤ q → q * suc m ≤ l → m + q ≤ l
quotient_bound zero m l h k = elim h [ ]
quotient_bound (suc q) m l h k = grind arith

-- A fair share is 1 at least, and leaves 1 at least for each other job.
share_bounds :
    (left : ℤ) (m : ℕ)
    → pos (suc m) ≤ℤ left
    → (pos 1 ≤ℤ left /ℤ suc m)
      × (pos_part (left /ℤ suc m) + m + neg_part left ≤ pos_part left + neg_part (left /ℤ suc m))
unfolding ◌/ℤ◌
share_bounds (pos l) m h =
    let first : 1 ≤ l / suc m = one-le-share l (suc m) (omega arith) (omega arith) in
    (
      omega (arith, first),
      omega (arith, quotient_bound (l / suc m) m l first (div-mul-le_self l (suc m))),
    )
share_bounds (negsuc l) m h = absurd (omega arith)

-- What a job is given.
rate_of : Bytes → ℕ → Shares → ℤ
rate_of app n p = value app (share_job app n p).rates

module _ (app : Bytes) (n : ℕ) (p : Shares) where
  left-share_job : (share_job app n p).left_iops ≡ p.left_iops -ℤ rate_of app n p
  unfolding share_job rate_of
  left-share_job = ap (λ z. p.left_iops -ℤ z) (sym (value-put_self app _ p.rates))

  rates-share_job :
      (j : Bytes) → same app j ≡ false → value j (share_job app n p).rates ≡ value j p.rates
  unfolding share_job
  rates-share_job j h = value-put_ne app j _ p.rates h

  -- A job gets the fair share at most, unless it is a new one and the share is below 1.
  rate-le-share : pos 1 ≤ℤ p.left_iops /ℤ n → rate_of app n p ≤ℤ p.left_iops /ℤ n
  unfolding share_job rate_of
  rate-le-share h =
      rw (value-put_self app _ p.rates)
        (ground (arith, value-put_self app (pos 1) p.demands, value-touch app app p.demands))

-- There stays at least 1 for each job that is left.
left-share_job-le :
    (app : Bytes) (m : ℕ) (p : Shares)
    → pos (suc m) ≤ℤ p.left_iops
    → pos m ≤ℤ (share_job app (suc m) p).left_iops
left-share_job-le app m p h = rw (left-share_job app (suc m) p) (
    omega (
      int_laws,
      rate-le-share app (suc m) p (share_bounds p.left_iops m h).0,
      (share_bounds p.left_iops m h).1,
    ))

rates-first_phase :
    (apps : List Bytes) (p : Shares) (j : Bytes)
    → Fresh j apps
    → value j (first_phase apps p).rates ≡ value j p.rates
unfolding first_phase
rates-first_phase [] p j f = refl
rates-first_phase (app ∷ apps) p j (f, fs) =
    rates-first_phase apps (share_job app (suc (length apps)) p) j fs
    ∙ rates-share_job app (suc (length apps)) p j f

taken : (a b c e l r : ℤ) → a ≡ r → b +ℤ c ≡ e → e ≡ l -ℤ r → (a +ℤ b) +ℤ c ≡ l
taken a b c e l r f g h = omega (
  int_laws,
  ap pos_part f,
  ap neg_part f,
  ap pos_part g,
  ap neg_part g,
  ap pos_part h,
  ap neg_part h,
)

-- Over jobs that occur once each, the rates that the first phase gives and what it leaves make up
-- what there was.
pub total-first_phase :
    (apps : List Bytes) (p : Shares)
    → Distinct apps
    → total apps (first_phase apps p).rates +ℤ (first_phase apps p).left_iops ≡ p.left_iops
unfolding total first_phase rate_of
total-first_phase [] p h = omega int_laws
total-first_phase (app ∷ apps) p (f, h) =
    let q : Shares = share_job app (suc (length apps)) p in
    taken _ _ _ q.left_iops p.left_iops (rate_of app (suc (length apps)) p)
      (rates-first_phase apps q app f) (total-first_phase apps q h)
      (left-share_job app (suc (length apps)) p)

-- If there is at least 1 for each job, the first phase leaves 0 or more: it does not give more than
-- there is.
pub left-first_phase :
    (apps : List Bytes) (p : Shares)
    → pos (length apps) ≤ℤ p.left_iops
    → pos 0 ≤ℤ (first_phase apps p).left_iops
unfolding first_phase
left-first_phase [] p h = h
left-first_phase (app ∷ apps) p h =
    left-first_phase apps (share_job app (suc (length apps)) p)
      (left-share_job-le app (length apps) p h)
