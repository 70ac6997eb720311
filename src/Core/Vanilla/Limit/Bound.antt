-- ===== src/Core/Vanilla/Limit/Bound.antt =====
-- The sum of the rates that the vanilla policy enforces.
use native.Mathlib.Nat.{div-add-mod, mod-lt}
use cheferd.Prelude.{
  ℕ, suc, ◌+◌, ◌*◌, ◌/◌, ◌≤◌, ◌<◌, ◌≡◌, refl, subst, ap, Bool, true, false, List, [], ◌∷◌, arith,
  length, Gives, Gives-mono,
}
use cheferd.Prelude.Int.{ℤ, pos, negsuc, pos_part, neg_part, ◌+ℤ◌, ◌/ℤ◌, ◌≤ℤ◌, int_laws}
use cheferd.Text.{Bytes}
use cheferd.Dict.{Dict, keys}
use cheferd.Dict.Laws.{Distinct}
use cheferd.Dict.Ordered.{Ordered, Ordered-Distinct}
use cheferd.Core.State.{Core, Locations}
use cheferd.Core.Vanilla.{Shares, shares_of, first_phase, distribute}
use cheferd.Core.Vanilla.Allocation.{total, total-first_phase, left-first_phase}
use cheferd.Core.Vanilla.Enforced.{Near}
use cheferd.Core.Vanilla.Limit.{
  AllReachable, AllReachable-Kept, Spread, Enforced, second_phase-Near,
}

-- How far an enforced rate may be from the assigned one.
abbrev pub slack : Bool → ℕ
slack true = 0
slack false = 9

-- a and b differ by at most m.
abbrev pub Within : ℕ → ℤ → ℤ → Type 0
Within m a b = (a ≤ℤ b +ℤ pos m) × (b ≤ℤ a +ℤ pos m)

Near-Within : (b : Bool) (a e : ℤ) → Near b a e → Within (slack b) e a
Near-Within true a e h =
    (omega (int_laws, ap pos_part h, ap neg_part h), omega (int_laws, ap pos_part h, ap neg_part h))
Near-Within false a e h = (omega int_laws, omega int_laws)

Within-add :
    (m n q k m' k' : ℕ) (a b v t : ℤ)
    → m' ≡ m + n
    → k' ≡ q + k
    → Within m a (v +ℤ pos q)
    → Within n b (t +ℤ pos k)
    → Within m' (a +ℤ b) ((v +ℤ t) +ℤ pos k')
Within-add m n q k m' k' a b v t x y (h, h') (g, g') = (omega int_laws, omega int_laws)

Spread-Within :
    (s next : Core) (q : ℕ) (apps : List Bytes)
    → Spread s (pos q) apps next
    → Within
        (length apps * slack s.change_in_system)
        (total apps next.job_previous_rates)
        (total apps s.job_rates +ℤ pos (length apps * q))
unfolding total
Spread-Within s next q [] h = (omega int_laws, omega int_laws)
Spread-Within s next q (app ∷ apps) (h, hs) =
    Within-add (slack s.change_in_system) (length apps * slack s.change_in_system) q
      (length apps * q) _ _ _ _ _ _ (grind arith) (grind arith)
      (Near-Within s.change_in_system _ _ h) (Spread-Within s next q apps hs)

-- The shares of what is left come to at most that, and to less than it by at most one per job.
shares_of_left : (l n : ℕ) → 1 ≤ n → (n * (l / n) ≤ l) × (l < n * (l / n) + n)
shares_of_left l n h = (omega (arith, div-add-mod l n), omega (arith, div-add-mod l n, mod-lt l h))

share-pos : (left : ℤ) (n : ℕ) → pos 0 ≤ℤ left → left /ℤ n ≡ pos (pos_part left / n)
unfolding ◌/ℤ◌
share-pos (pos l) n h = refl
share-pos (negsuc l) n h = absurd (omega arith)

-- What is enforced, from what is given first, what is left and how it is spread.
limit_bounds :
    (n w q : ℕ) (enforced rates left limit : ℤ)
    → pos 0 ≤ℤ left
    → rates +ℤ left ≡ limit
    → (n * q ≤ pos_part left) × (pos_part left < n * q + n)
    → Within (n * w) enforced (rates +ℤ pos (n * q))
    → (enforced ≤ℤ limit +ℤ pos (n * w)) × (limit ≤ℤ enforced +ℤ pos (n * suc w))
limit_bounds n w q enforced rates (pos l) limit p e (a, b) (c, d) =
    (omega (int_laws, ap pos_part e, ap neg_part e), omega (int_laws, ap pos_part e, ap neg_part e))
limit_bounds n w q enforced rates (negsuc l) limit p e (a, b) (c, d) = absurd (omega arith)

length-keys {ℓ} : {V : Type ℓ} (d : Dict V) → length (keys d) ≡ length d
length-keys [] = refl
length-keys ((k, v) ∷ d) = ap suc (length-keys d)

-- What a distribution comes to: at most the limit of the system, and less than it by less than one
-- for each job, both up to the slack.
abbrev pub Limited : Core → Core → Type 0
Limited s next =
    let jobs = length s.job_location_tracker in
    let enforced = total (keys s.job_location_tracker) next.job_previous_rates in
    (enforced ≤ℤ s.maximum_limit +ℤ pos (jobs * slack s.change_in_system))
    × (s.maximum_limit ≤ℤ enforced +ℤ pos (jobs * suc (slack s.change_in_system)))

-- With the tracker's keys in order, at least one job, a session for every local controller, a stage
-- for every job and a limit of at least 1 for each job, both phases return. The rates that the jobs
-- were last sent then come to the limit of the system: to no more than it, and to less by at most 1
-- for each job, both with 9 more for each job while nothing has changed in the system.
pub distribute-Limited :
    (s : Core)
    → Ordered (keys s.job_location_tracker)
    → 1 ≤ length s.job_location_tracker
    → pos (length s.job_location_tracker) ≤ℤ s.maximum_limit
    → AllReachable s s.job_location_tracker
    → Gives (λ r. Limited s r.0) (distribute s)
unfolding distribute
distribute-Limited s o n m c =
    let jobs : Dict Locations = s.job_location_tracker in
    let p : Shares = first_phase (keys jobs) (shares_of s) in
    let t : Core = record s { job_demands = p.demands; job_rates = p.rates } in
    let distinct : Distinct (keys jobs) = Ordered-Distinct (keys jobs) o in
    let same_length : length (keys jobs) ≡ length jobs = length-keys jobs in
    let q : ℕ = pos_part p.left_iops / length jobs in
    let rest : pos 0 ≤ℤ p.left_iops =
      left-first_phase (keys jobs) (shares_of s) (rw same_length m) in
    Gives-mono (λ r. Enforced t (p.left_iops /ℤ length jobs) (keys jobs) r.0) (λ r. Limited s r.0) _
      (second_phase-Near t s.active_op p.left_iops (length jobs) jobs [] distinct
        (AllReachable-Kept s t jobs (refl, (refl, (refl, λ a h. h))) c))
      (λ (next, u) (near, kept).
        limit_bounds (length jobs) (slack s.change_in_system) q _ (total (keys jobs) p.rates)
          p.left_iops s.maximum_limit rest (total-first_phase (keys jobs) (shares_of s) distinct)
          (shares_of_left (pos_part p.left_iops) (length jobs) n)
          (subst
            (λ k.
              Within (k * slack s.change_in_system) (total (keys jobs) next.job_previous_rates)
                (total (keys jobs) p.rates +ℤ pos (k * q)))
            same_length
            (Spread-Within t next q (keys jobs) (
              subst (λ z. Spread t z (keys jobs) next) (share-pos p.left_iops (length jobs) rest)
                near))))
