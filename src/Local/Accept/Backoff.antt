-- ===== src/Local/Accept/Backoff.antt =====
-- How long the loop that accepts stages can go on (src/networking/local_connection_manager.cpp).
use cheferd.Prelude.{
  ℕ, zero, suc, ◌+◌, ◌*◌, ◌≤◌, ◌<◌, ◌≡◌, refl, sym, ap, ◌∙◌, Bool, true, false, ◌&&◌, List, Option,
  arith, if◌then◌else◌, ltb, leb, Result, ok, fail, ◌>>=◌, undefined, returns, inl, inr, Bool-cases,
}
use cheferd.Prelude.Int.{ℤ, minus_one, ◌==ℤ◌}
use cheferd.Session.DataPlane.{StageResponse}
use cheferd.Local.State.{register_stage_session}
use cheferd.Local.Accept.Sockets.{Kernel}
use cheferd.Local.Accept.{
  Accepting, initial_connection_delay, back_off, accept_connections, accept_round, accept_rounds,
}

-- The delay after so many failures in a row.
abbrev pub delay_after : ℕ → ℕ
delay_after zero = initial_connection_delay
delay_after (suc k) = delay_after k * 2

all_below : ℕ → (ℕ → Bool) → Bool
all_below zero p = true
all_below (suc n) p = p n && all_below n p

all_below_sound : (n : ℕ) (p : ℕ → Bool) (k : ℕ) → all_below n p ≡ true → k < n → p k ≡ true
unfolding all_below
all_below_sound zero p k h l = absurd (omega arith)
all_below_sound (suc n) p k h l = ground (arith, all_below_sound n p k)

short_delays : all_below 12 (λ k. leb (delay_after k) 1024000000) ≡ true
unfolding all_below
short_delays = refl

-- Below the thirteenth failure in a row the delay is doubled, and the thirteenth overflows.
back_off-delay_after :
    (k : ℕ)
    → k ≤ 12
    → back_off (delay_after k) ≡ (if ltb k 12 then ok (delay_after (suc k)) else fail undefined)
unfolding back_off
back_off-delay_after k h = elim (Bool-cases (ltb k 12)) [
  | inl e ↦
      let short : leb (delay_after k) 1024000000 ≡ true =
        all_below_sound 12 _ k short_delays (ground arith) in
      rw e (ground arith)
  | inr e ↦ let last : k ≡ 12 = ground arith in rw last refl
]

-- Whether no thirteen calls in a row fail, of so many, after `failures` that have failed.
unfoldable pub survives : {S : Type 0} → (S → ℤ × S) → ℕ → ℕ → S → Bool
survives accepts failures zero s = true
survives accepts failures (suc n) s = elim ((accepts s).0 ==ℤ minus_one) [
  | true ↦
      let rest = survives accepts (suc failures) n (accepts s).1 in
      if ltb failures 12 then rest else false
  | false ↦ survives accepts 0 n (accepts s).1
]

module _ {S : Type 0} (accepts : S → ℤ × S) (failures n : ℕ) (s : S) where
  survives-failed :
      ((accepts s).0 ==ℤ minus_one) ≡ true
      → survives accepts failures (suc n) s
        ≡ (if ltb failures 12 then survives accepts (suc failures) n (accepts s).1 else false)
  unfolding survives
  survives-failed e = rw (e, survives) refl

  survives-accepted :
      ((accepts s).0 ==ℤ minus_one) ≡ false
      → survives accepts failures (suc n) s ≡ survives accepts 0 n (accepts s).1
  unfolding survives
  survives-accepted e = rw (e, survives) refl

bind_choice :
    {A B : Type 0} (b : Bool) (x : A) (f : A → Result B)
    → ((if b then ok x else fail undefined) >>= f) ≡ (if b then f x else fail undefined)
bind_choice true x f = refl
bind_choice false x f = refl

module _ {D S : Type 0} (kernel : Kernel S) (responses : ℤ → List (Option (StageResponse D))) where
  -- A round, where `accept` fails and where it does not.
  failed_round :
      (k : ℕ) (a : Accepting D S)
      → k ≤ 12
      → a.delay_t ≡ delay_after k
      → ((accept_connections kernel a.manager a.system).0 ==ℤ minus_one) ≡ true
      → accept_round kernel responses a ≡ (
          if ltb k 12
          then ok (record a {
            delay_t = delay_after (suc k);
            system = (accept_connections kernel a.manager a.system).1;
          })
          else fail undefined)
  unfolding accept_round
  failed_round k a h d e = rw e (rw d (rw (back_off-delay_after k h) (bind_choice (ltb k 12) _ _)))

  abbrev next_of : Accepting D S → S
  next_of a = (accept_connections kernel a.manager a.system).1

  accepted_round :
      (a : Accepting D S)
      → ((accept_connections kernel a.manager a.system).0 ==ℤ minus_one) ≡ false
      → accept_round kernel responses a
        ≡ ok (record {
          delay_t = initial_connection_delay;
          manager = record a.manager { index_t = a.manager.index_t + 1 };
          app =
              register_stage_session a.app
                (responses (accept_connections kernel a.manager a.system).0);
          system = next_of a;
        })
  unfolding accept_round
  accepted_round a e = rw e refl

  -- The loop is defined exactly as long as no thirteen calls of `accept` in a row fail: the delay
  -- is doubled at each failure, is an `int`, and starts again behind a connection.
  pub accept_rounds-survives :
      (n k : ℕ) (a : Accepting D S)
      → k ≤ 12
      → a.delay_t ≡ delay_after k
      → returns (accept_rounds kernel responses n a)
        ≡ survives (accept_connections kernel a.manager) k n a.system
  unfolding accept_rounds accept_connections survives
  accept_rounds-survives zero k a h d = refl
  accept_rounds-survives (suc n) k a h d =
      let accepts : S → ℤ × S = accept_connections kernel a.manager in
      let then_rounds : Result (Accepting D S) → Bool =
        λ r. returns (r >>= accept_rounds kernel responses n) in
      elim (Bool-cases ((accepts a.system).0 ==ℤ minus_one)) [
        | inl e ↦
            let choice = λ (b : Bool).
              (if b
                then ok (record a { delay_t = delay_after (suc k); system = next_of a })
                else fail undefined) in
            ap then_rounds (failed_round k a h d e) ∙ elim (Bool-cases (ltb k 12)) [
              | inl l ↦
                  ap (λ b. then_rounds (choice b)) l
                  ∙ accept_rounds-survives n (suc k)
                      (record a { delay_t = delay_after (suc k); system = next_of a })
                      (ground arith) refl
                  ∙ sym (survives-failed accepts k n a.system e ∙ rw l refl)
              | inr l ↦
                  ap (λ b. then_rounds (choice b)) l
                  ∙ sym (survives-failed accepts k n a.system e ∙ rw l refl)
            ]
        | inr e ↦
            ap then_rounds (accepted_round a e)
            ∙ accept_rounds-survives n 0 _ (omega arith) refl
            ∙ sym (survives-accepted accepts k n a.system e)
      ]
