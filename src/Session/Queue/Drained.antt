-- ===== src/Session/Queue/Drained.antt =====
-- A working session answers every rule that waits in its submission queue (src/session).
use cheferd.Prelude.{
  ◌≡◌, refl, sym, ap, ◌∙◌, true, List, [], ◌∷◌, ◌++◌, append-nil, map, All, length, Result, ok,
  ◌>>=◌, Gives, Gives-mono,
}
use cheferd.Text.{Bytes}
use cheferd.Status.{PStatus, is_ok}
use cheferd.Session.Queue.{
  State, Sender, enqueue_responses, dequeue_rule, dequeued, session_round, rounds, answer,
}
use cheferd.Session.Queue.Ordered.{expected_all, owed, owed-session_round}

module _ {R S : Type 0} (sender : Sender R S) where
  -- The interface returns from the call that the rule asks for, in whatever state it is.
  abbrev pub Handles : Bytes → Type 0
  Handles rule = (s : S) → (r : PStatus × List R × S) × (sender.send_rule rule s ≡ ok r)

  session_round-next :
      (t : State R S) (rule : Bytes) (rest : List Bytes)
      → t.working_session ≡ true
      → t.submission_queue ≡ rule ∷ rest
      → Handles rule
      → (u : State R S) × (session_round sender t ≡ ok u)
        × (u.submission_queue ≡ rest)
        × (u.working_session ≡ true)
  unfolding session_round dequeue_rule is_ok enqueue_responses
  session_round-next t rule rest w q h =
      let ((result, responses, next), f) = h t.connection in
      (
        enqueue_responses responses (record t { submission_queue = rest; connection = next }),
        ap (λ (r : Result (PStatus × Bytes × State R S)). r >>= λ p. answer sender p.0 p.1 p.2)
              (ap (λ b. dequeued b t.submission_queue t) w ∙ ap (λ rules. dequeued true rules t) q)
            ∙ rw f refl,
        refl,
        w,
      )

  rounds-submission_queue :
      (rules : List Bytes) (t : State R S)
      → t.working_session ≡ true
      → t.submission_queue ≡ rules
      → All Handles rules
      → Gives
          (λ u. (u.submission_queue ≡ []) × (owed sender u ≡ owed sender t))
          (rounds sender (length rules) t)
  unfolding rounds
  rounds-submission_queue [] t w q h = (q, refl)
  rounds-submission_queue (rule ∷ rules) t w q (h, hs) =
      let (u, e, q', w') = session_round-next t rule rules w q h in
      rw e (
        Gives-mono (λ v. (v.submission_queue ≡ []) × (owed sender v ≡ owed sender u)) _ _
          (rounds-submission_queue rules u w' q' hs)
          (λ v k. (k.0, k.1 ∙ owed-session_round sender t u e)))

  -- If a session works and its interface returns from the call of each rule that waits, then as
  -- many rounds as rules wait return, leave no rule waiting, and the completion queue then has
  -- responses of the kinds it had and of the kinds that the rules are answered with, in order.
  pub rounds-completion_queue :
      (t : State R S)
      → t.working_session ≡ true
      → All Handles t.submission_queue
      → Gives
          (λ u.
            (u.submission_queue ≡ [])
            × (map sender.kind u.completion_queue
                ≡ map sender.kind t.completion_queue ++ expected_all sender t.submission_queue))
          (rounds sender (length t.submission_queue) t)
  rounds-completion_queue t w h =
      Gives-mono (λ u. (u.submission_queue ≡ []) × (owed sender u ≡ owed sender t)) _ _
        (rounds-submission_queue t.submission_queue t w refl h)
        (λ u k. (
          k.0,
          sym (append-nil (map sender.kind u.completion_queue))
              ∙ (ap (λ rules. map sender.kind u.completion_queue ++ expected_all sender rules)
                    (sym k.0)
                  ∙ k.1),
        ))
