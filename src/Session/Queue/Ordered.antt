-- ===== src/Session/Queue/Ordered.antt =====
-- A session answers its rules in their order (src/session).
use cheferd.Prelude.{
  ◌≡◌, refl, sym, ap, ◌∙◌, subst, ℕ, Bool, true, false, List, [], ◌∷◌, ◌++◌, map, append_assoc, ok,
  fail, ◌>>=◌, Result-cases, ok-injective, fail-ne-ok, inl, inr,
}
use cheferd.Text.{Bytes}
use cheferd.Status.{PStatus, is_ok}
use cheferd.Session.Queue.{
  State, Sender, enqueue_rule, submit_rule, remove_session, enqueue_responses, dequeue_rule,
  dequeued, taken, get_result, session_round, Run, here, submitted, removed, worked, got, answer,
}

pub map-append_lem {ℓ κ} :
    {A : Type ℓ} {B : Type κ} (f : A → B) (xs ys : List A) → map f (xs ++ ys) ≡ map f xs ++ map f ys
map-append_lem f [] ys = refl
map-append_lem f (x ∷ xs) ys = ap (◌∷◌ (f x)) (map-append_lem f xs ys)

module _ {R S : Type 0} (sender : Sender R S) where
  -- The kinds of the responses that rules are answered with.
  abbrev pub expected_all : List Bytes → List ℕ
  expected_all [] = []
  expected_all (rule ∷ rules) = sender.expected rule ++ expected_all rules

  expected_all-append :
      (xs ys : List Bytes) → expected_all (xs ++ ys) ≡ expected_all xs ++ expected_all ys
  expected_all-append [] ys = refl
  expected_all-append (x ∷ xs) ys =
      ap (◌++◌ (sender.expected x)) (expected_all-append xs ys)
      ∙ sym (append_assoc (sender.expected x) (expected_all xs) (expected_all ys))

  -- The kinds of the responses that are still to be taken.
  abbrev pub owed : State R S → List ℕ
  owed t = map sender.kind t.completion_queue ++ expected_all t.submission_queue

  owed-enqueue_rule :
      (rule : Bytes) (t : State R S)
      → owed (enqueue_rule rule t) ≡ owed t ++ expected_all (rule ∷ [])
  unfolding enqueue_rule
  owed-enqueue_rule rule t =
      ap (◌++◌ (map sender.kind t.completion_queue))
        (expected_all-append t.submission_queue (rule ∷ []))
      ∙ sym (append_assoc (map sender.kind t.completion_queue) _ _)

  owed-answer :
      (rule : Bytes) (t u : State R S)
      → answer sender PStatus.ok rule t ≡ ok u
      → owed u
        ≡ map sender.kind t.completion_queue
          ++ (sender.expected rule ++ expected_all t.submission_queue)
  unfolding is_ok enqueue_responses
  owed-answer rule t u e = elim (Result-cases (sender.send_rule rule t.connection)) [
    | inl ((result, responses, next), f) ↦
        let done : ok (enqueue_responses responses (record t { connection = next })) ≡ ok u =
          rw f at e in
        subst
          (λ v.
            owed v
            ≡ map sender.kind t.completion_queue
              ++ (sender.expected rule ++ expected_all t.submission_queue))
          (ok-injective done)
          (ap (λ ks. ks ++ expected_all t.submission_queue)
              (map-append_lem sender.kind t.completion_queue responses
                ∙ ap (◌++◌ (map sender.kind t.completion_queue))
                    (sender.send_rule-expected rule t.connection next result responses f))
            ∙ append_assoc (map sender.kind t.completion_queue) (sender.expected rule)
                (expected_all t.submission_queue))
    | inr (x, f) ↦ let failed : fail x ≡ ok u = rw f at e in absurd (fail-ne-ok failed)
  ]

  owed-dequeued :
      (working : Bool) (rules : List Bytes) (t u : State R S)
      → t.submission_queue ≡ rules
      → (dequeued working rules t >>= λ (r : PStatus × Bytes × State R S).
          answer sender r.0 r.1 r.2)
        ≡ ok u
      → owed u ≡ owed t
  unfolding is_ok
  owed-dequeued false rules t u q e = ap owed (sym (ok-injective e))
  owed-dequeued true [] t u q e = absurd (fail-ne-ok e)
  owed-dequeued true (rule ∷ rest) t u q e =
      owed-answer rule (record t { submission_queue = rest }) u e
      ∙ ap (λ rules. map sender.kind t.completion_queue ++ expected_all rules) (sym q)

  pub owed-session_round : (t u : State R S) → session_round sender t ≡ ok u → owed u ≡ owed t
  unfolding session_round dequeue_rule
  owed-session_round t u e = owed-dequeued t.working_session t.submission_queue t u refl e

  owed-taken :
      (responses : List R) (t u : State R S) (response : R)
      → t.completion_queue ≡ responses
      → taken responses t ≡ ok (response, u)
      → owed t ≡ sender.kind response ∷ owed u
  owed-taken [] t u response q e = absurd (fail-ne-ok e)
  owed-taken (r ∷ rest) t u response q e =
      ap (λ rs. map sender.kind rs ++ expected_all t.submission_queue) q
      ∙ ap (λ p. sender.kind p.0 ∷ owed p.1) (ok-injective e)

  -- Of a session that starts with empty queues: the kinds of the responses that were taken from
  -- it, and then those of the responses that it still owes, are what the rules submitted to it are
  -- answered with, in the order of submission; whatever rounds and removals stand between.
  pub Run-owed :
      (first t : State R S) (rules : List Bytes) (results : List R)
      → owed first ≡ []
      → Run sender first rules results t
      → map sender.kind results ++ owed t ≡ expected_all rules
  unfolding submit_rule remove_session get_result
  Run-owed first t rules results h here = h
  Run-owed first t rules results h (submitted {rules = before} {t = s} rule r) =
      ap (◌++◌ (map sender.kind results)) (owed-enqueue_rule rule s)
      ∙ sym (append_assoc (map sender.kind results) (owed s) (expected_all (rule ∷ [])))
      ∙ ap (λ ks. ks ++ expected_all (rule ∷ [])) (Run-owed first s before results h r)
      ∙ sym (expected_all-append before (rule ∷ []))
  Run-owed first t rules results h (removed {rules = before} {t = s} r) =
      ap (◌++◌ (map sender.kind results))
        (owed-enqueue_rule [] (record s { working_session = false }))
      ∙ sym (append_assoc (map sender.kind results) (owed s) (expected_all ([] ∷ [])))
      ∙ ap (λ ks. ks ++ expected_all ([] ∷ [])) (Run-owed first s before results h r)
      ∙ sym (expected_all-append before ([] ∷ []))
  Run-owed first t rules results h (worked {t = s} r e) =
      ap (◌++◌ (map sender.kind results)) (owed-session_round s t e)
      ∙ Run-owed first s rules results h r
  Run-owed first t rules results h (got {results = before} {t = s} {response = response} r e) =
      ap (λ ks. ks ++ owed t) (map-append_lem sender.kind before (response ∷ []))
      ∙ append_assoc (map sender.kind before) (sender.kind response ∷ []) (owed t)
      ∙ ap (◌++◌ (map sender.kind before)) (sym (owed-taken s.completion_queue s t response refl e))
      ∙ Run-owed first s rules before h r
