-- ===== src/Session/Queue.antt =====
-- The queues of a session, which `DataPlaneSession`, `LocalControllerSession` and
-- `HandshakeSession` spell out alike (src/session), as a step relation: a step is one critical
-- section of the control application's thread or one round of the session's thread.
pub mod Ordered
pub mod Drained
use cheferd.Prelude.{
  ◌≡◌, ℕ, zero, suc, Bool, true, false, List, [], ◌∷◌, ◌++◌, map, Option, none, some, Result, ok,
  fail, ◌>>=◌, blocked, if◌then◌else◌,
}
use cheferd.Text.{Bytes}
use cheferd.Status.{PStatus, error, is_ok}

-- The queues, and the state S of the connection that the session's interface uses.
pub record State (R S : Type 0) : Type 0 where
  pub submission_queue : List Bytes
  pub completion_queue : List R
  pub working_session : Bool
  pub connection : S

-- SendRule of a class of session: its responses are those that it puts in the completion queue.
-- `kind` is the number that a response is made with, and `expected` the kinds that a rule is
-- answered with.
pub record Sender (R S : Type 0) : Type 0 where
  pub send_rule : Bytes → S → Result (PStatus × List R × S)
  pub kind : R → ℕ
  pub expected : Bytes → List ℕ
  pub send_rule-expected :
      (rule : Bytes) (s t : S) (result : PStatus) (responses : List R)
      → send_rule rule s ≡ ok (result, responses, t)
      → map kind responses ≡ expected rule

module _ {R S : Type 0} where
  unfoldable pub enqueue_rule : Bytes → State R S → State R S
  enqueue_rule rule st = record st { submission_queue = st.submission_queue ++ rule ∷ [] }

  unfoldable pub submit_rule : Bytes → State R S → PStatus × State R S
  unfolding enqueue_rule
  submit_rule rule st = (PStatus.ok, enqueue_rule rule st)

  unfoldable pub remove_session : State R S → State R S
  unfolding enqueue_rule
  remove_session st = enqueue_rule [] (record st { working_session = false })

  unfoldable pub enqueue_responses : List R → State R S → State R S
  enqueue_responses responses st = record st { completion_queue = st.completion_queue ++ responses }

  abbrev dequeued : Bool → List Bytes → State R S → Result (PStatus × Bytes × State R S)
  dequeued false rules st = ok (error, [], st)
  dequeued true [] st = fail blocked
  dequeued true (rule ∷ rest) st = ok (PStatus.ok, rule, record st { submission_queue = rest })

  -- The condition variable is waited for while the session works and no rule is there.
  unfoldable pub dequeue_rule : State R S → Result (PStatus × Bytes × State R S)
  dequeue_rule st = dequeued st.working_session st.submission_queue st

  abbrev taken : List R → State R S → Result (R × State R S)
  taken [] st = fail blocked
  taken (response ∷ rest) st = ok (response, record st { completion_queue = rest })

  unfoldable pub get_result : State R S → Result (R × State R S)
  get_result st = taken st.completion_queue st

  module _ (sender : Sender R S) where
    -- One round of the loop of StartSession.
    abbrev pub answer : PStatus → Bytes → State R S → Result (State R S)
    answer result rule st =
        if is_ok result
        then (do
          (sent, responses, next) ← sender.send_rule rule st.connection
          ok (enqueue_responses responses (record st { connection = next })))
        else ok st

    unfoldable pub session_round : State R S → Result (State R S)
    unfolding dequeue_rule enqueue_responses is_ok
    session_round st = do (result, rule, popped) ← dequeue_rule st; answer result rule popped

    -- So many rounds of the loop.
    unfoldable pub rounds : ℕ → State R S → Result (State R S)
    rounds zero st = ok st
    rounds (suc n) st = do next ← session_round st; rounds n next

    -- What a session that starts as `first` can do, with the rules that were submitted to it and
    -- the responses that were taken from it, oldest first.
    pub data Run (first : State R S) : List Bytes → List R → State R S → Type 0 where
      here : Run first [] [] first
      submitted :
          {rules : List Bytes} {results : List R} {t : State R S} (rule : Bytes)
          → Run first rules results t
          → Run first (rules ++ rule ∷ []) results (submit_rule rule t).1
      removed :
          {rules : List Bytes} {results : List R} {t : State R S}
          → Run first rules results t
          → Run first (rules ++ [] ∷ []) results (remove_session t)
      worked :
          {rules : List Bytes} {results : List R} {t u : State R S}
          → Run first rules results t
          → session_round t ≡ ok u
          → Run first rules results u
      got :
          {rules : List Bytes} {results : List R} {t u : State R S} {response : R}
          → Run first rules results t
          → get_result t ≡ ok (response, u)
          → Run first rules (results ++ response ∷ []) u
