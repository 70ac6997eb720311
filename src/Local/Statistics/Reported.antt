-- ===== src/Local/Statistics/Reported.antt =====
-- The statistics of the stages, and the stages that are found lost
-- (src/controller/local_control_application.cpp).
use cheferd.Prelude.{
  ℕ, suc, ◌≡◌, refl, sym, ap, subst, ◌∙◌, Bool, some, List, [], ◌∷◌, ◌++◌, append_assoc, append-nil,
  if◌then◌else◌, ok, inl, inr, Bool-cases, Gives,
}
use cheferd.Prelude.Int.{ℤ, pos, pos_part, neg_part, ◌+ℤ◌, ◌-ℤ◌, int_laws}
use cheferd.Text.{Bytes}
use cheferd.Dict.{Dict, keys, put}
use cheferd.Dict.Laws.{
  Fresh, Distinct, put-Fresh, lookup-past, erase-past, keys-append, Fresh-middle, Distinct-without,
}
use cheferd.Session.DataPlane.{stat}
use cheferd.Local.State.{Local, Session, submit_rule, get_result}
use cheferd.Local.Statistics.{
  Round, stats_rule, submit_all, report, collect_all, delete_sessions, collect_global_statistics,
}

-- A session whose next response is a statistic.
pub record Answering (D : Type 0) : Type 0 where
  pub session : Session D
  pub kind : ℕ
  pub rate : D

module _ {D : Type 0} where
  abbrev pub sessions_of : Dict (Answering D) → Dict (Session D)
  sessions_of [] = []
  sessions_of ((key, a) ∷ rest) =
      (
        key,
        record a.session {
          completion_queue = some (stat a.kind a.rate) ∷ a.session.completion_queue;
        },
      )
      ∷ sessions_of rest

  abbrev pub rates_of : Dict (Answering D) → Dict D
  rates_of [] = []
  rates_of ((key, a) ∷ rest) = (key, a.rate) ∷ rates_of rest

  -- The sessions after they were asked and have answered.
  abbrev asked : Dict (Answering D) → Dict (Session D)
  asked [] = []
  asked ((key, a) ∷ rest) = (key, submit_rule a.session stats_rule) ∷ asked rest

  module _ (is_lost : D → Bool) where
    -- Those of them whose rate is not -1.
    abbrev pub alive : Dict (Answering D) → Dict (Session D)
    alive [] = []
    alive ((key, a) ∷ rest) =
        if is_lost a.rate then alive rest else (key, submit_rule a.session stats_rule) ∷ alive rest

    abbrev lost_keys : Dict (Answering D) → List Bytes
    lost_keys [] = []
    lost_keys ((key, a) ∷ rest) = if is_lost a.rate then key ∷ lost_keys rest else lost_keys rest

    abbrev pub lost_count : Dict (Answering D) → ℕ
    lost_count [] = 0
    lost_count ((key, a) ∷ rest) = if is_lost a.rate then suc (lost_count rest) else lost_count rest

    abbrev active_after : Dict (Answering D) → ℤ → ℤ
    active_after [] active = active
    active_after ((key, a) ∷ rest) active =
        if is_lost a.rate then active_after rest (active -ℤ pos 1) else active_after rest active

    active_after-lost_count :
        (answers : Dict (Answering D)) (active : ℤ)
        → active_after answers active +ℤ pos (lost_count answers) ≡ active
    active_after-lost_count [] active = omega int_laws
    active_after-lost_count ((key, a) ∷ rest) active = elim (Bool-cases (is_lost a.rate)) [
      | inl e ↦ rw e (
          let h : active_after rest (active -ℤ pos 1) +ℤ pos (lost_count rest) ≡ active -ℤ pos 1 =
            active_after-lost_count rest (active -ℤ pos 1) in
          omega (int_laws, ap pos_part h, ap neg_part h))
      | inr e ↦ rw e (active_after-lost_count rest active)
    ]

    -- What a round has after these answers.
    abbrev round_after : Dict (Answering D) → Round D → Round D
    round_after answers round = record {
      gl_stats = round.gl_stats ++ rates_of answers;
      sessions_to_delete = round.sessions_to_delete ++ lost_keys answers;
      active = active_after answers round.active;
    }

    -- The keys of an entry that has moved to the end of the first part.
    past :
        {V : Type 0} (k : Bytes) (v : V) (d : Dict V) (js : List Bytes)
        → Distinct (keys d ++ k ∷ js)
        → Distinct (keys (d ++ (k, v) ∷ []) ++ js)
    past k v d js h =
        subst Distinct
          (sym (append_assoc (keys d) (k ∷ []) js)
            ∙ ap (λ ks. ks ++ js) (sym (keys-append d ((k, v) ∷ []))))
          h

    collect_all-answers :
        (answers : Dict (Answering D)) (round : Round D)
        → Distinct (keys round.gl_stats ++ keys answers)
        → collect_all (report is_lost) (submit_all (sessions_of answers)) round
          ≡ ok (asked answers, round_after answers round)
    unfolding collect_all submit_all get_result submit_rule
    collect_all-answers [] round d =
        ap (λ r. ok ([], r))
          (ap (λ gl. record round { gl_stats = gl }) (sym (append-nil round.gl_stats))
            ∙ ap
                (λ lost. record round {
                  gl_stats = round.gl_stats ++ [];
                  sessions_to_delete = lost;
                })
                (sym (append-nil round.sessions_to_delete)))
    collect_all-answers ((key, a) ∷ rest) round d =
        let gl : Dict D = round.gl_stats ++ (key, a.rate) ∷ [] in
        let grown : put key a.rate round.gl_stats ≡ gl =
          put-Fresh key a.rate round.gl_stats
            (Fresh-middle key (keys round.gl_stats) (keys rest) d) in
        let d' : Distinct (keys gl ++ keys rest) = past key a.rate round.gl_stats (keys rest) d in
        elim (Bool-cases (is_lost a.rate)) [
          | inl e ↦ rw e (
              rw grown (
                rw
                  (collect_all-answers rest
                    (record {
                      gl_stats = gl;
                      sessions_to_delete = round.sessions_to_delete ++ key ∷ [];
                      active = round.active -ℤ pos 1;
                    })
                    d')
                  (simp append_assoc)))
          | inr e ↦ rw e (
              rw grown (
                rw (collect_all-answers rest (record round { gl_stats = gl }) d')
                  (simp append_assoc)))
        ]

    delete_sessions-lost_keys :
        (before : Dict (Session D)) (answers : Dict (Answering D))
        → Distinct (keys before ++ keys answers)
        → delete_sessions (lost_keys answers) (before ++ asked answers)
          ≡ ok (before ++ alive answers)
    unfolding delete_sessions
    delete_sessions-lost_keys before [] d = refl
    delete_sessions-lost_keys before ((key, a) ∷ rest) d =
        let session : Session D = submit_rule a.session stats_rule in
        let fresh : Fresh key (keys before) = Fresh-middle key (keys before) (keys rest) d in
        elim (Bool-cases (is_lost a.rate)) [
          | inl e ↦ rw e (
              rw (lookup-past key session before (asked rest) fresh) (
                rw (erase-past key session before (asked rest) fresh) (
                  delete_sessions-lost_keys before rest
                    (Distinct-without key (keys before) (keys rest) d))))
          | inr e ↦ rw e (
              ap (delete_sessions (lost_keys rest))
                (sym (append_assoc before ((key, session) ∷ []) (asked rest)))
              ∙ delete_sessions-lost_keys (before ++ (key, session) ∷ []) rest
                  (past key session before (keys rest) d)
              ∙ ap ok (append_assoc before ((key, session) ∷ []) (alive rest)))
        ]

    -- If the next response of every session is a statistic, the collection returns: it reports the
    -- rate of every stage, also of the lost ones, keeps the sessions of the stages that are not
    -- lost, in their order, and lowers the number of active sessions by that of the lost ones.
    pub collect_global_statistics-alive :
        (s : Local D) (answers : Dict (Answering D))
        → s.data_sessions ≡ sessions_of answers
        → Distinct (keys answers)
        → Gives
            (λ r.
              (r.1 ≡ rates_of answers)
              × ((r.2.data_sessions ≡ alive answers)
                  × (r.2.active_data_plane_sessions +ℤ pos (lost_count answers)
                      ≡ s.active_data_plane_sessions)))
            (collect_global_statistics is_lost s)
    unfolding collect_global_statistics
    collect_global_statistics-alive s answers e d = rw e (
        rw
          (collect_all-answers answers
            (record {
              gl_stats = [];
              sessions_to_delete = [];
              active = s.active_data_plane_sessions;
            })
            d)
          (rw (delete_sessions-lost_keys [] answers d)
            (refl, (refl, active_after-lost_count answers s.active_data_plane_sessions))))
