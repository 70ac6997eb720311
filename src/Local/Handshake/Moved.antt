-- ===== src/Local/Handshake/Moved.antt =====
-- A stage that the global controller marks as ready (src/controller/local_control_application.cpp).
use cheferd.Prelude.{◌≡◌, refl, ◌∙◌, Option, none, some, Bool, true, false, if◌then◌else◌}
use cheferd.Text.{Bytes, same}
use cheferd.Dict.{keys, lookup, erase}
use cheferd.Dict.Laws.{Distinct, lookup-emplace, lookup-erase, erase-Distinct}
use cheferd.Local.State.{Local, Session}
use cheferd.Local.Handshake.{mark_stage_ready}

-- A stage that is being connected and has no data session yet: its session becomes a data session
-- and is no longer among those being connected, whose keys are different; every other session
-- stays where it is.
pub mark_stage_ready-moves :
    {D : Type 0} (s : Local D) (key j : Bytes) (session : Session D)
    → lookup key s.preparing_data_sessions ≡ some session
    → lookup key s.data_sessions ≡ none
    → Distinct (keys s.preparing_data_sessions)
    → (lookup j (mark_stage_ready s key).2.data_sessions
        ≡ (if same key j then some session else lookup j s.data_sessions))
      × (lookup j (mark_stage_ready s key).2.preparing_data_sessions
          ≡ (if same key j then none else lookup j s.preparing_data_sessions))
unfolding mark_stage_ready
mark_stage_ready-moves s key j session e n d = (
  rw e (lookup-emplace key j session s.data_sessions ∙ rw n refl),
  lookup-erase key j (erase key s.preparing_data_sessions)
        (erase-Distinct key s.preparing_data_sessions d)
      ∙ twice (same key j) (lookup j s.preparing_data_sessions) _
          (lookup-erase key j s.preparing_data_sessions d),
)
  where
    twice :
        {V : Type 0} (b : Bool) (v w : Option V)
        → w ≡ (if b then none else v)
        → (if b then none else w) ≡ (if b then none else v)
    twice true v w h = refl
    twice false v w h = h
