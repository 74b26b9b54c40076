-- ===== src/Effects/History.antt =====
-- `effect_history` and `get_effect` of src/actenon_permit/effects.py: what an audit reads. The tables
-- hold the latest row first, and the answers give the oldest first.
use actenon_permit.Base.{ℕ, Bool, Option, List, [], ◌∷◌, ◌++◌, any, map, keep, ◌&&◌, ◌==◌}
use actenon_permit.Base.Equality.{Text}
use actenon_permit.Store.Tables.{Db, EffectRow, EffectEvent, EffectState, Evidence}
use actenon_permit.Effects.{Reference}
use actenon_permit.Effects.Settle.{latest_sequence}

unfoldable pub oldest_first {ℓ} : {A : Type ℓ} → List A → List A
oldest_first [] = []
oldest_first (x ∷ xs) = oldest_first xs ++ x ∷ []

-- `effect_history`: the join of an event with its reservation, of which there is one.
unfoldable pub effect_history : ℕ → Db → List EffectEvent
unfolding oldest_first
effect_history e db = oldest_first (
    keep
      (λ (v : EffectEvent).
        any (λ (r : EffectRow). r.reservation_id == v.reservation_id && r.effect_id == e)
          db.effects)
      db.effect_events)

-- An item of the answer of `get_effect`.
pub record EffectView : Type 0 where
  pub ref : Reference
  pub grant_id : ℕ
  pub principal : Text
  pub action_hash : ℕ
  pub state : EffectState
  pub execution_occurred : Option Bool
  pub evidence : Option Evidence
  pub descriptor : ℕ
  pub event_sequence : Option ℕ

unfoldable pub view_of : List EffectEvent → EffectRow → EffectView
unfolding latest_sequence
view_of events r = record {
  ref = record {
    effect_id = r.effect_id;
    reservation_id = r.reservation_id;
    owner_attempt_id = r.action_id;
  };
  grant_id = r.grant_id;
  principal = r.principal;
  action_hash = r.action_hash;
  state = r.state;
  execution_occurred = r.execution_occurred;
  evidence = r.evidence;
  descriptor = r.descriptor;
  event_sequence = latest_sequence r.reservation_id events;
}

-- `get_effect`
unfoldable pub get_effect : ℕ → Db → List EffectView
unfolding oldest_first view_of
get_effect e db =
    map (view_of db.effect_events)
      (oldest_first (keep (λ (r : EffectRow). r.effect_id == e) db.effects))
