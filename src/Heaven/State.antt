-- ===== src/Heaven/State.antt =====
-- What the parts of the server in heaven/ share: the types of heaven/leases.go, the events that
-- are written to the log, the server's state, and what comes from outside of it.
use genesis_ssmp.Base.{
  ℕ, Bool, true, false, Option, List, [], ◌∷◌, ◌++◌, if◌then◌else◌, Bytes, Dict,
}

pub record Lease : Type 0 where
  pub lease_id : Bytes
  pub owner_id : Bytes
  pub mission_id : Bytes
  pub scope_type : Bytes
  pub scope_value : Bytes
  pub issued_at : Bytes
  pub expires_at : Bytes

-- The events that the server reads back; `other_event` is any other JSON text.
pub data Event : Type 0 where
  lease_issued : Lease → Event
  lease_released : Bytes → Event
  file_clock_inc : List Bytes → Event
  other_event : Bytes → Event

-- encoding/json, crypto/rand and the disk: `generate n` is the n-th identifier that is drawn, and
-- `written log e` says if a write of the event `e` behind the events `log` succeeds. `valid` is
-- `json.Valid`.
pub record Env : Type 0 where
  pub marshal : Event → Bytes
  pub unmarshal : Bytes → Option Event
  pub generate : ℕ → Bytes
  pub valid : Bytes → Bool
  pub written : List Bytes → Bytes → Bool

-- The fields of `LeaseManager` and `FileClock`, with the log that they share: `journal` is the texts
-- whose writes succeeded, and the file holds them with a newline behind each, which need not be the
-- lines that a reader finds. `drawn` counts the identifiers drawn so far.
pub record State : Type 0 where
  pub leases : Dict Lease
  pub scopes : Dict Bytes
  pub clocks : Dict ℕ
  pub journal : List Bytes
  pub drawn : ℕ

-- `events.Append`. The second component is false when it returns an error.
unfoldable pub log_raw : Env → Bytes → State → State × Bool
log_raw env raw s =
    if env.written s.journal raw
    then (record s { journal = s.journal ++ (raw ∷ []) }, true)
    else (s, false)

-- `events.Append` of a marshalled event.
unfoldable pub log_event : Env → Event → State → State × Bool
unfolding log_raw
log_event env e s = log_raw env (env.marshal e) s

abbrev pub empty_state : State
empty_state = record { leases = []; scopes = []; clocks = []; journal = []; drawn = 0 }
