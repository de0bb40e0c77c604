-- ===== src/Heaven/Leases.antt =====
-- heaven/leases.go. The manager's mutex makes each operation one step.
pub mod Index
pub mod Acquiring
pub mod Releasing
pub mod Handover
pub mod Replay
pub mod Logging
use genesis_ssmp.Base.{
  ℕ, suc, ◌+◌, ◌≡◌, Bool, true, false, not, Option, none, some, List, [], ◌∷◌, ◌++◌, if◌then◌else◌,
  length, Bytes, bytes, same, Dict, get, put, del,
}
use genesis_ssmp.Heaven.State.{Lease, Event, lease_issued, lease_released, Env, State, log_event}

pub record ScopeTarget : Type 0 where
  pub scope_type : Bytes
  pub scope_value : Bytes

pub record AcquireRequest : Type 0 where
  pub owner_id : Bytes
  pub mission_id : Bytes
  pub scopes : List ScopeTarget

pub record AcquireResult : Type 0 where
  pub acquired : List Lease
  pub denied : List Bytes

unfoldable pub scope_key : Bytes → Bytes → Bytes
scope_key scope_type scope_value = scope_type ++ (b':' ∷ scope_value)

abbrev pub key_of : Lease → Bytes
key_of l = scope_key l.scope_type l.scope_value

abbrev pub target_key : ScopeTarget → Bytes
target_key t = scope_key t.scope_type t.scope_value

-- The two maps, as one lease enters or leaves them.
unfoldable pub issue : Lease → State → State
issue l s = record s {
  leases = put l.lease_id l s.leases;
  scopes = put (key_of l) l.lease_id s.scopes;
}

unfoldable pub drop_lease : Lease → Bytes → State → State
drop_lease l id s = record s { leases = del id s.leases; scopes = del (key_of l) s.scopes }

unfoldable pub new_lease : Env → Bytes → AcquireRequest → ScopeTarget → State → Lease
new_lease env now req target s = record {
  lease_id = env.generate s.drawn;
  owner_id = req.owner_id;
  mission_id = req.mission_id;
  scope_type = target.scope_type;
  scope_value = target.scope_value;
  issued_at = now;
  expires_at = [];
}

-- A scope with no entry in the index: a new lease, logged; an error of the log is dropped.
unfoldable pub grant : Env → Lease → State → State
unfolding issue
grant env l s = (log_event env (lease_issued l) (record (issue l s) { drawn = suc s.drawn })).0

-- A scope that the index holds. A nil lease is dereferenced: `none` is that panic.
unfoldable pub found_lease :
    AcquireRequest → Bytes → AcquireResult → Option Lease → Option AcquireResult
found_lease req key r none = none
found_lease req key r (some existing) =
    if not (same existing.owner_id req.owner_id)
    then some (record r { denied = r.denied ++ (key ∷ []) })
    else some (record r { acquired = r.acquired ++ (existing ∷ []) })

abbrev pub with_state : State → Option AcquireResult → Option (State × AcquireResult)
with_state s none = none
with_state s (some r) = some (s, r)

-- One round of the loop of `Acquire`.
unfoldable pub acquire_scope :
    Env
    → Bytes
    → AcquireRequest
    → ScopeTarget
    → State
    → AcquireResult
    → Option (State × AcquireResult)
unfolding grant found_lease new_lease
acquire_scope env now req target s r = elim (get (target_key target) s.scopes) [
  | some id ↦ with_state s (found_lease req (target_key target) r (get id s.leases))
  | none ↦
      let l = new_lease env now req target s in
      some (grant env l s, record r { acquired = r.acquired ++ (l ∷ []) })
]

unfoldable pub acquire_scopes :
    Env
    → Bytes
    → AcquireRequest
    → List ScopeTarget
    → State
    → AcquireResult
    → Option (State × AcquireResult)
acquire_scopes env now req [] s r = some (s, r)
acquire_scopes env now req (target ∷ targets) s r = elim (acquire_scope env now req target s r) [
  | none ↦ none
  | some (s', r') ↦ acquire_scopes env now req targets s' r'
]

-- `Acquire` at the time `now`; it returns no error.
unfoldable pub acquire : Env → Bytes → AcquireRequest → State → Option (State × AcquireResult)
unfolding acquire_scopes acquire_scope
acquire env now req s =
    acquire_scopes env now req req.scopes s (record { acquired = []; denied = [] })

-- One round of the loop of `Release`, with the count so far.
unfoldable pub release_one : Env → Bytes → State → ℕ → State × ℕ
unfolding drop_lease
release_one env id s released = elim (get id s.leases) [
  | none ↦ (s, released)
  | some existing ↦ ((log_event env (lease_released id) (drop_lease existing id s)).0, suc released)
]

unfoldable pub release_from : Env → List Bytes → State → ℕ → State × ℕ
unfolding release_one
release_from env [] s released = (s, released)
release_from env (id ∷ ids) s released =
    let (s', released') = release_one env id s released in release_from env ids s' released'

-- `Release`: the new state and the number of leases released.
unfoldable pub release : Env → List Bytes → State → State × ℕ
unfolding release_from
release env ids s = release_from env ids s 0

abbrev pub owned_by : Bytes → Option Lease → Bool
owned_by owner none = false
owned_by owner (some l) = same l.owner_id owner

-- `OwnerHoldsScope`
unfoldable pub owner_holds_scope : State → Bytes → Bytes → Bytes → Bool
owner_holds_scope s owner scope_type scope_value =
    elim (get (scope_key scope_type scope_value) s.scopes) [
      | none ↦ false
      | some id ↦ owned_by owner (get id s.leases)
    ]

-- `ActiveCount` and `List`; a Go map is listed in some order.
unfoldable pub active_count : State → ℕ
active_count s = length s.leases

abbrev pub values : Dict Lease → List Lease
values [] = []
values ((id, l) ∷ m) = l ∷ values m

unfoldable pub list_leases : State → List Lease
list_leases s = values s.leases

-- One event of `replayEvents`. What does not unmarshal is skipped.
unfoldable pub replay_event : Option Event → State → State
unfolding issue drop_lease
replay_event (some (lease_issued l)) s = issue l s
replay_event (some (lease_released id)) s = elim (get id s.leases) [
  | none ↦ s
  | some existing ↦ drop_lease existing id s
]
replay_event _ s = s

unfoldable pub replay : Env → List Bytes → State → State
unfolding replay_event
replay env [] s = s
replay env (raw ∷ raws) s = replay env raws (replay_event (env.unmarshal raw) s)

-- `NewLeaseManager` over what `events.All()` returns; `none` is its error.
unfoldable pub new_lease_manager : Env → Option (List Bytes) → State → Option State
unfolding replay
new_lease_manager env none s = none
new_lease_manager env (some raws) s = some (replay env raws (record s { leases = []; scopes = [] }))
