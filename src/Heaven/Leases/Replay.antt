-- ===== src/Heaven/Leases/Replay.antt =====
-- heaven/leases.go, heaven/fileclock.go: a restart rebuilds the state from the log.
use genesis_ssmp.Base.{
  ◌≡◌, refl, ◌∙◌, true, Option, none, some, List, [], ◌∷◌, ◌++◌, arith, Bytes, get, Option-cases,
  inl, inr,
}
use genesis_ssmp.Heaven.State.{
  Event, lease_issued, lease_released, file_clock_inc, other_event, Env, State, log_raw, log_event,
  empty_state,
}
use genesis_ssmp.Heaven.Leases.{issue, drop_lease, replay_event, replay}
use genesis_ssmp.Heaven.FileClock.{replay_clock, replay_clocks}

-- What is written can be read, and every write succeeds.
pub record IsReliable (env : Env) : Type 0 where
  pub reads : (e : Event) → env.unmarshal (env.marshal e) ≡ some e
  pub writes : (log : List Bytes) (raw : Bytes) → env.written log raw ≡ true

abbrev pub SameMaps : State → State → Type 0
SameMaps s t = (s.leases ≡ t.leases) × (s.scopes ≡ t.scopes)

replay_event-SameMaps :
    (e : Option Event) (s t : State) → SameMaps s t → SameMaps (replay_event e s) (replay_event e t)
unfolding replay_event issue drop_lease
replay_event-SameMaps (some (lease_issued l)) s t h = ground arith
replay_event-SameMaps (some (lease_released id)) s t h = elim (Option-cases (get id s.leases)) [
  | inl e ↦ ground arith
  | inr (l, e) ↦ ground arith
]
replay_event-SameMaps (some (file_clock_inc ps)) s t h = h
replay_event-SameMaps (some (other_event raw)) s t h = h
replay_event-SameMaps none s t h = h

pub replay-SameMaps :
    (env : Env) (raws : List Bytes) (s t : State)
    → SameMaps s t
    → SameMaps (replay env raws s) (replay env raws t)
unfolding replay
replay-SameMaps env [] s t h = h
replay-SameMaps env (raw ∷ raws) s t h =
    replay-SameMaps env raws _ _ (replay_event-SameMaps (env.unmarshal raw) s t h)

replay-append :
    (env : Env) (raws : List Bytes) (raw : Bytes) (s : State)
    → replay env (raws ++ (raw ∷ [])) s ≡ replay_event (env.unmarshal raw) (replay env raws s)
unfolding replay
replay-append env [] raw s = refl
replay-append env (x ∷ raws) raw s = replay-append env raws raw _

replay_clocks-append :
    (env : Env) (raws : List Bytes) (raw : Bytes) (c : _)
    → replay_clocks env (raws ++ (raw ∷ [])) c
      ≡ replay_clock (env.unmarshal raw) (replay_clocks env raws c)
unfolding replay_clocks
replay_clocks-append env [] raw c = refl
replay_clocks-append env (x ∷ raws) raw c = replay_clocks-append env raws raw _

-- The log holds the whole state.
pub record IsLogged (env : Env) (s : State) : Type 0 where
  pub maps : SameMaps (replay env s.journal empty_state) s
  pub clocks : replay_clocks env s.journal [] ≡ s.clocks

module _ (env : Env) (raw : Bytes) (s t : State) (good : IsReliable env) (h : IsLogged env s) where
  -- One event is written, and the state moves as the event says.
  pub log_raw-IsLogged :
      t.journal ≡ s.journal
      → SameMaps (replay_event (env.unmarshal raw) s) t
      → replay_clock (env.unmarshal raw) s.clocks ≡ t.clocks
      → IsLogged env (log_raw env raw t).0
  unfolding log_raw
  log_raw-IsLogged j m c =
      rw (good.writes t.journal raw, j)
        (record {
          maps = rw (replay-append env s.journal raw empty_state) (
              let first =
                replay_event-SameMaps (env.unmarshal raw) (replay env s.journal empty_state) s
                  h.maps in
              (first.0 ∙ m.0, first.1 ∙ m.1));
          clocks = rw (replay_clocks-append env s.journal raw [], h.clocks) c;
        })

pub log_event-IsLogged :
    (env : Env) (e : Event) (s t : State)
    → IsReliable env
    → IsLogged env s
    → t.journal ≡ s.journal
    → SameMaps (replay_event (some e) s) t
    → replay_clock (some e) s.clocks ≡ t.clocks
    → IsLogged env (log_event env e t).0
unfolding log_event
log_event-IsLogged env e s t good h j m c =
    log_raw-IsLogged env (env.marshal e) s t good h j (rw (good.reads e) m) (rw (good.reads e) c)

replay_event_kept :
    (e : Option Event) (s : State)
    → ((replay_event e s).clocks ≡ s.clocks)
      × ((replay_event e s).journal ≡ s.journal)
      × ((replay_event e s).drawn ≡ s.drawn)
unfolding replay_event issue drop_lease
replay_event_kept (some (lease_issued l)) s = (refl, refl, refl)
replay_event_kept (some (lease_released id)) s = elim (Option-cases (get id s.leases)) [
  | inl e ↦ rw (e, replay_event) (refl, refl, refl)
  | inr (l, e) ↦ rw (e, replay_event) (refl, refl, refl)
]
replay_event_kept (some (file_clock_inc ps)) s = (refl, refl, refl)
replay_event_kept (some (other_event raw)) s = (refl, refl, refl)
replay_event_kept none s = (refl, refl, refl)

-- A replay changes the two maps of the leases only.
pub replay_kept :
    (env : Env) (raws : List Bytes) (s : State)
    → ((replay env raws s).clocks ≡ s.clocks)
      × ((replay env raws s).journal ≡ s.journal)
      × ((replay env raws s).drawn ≡ s.drawn)
unfolding replay
replay_kept env [] s = (refl, refl, refl)
replay_kept env (raw ∷ raws) s =
    let later = replay_kept env raws (replay_event (env.unmarshal raw) s) in
    let now = replay_event_kept (env.unmarshal raw) s in
    (later.0 ∙ now.0, later.1 ∙ now.1, later.2 ∙ now.2)
