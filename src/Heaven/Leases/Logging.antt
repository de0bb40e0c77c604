-- ===== src/Heaven/Leases/Logging.antt =====
-- heaven/leases.go: every change of the lease manager is in the log.
use genesis_ssmp.Base.{
  ℕ, suc, ◌≡◌, refl, none, some, Option, List, [], ◌∷◌, Bytes, get, Option-cases, inl, inr,
}
use genesis_ssmp.Heaven.State.{Lease, lease_issued, lease_released, Env, State}
use genesis_ssmp.Heaven.Leases.{
  ScopeTarget, AcquireRequest, AcquireResult, target_key, issue, drop_lease, new_lease, grant,
  with_state, acquire_scope, acquire_scopes, acquire, release_one, release_from, release,
  replay_event,
}
use genesis_ssmp.Heaven.Leases.Replay.{IsReliable, IsLogged, log_event-IsLogged}
use genesis_ssmp.Heaven.FileClock.{replay_clock}

abbrev pub LoggedResult : Env → Option (State × AcquireResult) → Type 0
LoggedResult env none = Unit
LoggedResult env (some (s, r)) = IsLogged env s

module _ (env : Env) (good : IsReliable env) where
  grant-IsLogged : (l : Lease) (s : State) → IsLogged env s → IsLogged env (grant env l s)
  unfolding grant replay_event issue replay_clock
  grant-IsLogged l s h =
      log_event-IsLogged env (lease_issued l) s (record (issue l s) { drawn = suc s.drawn }) good h
        refl (refl, refl) refl

  with_state-LoggedResult :
      (s : State) (o : Option AcquireResult) → IsLogged env s → LoggedResult env (with_state s o)
  with_state-LoggedResult s none h = tt
  with_state-LoggedResult s (some r) h = h

  acquire_scope-LoggedResult :
      (now : Bytes) (req : AcquireRequest) (t : ScopeTarget) (s : State) (r : AcquireResult)
      → IsLogged env s
      → LoggedResult env (acquire_scope env now req t s r)
  unfolding acquire_scope
  acquire_scope-LoggedResult now req t s r h = elim (Option-cases (get (target_key t) s.scopes)) [
    | inl e ↦ rw (e, acquire_scope) (grant-IsLogged (new_lease env now req t s) s h)
    | inr (id, e) ↦ rw (e, acquire_scope) (with_state-LoggedResult s _ h)
  ]

  acquire_scopes-LoggedResult :
      (now : Bytes) (req : AcquireRequest) (ts : List ScopeTarget) (s : State) (r : AcquireResult)
      → IsLogged env s
      → LoggedResult env (acquire_scopes env now req ts s r)
  unfolding acquire_scopes
  acquire_scopes-LoggedResult now req [] s r h = h
  acquire_scopes-LoggedResult now req (t ∷ ts) s r h =
      go (acquire_scopes-LoggedResult now req ts) (acquire_scope env now req t s r) refl
        (acquire_scope-LoggedResult now req t s r h)
    where
      go :
          ((s' : State) (r' : AcquireResult)
            → IsLogged env s'
            → LoggedResult env (acquire_scopes env now req ts s' r'))
          → (o : Option (State × AcquireResult)) → acquire_scope env now req t s r ≡ o
          → LoggedResult env o
          → LoggedResult env (acquire_scopes env now req (t ∷ ts) s r)
      go later none e k = rw (e, acquire_scopes) tt
      go later (some (s', r')) e k = rw (e, acquire_scopes) (later s' r' k)

  pub acquire-IsLogged :
      (now : Bytes) (req : AcquireRequest) (s : State)
      → IsLogged env s
      → LoggedResult env (acquire env now req s)
  unfolding acquire
  acquire-IsLogged now req s h = acquire_scopes-LoggedResult now req req.scopes s _ h

  release_one-IsLogged :
      (id : Bytes) (s : State) (n : ℕ) → IsLogged env s → IsLogged env (release_one env id s n).0
  unfolding release_one replay_event drop_lease replay_clock
  release_one-IsLogged id s n h = elim (Option-cases (get id s.leases)) [
    | inl e ↦ rw (e, release_one) h
    | inr (l, e) ↦
        rw (e, release_one)
          (log_event-IsLogged env (lease_released id) s (drop_lease l id s) good h refl
            (rw (e, replay_event) (refl, refl)) refl)
  ]

  release_from-IsLogged :
      (ids : List Bytes) (s : State) (n : ℕ)
      → IsLogged env s
      → IsLogged env (release_from env ids s n).0
  unfolding release_from
  release_from-IsLogged [] s n h = h
  release_from-IsLogged (id ∷ ids) s n h =
      release_from-IsLogged ids _ _ (release_one-IsLogged id s n h)

  pub release-IsLogged :
      (ids : List Bytes) (s : State) → IsLogged env s → IsLogged env (release env ids s).0
  unfolding release
  release-IsLogged ids s h = release_from-IsLogged ids s 0 h
