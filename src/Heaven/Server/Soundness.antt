-- ===== src/Heaven/Server/Soundness.antt =====
-- heaven/server.go: any sequence of requests, a restart, and events that clients post.
use genesis_ssmp.Base.{
  ◌≡◌, ◌⊎◌, refl, Bool, true, false, Option, none, some, List, [], ◌∷◌, ◌++◌, arith, ◌||◌,
  if◌then◌else◌, All, Bytes, is_empty, Bool-cases, inl, inr, same_refl, get, get-put, length,
}
use genesis_ssmp.Heaven.EventLog.{buffer_size}
use genesis_ssmp.Heaven.EventLog.ReadBack.{IsLine, all-append_all}
use genesis_ssmp.Heaven.State.{
  Lease, lease_issued, file_clock_inc, other_event, Env, State, log_raw, empty_state,
}
use genesis_ssmp.Heaven.Leases.{
  AcquireRequest, issue, key_of, replay_event, owner_holds_scope, replay, new_lease_manager,
}
use genesis_ssmp.Heaven.Leases.Index.{Distinct, IsIndexed, log_event-IsIndexed}
use genesis_ssmp.Heaven.Leases.Acquiring.{acquire-Serves}
use genesis_ssmp.Heaven.Leases.Releasing.{release-Releases}
use genesis_ssmp.Heaven.Leases.Replay.{
  IsReliable, IsLogged, SameMaps, log_raw-IsLogged, log_event-IsLogged, replay-SameMaps,
  replay_kept,
}
use genesis_ssmp.Heaven.Leases.Logging.{LoggedResult, acquire-IsLogged, release-IsLogged}
use genesis_ssmp.Heaven.FileClock.{increment, bump_all, replay_clock, replay_clocks, new_file_clock}
use genesis_ssmp.Heaven.Server.{
  Server, Request, post_event, acquire_leases, release_leases, increment_clocks, read_clocks,
  check_manifest, Answer, appended, internal_error, is_nil, moved, handle_append_event,
  handle_lease_acquire, handle_lease_release, handle_file_clock_inc, serve, serve_all, new_server,
}

pub record IsSound (env : Env) (s : State) : Type 0 where
  pub indexed : IsIndexed env s
  pub logged : IsLogged env s

-- A posted body that the server does not read back as one of its own events.
abbrev pub IsForeign : Env → Request → Type 0
IsForeign env (post_event raw) =
    (env.unmarshal raw ≡ none) ⊎ ((b : Bytes) × (env.unmarshal raw ≡ some (other_event b)))
IsForeign env _ = Unit

log_raw-IsIndexed :
    (env : Env) (raw : Bytes) (s : State) → IsIndexed env s → IsIndexed env (log_raw env raw s).0
unfolding log_raw
log_raw-IsIndexed env raw s v = elim (Bool-cases (env.written s.journal raw)) [
  | inl w ↦
      rw (w, log_raw) (record { to_lease = v.to_lease; to_scope = v.to_scope; unused = v.unused })
  | inr w ↦ rw (w, log_raw) v
]

module _ (env : Env) (good : IsReliable env) (distinct : Distinct env) where
  increment-IsSound :
      (paths : List Bytes) (s : State) → IsSound env s → IsSound env (increment env paths s).0
  unfolding increment replay_event replay_clock
  increment-IsSound paths s v =
      let i = v.indexed in
      record {
        indexed =
            log_event-IsIndexed env (file_clock_inc paths)
              (record s { clocks = bump_all paths s.clocks })
              (record { to_lease = i.to_lease; to_scope = i.to_scope; unused = i.unused });
        logged =
            log_event-IsLogged env (file_clock_inc paths) s
              (record s { clocks = bump_all paths s.clocks }) good v.logged refl (refl, refl) refl;
      }

  post-IsSound :
      (raw : Bytes) (s : State)
      → IsForeign env (post_event raw)
      → IsSound env s
      → IsSound env (log_raw env raw s).0
  unfolding replay_event replay_clock
  post-IsSound raw s f v = record {
    indexed = log_raw-IsIndexed env raw s v.indexed;
    logged = elim f [
      | inl e ↦ log_raw-IsLogged env raw s s good v.logged refl (rw e (refl, refl)) (rw e refl)
      | inr (b, e) ↦ log_raw-IsLogged env raw s s good v.logged refl (rw e (refl, refl)) (rw e refl)
    ];
  }

  abbrev SoundAnswer : Option (Server × Answer) → Type 0
  SoundAnswer none = ⊥
  SoundAnswer (some (srv, a)) = IsSound env srv.state

  acquire-SoundAnswer :
      (now : Bytes) (req : AcquireRequest) (srv : Server)
      → IsSound env srv.state
      → SoundAnswer (handle_lease_acquire env now req srv)
  unfolding handle_lease_acquire
  acquire-SoundAnswer now req srv v =
      elim (Bool-cases (is_empty req.owner_id || is_empty req.mission_id || is_nil req.scopes)) [
        | inl e ↦ rw (e, handle_lease_acquire) v
        | inr e ↦
            let (s', r', f, served) = acquire-Serves env now req srv.state distinct v.indexed in
            let logged : LoggedResult env (some (s', r')) =
              rw f at (acquire-IsLogged env good now req srv.state v.logged) in
            rw (e, handle_lease_acquire)
              (rw f (record { indexed = served.indexed; logged = logged }))
      ]

  answered-IsSound :
      (done : Bool) (s : State) (srv : Server) (a b : Answer)
      → IsSound env s
      → IsSound env
          (if◌then◌else◌ {A = Server × Answer} done
            (moved s srv, a)
            (record srv { state = s }, b)).0.state
  answered-IsSound true s srv a b v = v
  answered-IsSound false s srv a b v = v

  serve-SoundAnswer :
      (r : Request) (srv : Server)
      → IsForeign env r
      → IsSound env srv.state
      → SoundAnswer (serve env r srv)
  unfolding serve handle_append_event handle_lease_release handle_file_clock_inc
  serve-SoundAnswer (post_event raw) srv f v = elim (Bool-cases (env.valid raw)) [
    | inl e ↦
        rw (e, serve)
          (answered-IsSound _ _ srv appended internal_error (post-IsSound raw srv.state f v))
    | inr e ↦ rw (e, serve) v
  ]
  serve-SoundAnswer (acquire_leases now req) srv f v = acquire-SoundAnswer now req srv v
  serve-SoundAnswer (release_leases ids) srv f v = record {
    indexed = (release-Releases env ids srv.state v.indexed).indexed;
    logged = release-IsLogged env good ids srv.state v.logged;
  }
  serve-SoundAnswer (increment_clocks paths) srv f v = elim (Bool-cases (is_nil paths)) [
    | inl e ↦ rw (e, serve) v
    | inr e ↦
        rw (e, serve)
          (answered-IsSound _ _ srv _ internal_error (increment-IsSound paths srv.state v))
  ]
  serve-SoundAnswer (read_clocks paths) srv f v = v
  serve-SoundAnswer (check_manifest req) srv f v = v

  abbrev SoundServer : Option Server → Type 0
  SoundServer none = ⊥
  SoundServer (some srv) = IsSound env srv.state

  serve_all-SoundServer :
      (rs : List Request) (srv : Server)
      → All (IsForeign env) rs
      → IsSound env srv.state
      → SoundServer (serve_all env rs srv)
  unfolding serve_all
  serve_all-SoundServer [] srv f v = v
  serve_all-SoundServer (r ∷ rs) srv (f, fs) v =
      go (λ srv'. serve_all-SoundServer rs srv' fs) (serve env r srv) refl
        (serve-SoundAnswer r srv f v)
    where
      go :
          ((srv' : Server) → IsSound env srv'.state → SoundServer (serve_all env rs srv'))
          → (o : Option (Server × Answer)) → serve env r srv ≡ o
          → SoundAnswer o
          → SoundServer (serve_all env (r ∷ rs) srv)
      go later none e h = absurd h
      go later (some (srv', a)) e h = rw (e, serve_all) (later srv' h)

abbrev pub start_server : Server
start_server = record { state = empty_state; state_rev = 0 }

pub start-IsSound : (env : Env) → IsSound env empty_state
unfolding replay replay_clocks get
start-IsSound env = record {
  indexed = record {
    to_lease = λ k id h. ground arith;
    to_scope = λ id l h. ground arith;
    unused = λ n h. refl;
  };
  logged = record { maps = (refl, refl); clocks = refl };
}

-- A server that starts on the log of a sound state has that state again.
new_server-IsLogged :
    (env : Env) (s : State)
    → IsLogged env s
    → All (IsLine buffer_size) s.journal
    → new_server env s.drawn s.journal ≡ some (record { state = s; state_rev = length s.journal })
unfolding new_server new_lease_manager new_file_clock
new_server-IsLogged env s h lines =
    let (read, count, _) = all-append_all 0 s.journal lines in
    let blank = record empty_state { journal = s.journal; drawn = s.drawn } in
    let again = replay-SameMaps env s.journal blank empty_state (refl, refl) in
    let kept = replay_kept env s.journal blank in
    ground (arith, read, count, again, h.maps, h.clocks, kept)

-- The texts that were written to the log.
abbrev pub journal_of : Option Server → List Bytes
journal_of none = []
journal_of (some srv) = srv.state.journal

-- No sequence of requests makes a handler panic, the two maps of the leases agree after it, and a
-- server that starts again on the file of the log has the same leases, scopes and clocks, with
-- the number of logged events for its revision. The requests post no event of the server's own
-- kinds, each text written to the log is one line that is shorter than a reader's buffer, writes
-- to the log succeed, events read back as written, and no identifier is drawn twice.
pub serve_all-restart :
    (env : Env) (rs : List Request)
    → IsReliable env
    → Distinct env
    → All (IsForeign env) rs
    → All (IsLine buffer_size) (journal_of (serve_all env rs start_server))
    → (srv : Server) × (serve_all env rs start_server ≡ some srv)
      × IsIndexed env srv.state
      × (new_server env srv.state.drawn srv.state.journal
          ≡ some (record { state = srv.state; state_rev = length srv.state.journal }))
serve_all-restart env rs good distinct foreign lines =
    go (serve_all env rs start_server)
      (serve_all-SoundServer env good distinct rs start_server foreign (start-IsSound env)) lines
  where
    go :
        (o : Option Server)
        → SoundServer env good distinct o
        → All (IsLine buffer_size) (journal_of o)
        → (srv : Server) × (o ≡ some srv)
          × IsIndexed env srv.state
          × (new_server env srv.state.drawn srv.state.journal
              ≡ some (record { state = srv.state; state_rev = length srv.state.journal }))
    go none h k = absurd h
    go (some srv) h k = (srv, refl, h.indexed, new_server-IsLogged env srv.state h.logged k)

owner_holds_scope-issue :
    (l : Lease) (s : State)
    → owner_holds_scope (issue l s) l.owner_id l.scope_type l.scope_value ≡ true
unfolding owner_holds_scope issue
owner_holds_scope-issue l s = ground (
  arith,
  get-put (key_of l) (key_of l) l.lease_id s.scopes,
  get-put l.lease_id l.lease_id l s.leases,
  same_refl (key_of l),
  same_refl l.lease_id,
  same_refl l.owner_id,
)

-- A client that posts an event which reads as an issued lease changes no lease of the running
-- server, and holds that lease after a restart, whoever held the scope before. The state before is
-- the one that its log gives, its texts and the event are lines that are shorter than a reader's
-- buffer, and writes succeed.
pub post_event-forges :
    (env : Env) (raw : Bytes) (l : Lease) (srv : Server)
    → IsReliable env
    → IsLogged env srv.state
    → env.valid raw ≡ true
    → env.unmarshal raw ≡ some (lease_issued l)
    → All (IsLine buffer_size) (srv.state.journal ++ (raw ∷ []))
    → let s' = (handle_append_event env raw srv).0.state in
      SameMaps s' srv.state
      × ((t : Server) × (new_server env s'.drawn s'.journal ≡ some t)
          × (owner_holds_scope t.state l.owner_id l.scope_type l.scope_value ≡ true))
unfolding handle_append_event log_raw issue replay_event replay_clock
post_event-forges env raw l srv good h valid reads lines =
    let s = srv.state in
    let t = record s { journal = s.journal ++ (raw ∷ []) } in
    let logged : IsLogged env (issue l t) = rw (good.writes s.journal raw) at (
      log_raw-IsLogged env raw s (issue l s) good h refl (rw reads (refl, refl)) (rw reads refl)) in
    let done : (handle_append_event env raw srv).0.state ≡ t =
      ground (arith, valid, good.writes s.journal raw) in
    rw done (
      (refl, refl),
      (
        record { state = issue l t; state_rev = length (s.journal ++ (raw ∷ [])) },
        new_server-IsLogged env (issue l t) logged lines,
        owner_holds_scope-issue l t,
      ),
    )
