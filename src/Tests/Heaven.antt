-- ===== src/Tests/Heaven.antt =====
-- heaven/: the properties at concrete inputs.
use genesis_ssmp.Heaven.Leases.Handover.{release-acquire}
use genesis_ssmp.Base.{
  Bool, false, not, ◌&&◌, ◌||◌, ◌==◌, same, same_iff, is_empty, All, same_refl, put, ℕ, zero, suc,
  ◌+◌, ◌≡◌, ◌↔◌, refl, inl, true, none, some, List, [], ◌∷◌, arith, length, Bytes, bytes, get, pos,
  ltb, if◌then◌else◌,
}
use genesis_ssmp.Heaven.EventLog.{append_all, all, len, tail, drop_cr, buffer_size}
use genesis_ssmp.Heaven.EventLog.ReadBack.{IsLine, NoNewline, all-append_all}
use genesis_ssmp.Heaven.State.{log_event, log_raw, Lease, lease_issued, State, empty_state}
use genesis_ssmp.Heaven.Leases.{
  acquire_scopes, acquire_scope, release_from, release_one, scope_key, ScopeTarget, AcquireRequest,
  AcquireResult, acquire, release, issue, owner_holds_scope,
}
use genesis_ssmp.Heaven.Leases.Index.{IsIndexed, issue-IsIndexed}
use genesis_ssmp.Heaven.Leases.Acquiring.{wants, holder, Serves, acquire-Serves}
use genesis_ssmp.Heaven.Leases.Releasing.{unindexed, Releases, release-Releases}
use genesis_ssmp.Heaven.Leases.Replay.{SameMaps}
use genesis_ssmp.Heaven.FileClock.{bump_all, clock, increment, get_clocks}
use genesis_ssmp.Heaven.FileClock.Counting.{occurrences, increment-get_clocks}
use genesis_ssmp.Heaven.Server.{
  serve, handle_lease_acquire, handle_lease_release, handle_file_clock_inc, Server, Request,
  post_event, acquire_leases, release_leases, increment_clocks, check_manifest, handle_append_event,
  serve_all, new_server, ManifestRequest, validate_manifest,
}
use genesis_ssmp.Heaven.Server.Manifest.{HoldsAll, ClocksMatch, validate_manifest-allowed_iff}
use genesis_ssmp.Heaven.Server.Soundness.{
  journal_of, start_server, start-IsSound, serve_all-restart, post_event-forges,
}
use genesis_ssmp.Tests.Codec.{test_env, write_event, test_env-IsReliable, test_env-Distinct}

-- Two events of one line, and one that is longer than a reader's buffer.
abbrev first_event : Bytes
first_event = bytes "{\"type\":\"pf\"}"

abbrev second_event : Bytes
second_event = bytes "[1,2]"

first_event-IsLine : IsLine buffer_size first_event
unfolding drop_cr
first_event-IsLine = record { one_line = omega arith; kept = refl; full = refl; fits = omega arith }

second_event-IsLine : IsLine buffer_size second_event
unfolding drop_cr
second_event-IsLine = record {
  one_line = omega arith;
  kept = refl;
  full = refl;
  fits = omega arith;
}

digits_of : ℕ → Bytes
digits_of zero = []
digits_of (suc n) = b'1' ∷ digits_of n

length-digits_of : (n : ℕ) → length (digits_of n) ≡ n
unfolding digits_of
length-digits_of zero = refl
length-digits_of (suc n) = omega (arith, length-digits_of n)

digits_of-NoNewline : (n : ℕ) → NoNewline (digits_of n)
unfolding digits_of
digits_of-NoNewline zero = tt
digits_of-NoNewline (suc n) = (omega arith, digits_of-NoNewline n)

all-append_all_example :
    (all (append_all none (first_event ∷ second_event ∷ []))
      ≡ some (first_event ∷ second_event ∷ []))
    × (len (append_all none (first_event ∷ second_event ∷ [])) ≡ some 2)
    × (tail 1 (append_all none (first_event ∷ second_event ∷ [])) ≡ some (second_event ∷ []))
all-append_all_example =
    all-append_all 1 (first_event ∷ second_event ∷ [])
      (first_event-IsLine, (second_event-IsLine, tt))

-- Owner "a" has leased the file "x"; owner "b" asks for it and for the file "y".
abbrev first_lease : Lease
first_lease = record {
  lease_id = 0 ∷ [];
  owner_id = bytes "a";
  mission_id = bytes "m1";
  scope_type = bytes "file";
  scope_value = bytes "x";
  issued_at = bytes "t0";
  expires_at = [];
}

abbrev leased : State
leased = record (issue first_lease empty_state) { drawn = 1 }

leased-IsIndexed : IsIndexed test_env leased
unfolding get
leased-IsIndexed =
    issue-IsIndexed test_env first_lease empty_state (start-IsSound test_env).indexed refl refl
      test_env-Distinct

abbrev file_target : Bytes → ScopeTarget
file_target path = record { scope_type = bytes "file"; scope_value = path }

abbrev contending : AcquireRequest
contending = record {
  owner_id = bytes "b";
  mission_id = bytes "m2";
  scopes = file_target (bytes "x") ∷ file_target (bytes "y") ∷ [];
}

acquire-Serves_example :
    (s' : State) × (r' : AcquireResult) × (acquire test_env (bytes "t1") contending leased
      ≡ some (s', r'))
    × Serves test_env
        (bytes "b")
        contending.scopes
        leased
        (record { acquired = []; denied = [] })
        s'
        r'
acquire-Serves_example =
    acquire-Serves test_env (bytes "t1") contending leased test_env-Distinct leased-IsIndexed

release-Releases_example :
    Releases test_env
      ((0 ∷ []) ∷ (9 ∷ []) ∷ (0 ∷ []) ∷ [])
      leased
      0
      (release test_env ((0 ∷ []) ∷ (9 ∷ []) ∷ (0 ∷ []) ∷ []) leased).0
      (release test_env ((0 ∷ []) ∷ (9 ∷ []) ∷ (0 ∷ []) ∷ []) leased).1
release-Releases_example =
    release-Releases test_env ((0 ∷ []) ∷ (9 ∷ []) ∷ (0 ∷ []) ∷ []) leased leased-IsIndexed

abbrev bumped_paths : List Bytes
bumped_paths = bytes "x" ∷ bytes "y" ∷ bytes "x" ∷ []

increment-get_clocks_example :
    let s' = (increment test_env bumped_paths leased).0 in
    (clock s'.clocks (bytes "x")
      ≡ clock leased.clocks (bytes "x") + occurrences (bytes "x") bumped_paths)
    × (get (bytes "x") (get_clocks s' (bytes "x" ∷ [])) ≡ (
        if ltb 0 (occurrences (bytes "x") (bytes "x" ∷ []))
        then some (clock leased.clocks (bytes "x") + occurrences (bytes "x") bumped_paths)
        else none))
    × (s'.leases ≡ leased.leases)
    × (s'.scopes ≡ leased.scopes)
increment-get_clocks_example =
    increment-get_clocks test_env bumped_paths (bytes "x" ∷ []) leased (bytes "x")

abbrev manifest : ManifestRequest
manifest = record {
  owner_id = bytes "a";
  mission_id = bytes "m1";
  symbols_touched = [];
  files_touched = bytes "x" ∷ [];
  expected_clocks = some ((bytes "x", pos 0) ∷ []);
}

validate_manifest-allowed_iff_example : ((validate_manifest leased manifest).allowed ≡ true) ↔ (
    HoldsAll leased (bytes "a") (bytes "symbol") []
    × HoldsAll leased (bytes "a") (bytes "file") (bytes "x" ∷ [])
    × ClocksMatch leased (some ((bytes "x", pos 0) ∷ [])))
validate_manifest-allowed_iff_example = validate_manifest-allowed_iff leased manifest

abbrev requests : List Request
requests =
    acquire_leases (bytes "t0") (record contending { owner_id = bytes "a" })
    ∷ acquire_leases (bytes "t1") contending
    ∷ post_event (9 ∷ [])
    ∷ increment_clocks bumped_paths
    ∷ release_leases ((0 ∷ []) ∷ [])
    ∷ check_manifest manifest
    ∷ []

-- The test of a line.
abbrev has_newline : Bytes → Bool
has_newline [] = false
has_newline (c ∷ s) = c == b'\n' || has_newline s

abbrev is_line : Bytes → Bool
is_line e =
    not (has_newline e) && same (drop_cr e) e && not (is_empty e) && ltb (length e) buffer_size

abbrev are_lines : List Bytes → Bool
are_lines [] = true
are_lines (e ∷ es) = is_line e && are_lines es

has_newline-NoNewline : (e : Bytes) → has_newline e ≡ false → NoNewline e
has_newline-NoNewline [] h = tt
has_newline-NoNewline (c ∷ e) h = (ground (arith, h), has_newline-NoNewline e (ground (arith, h)))

are_lines-IsLine : (es : List Bytes) → are_lines es ≡ true → All (IsLine buffer_size) es
are_lines-IsLine [] h = tt
are_lines-IsLine (e ∷ es) h = (
  record {
    one_line = has_newline-NoNewline e (ground (arith, h));
    kept = (same_iff (drop_cr e) e).0 (ground (arith, h));
    full = ground (arith, h);
    fits = ground (arith, h);
  },
  are_lines-IsLine es (ground (arith, h)),
)

requests-are_lines : are_lines (journal_of (serve_all test_env requests start_server)) ≡ true
unfolding serve_all serve handle_append_event handle_lease_acquire handle_lease_release
    handle_file_clock_inc acquire acquire_scopes acquire_scope release release_from release_one
    increment bump_all log_event log_raw issue get put same drop_cr scope_key
requests-are_lines = refl

serve_all-restart_example :
    (srv : Server) × (serve_all test_env requests start_server ≡ some srv)
    × IsIndexed test_env srv.state
    × (new_server test_env srv.state.drawn srv.state.journal
        ≡ some (record { state = srv.state; state_rev = length srv.state.journal }))
serve_all-restart_example =
    serve_all-restart test_env requests test_env-IsReliable test_env-Distinct
      (tt, (tt, (inl refl, (tt, (tt, (tt, tt))))))
      (are_lines-IsLine (journal_of (serve_all test_env requests start_server)) requests-are_lines)

forged-are_lines : are_lines (write_event (lease_issued first_lease) ∷ []) ≡ true
unfolding same drop_cr
forged-are_lines = refl

post_event-forges_example :
    let s' =
      (handle_append_event test_env
        (write_event (lease_issued first_lease))
        start_server).0.state in
    SameMaps s' empty_state
    × ((t : Server) × (new_server test_env s'.drawn s'.journal ≡ some t)
        × (owner_holds_scope t.state (bytes "a") (bytes "file") (bytes "x") ≡ true))
post_event-forges_example =
    post_event-forges test_env (write_event (lease_issued first_lease)) first_lease start_server
      test_env-IsReliable (start-IsSound test_env).logged refl
      (test_env-IsReliable.reads (lease_issued first_lease))
      (are_lines-IsLine (write_event (lease_issued first_lease) ∷ []) forged-are_lines)

-- The lease on the file "x" is released before "b" asks.
contending-named :
    (k : Bytes)
    → wants contending.scopes k ≡ true
    → unindexed ((0 ∷ []) ∷ []) (get k leased.scopes) ≡ none
unfolding get put issue
contending-named k h = ground (arith, same_refl (0 ∷ []))

release-acquire_example :
    (s' : State) × (r : AcquireResult) × (acquire test_env
        (bytes "t1")
        contending
        (release test_env ((0 ∷ []) ∷ []) leased).0
      ≡ some (s', r))
    × (r.denied ≡ [])
    × ((k : Bytes)
        → holder s' k ≡ (
            if wants contending.scopes k
            then some (bytes "b")
            else holder (release test_env ((0 ∷ []) ∷ []) leased).0 k))
release-acquire_example =
    release-acquire test_env (bytes "t1") ((0 ∷ []) ∷ []) contending leased test_env-Distinct
      leased-IsIndexed contending-named
