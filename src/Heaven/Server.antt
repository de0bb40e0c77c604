-- ===== src/Heaven/Server.antt =====
-- heaven/server.go: start, events, leases, file clocks and manifest validation. A request stands
-- for a body that decoded; HTTP and the requests that only read are not modelled, except for the
-- validation of a manifest and the clocks.
pub mod Manifest
pub mod Soundness
use genesis_ssmp.Base.{
  ℕ, suc, ◌+◌, Bool, true, false, not, ◌||◌, ◌&&◌, Option, none, some, List, [], ◌∷◌, ◌++◌, ◌==◌,
  if◌then◌else◌, length, Bytes, bytes, is_empty, Dict, get, ℤ, pos, negsuc,
}
use genesis_ssmp.Heaven.EventLog.{all, len, append_all}
use genesis_ssmp.Heaven.State.{Env, State, log_raw, empty_state}
use genesis_ssmp.Heaven.Leases.{
  AcquireRequest, AcquireResult, acquire, release, owner_holds_scope, new_lease_manager,
}
use genesis_ssmp.Heaven.FileClock.{increment, get_clocks, new_file_clock, or_zero}

pub record Server : Type 0 where
  pub state : State
  pub state_rev : ℕ

abbrev pub is_nil {ℓ} : {A : Type ℓ} → List A → Bool
is_nil [] = true
is_nil (_ ∷ _) = false

-- `ValidateManifestRequest`; `expected_clocks` may be missing.
pub record ManifestRequest : Type 0 where
  pub owner_id : Bytes
  pub mission_id : Bytes
  pub symbols_touched : List Bytes
  pub files_touched : List Bytes
  pub expected_clocks : Option (Dict ℤ)

-- The parts of a line "path: expected=… actual=…".
pub record Drift : Type 0 where
  pub path : Bytes
  pub expected : ℤ
  pub actual : ℕ

-- The strings "", "missing leases", "file clock drift" and "missing leases; file clock drift".
pub data Reason : Type 0 where
  no_reason missing_leases_only clock_drift_only leases_and_drift : Reason

pub record ManifestResponse : Type 0 where
  pub allowed : Bool
  pub reason : Reason
  pub missing_leases : List Bytes
  pub clock_drift : List Drift

-- The loops over the symbols and the files: what the owner does not hold.
unfoldable pub missing : State → Bytes → Bytes → List Bytes → List Bytes
missing s owner scope_type [] = []
missing s owner scope_type (v ∷ vs) =
    let rest = missing s owner scope_type vs in
    if owner_holds_scope s owner scope_type v then rest else (scope_type ++ (b':' ∷ v)) ∷ rest

unfoldable pub clock_is : ℕ → ℤ → Bool
clock_is actual (pos n) = actual == n
clock_is actual (negsuc n) = false

abbrev pub keys_of {ℓ} : {V : Type ℓ} → Dict V → List Bytes
keys_of [] = []
keys_of ((k, v) ∷ m) = k ∷ keys_of m

-- `for p, expected := range req.ExpectedClocks`, in some order.
unfoldable pub drifted : Dict ℕ → Dict ℤ → List Drift
unfolding clock_is
drifted current [] = []
drifted current ((p, e) ∷ m) =
    let actual = or_zero (get p current) in
    let rest = drifted current m in
    if clock_is actual e then rest else record { path = p; expected = e; actual = actual } ∷ rest

unfoldable pub clock_drift : State → Option (Dict ℤ) → List Drift
unfolding drifted
clock_drift s none = []
clock_drift s (some expected) = drifted (get_clocks s (keys_of expected)) expected

abbrev pub reason_of : Bool → Bool → Reason
reason_of true true = leases_and_drift
reason_of true false = missing_leases_only
reason_of false true = clock_drift_only
reason_of false false = no_reason

-- `handleValidateManifest` after its check of the owner.
unfoldable pub validate_manifest : State → ManifestRequest → ManifestResponse
unfolding missing clock_drift
validate_manifest s req =
    let leases =
      missing s req.owner_id (bytes "symbol") req.symbols_touched
      ++ missing s req.owner_id (bytes "file") req.files_touched in
    let drift = clock_drift s req.expected_clocks in
    record {
      allowed = is_nil leases && is_nil drift;
      reason = reason_of (not (is_nil leases)) (not (is_nil drift));
      missing_leases = leases;
      clock_drift = drift;
    }

pub data Request : Type 0 where
  post_event : Bytes → Request
  acquire_leases : Bytes → AcquireRequest → Request
  release_leases : List Bytes → Request
  increment_clocks : List Bytes → Request
  read_clocks : List Bytes → Request
  check_manifest : ManifestRequest → Request

pub data Answer : Type 0 where
  bad_request internal_error appended : Answer
  acquired_leases : AcquireResult → Answer
  released_leases : ℕ → Answer
  clocks_are : Dict ℕ → Answer
  manifest_is : ManifestResponse → Answer

abbrev pub moved : State → Server → Server
moved s srv = record { state = s; state_rev = suc srv.state_rev }

-- `handleAppendEvent`; `body` is at most 1 MiB. The offset is not kept.
unfoldable pub handle_append_event : Env → Bytes → Server → Server × Answer
handle_append_event env body srv =
    if env.valid body
    then (let (s, done) = log_raw env body srv.state in
        if done then (moved s srv, appended) else (record srv { state = s }, internal_error))
    else (srv, bad_request)

-- `handleLeaseAcquire`; `none` is a panic of the handler.
unfoldable pub handle_lease_acquire :
    Env → Bytes → AcquireRequest → Server → Option (Server × Answer)
handle_lease_acquire env now req srv =
    if is_empty req.owner_id || is_empty req.mission_id || is_nil req.scopes
    then some (srv, bad_request)
    else elim (acquire env now req srv.state) [
      | none ↦ none
      | some (s, r) ↦ some (moved s srv, acquired_leases r)
    ]

-- `handleLeaseRelease`
unfoldable pub handle_lease_release : Env → List Bytes → Server → Server × Answer
handle_lease_release env ids srv =
    let (s, n) = release env ids srv.state in (moved s srv, released_leases n)

-- `handleFileClockInc`
unfoldable pub handle_file_clock_inc : Env → List Bytes → Server → Server × Answer
handle_file_clock_inc env paths srv =
    if is_nil paths
    then (srv, bad_request)
    else (let (s, done) = increment env paths srv.state in
        if done
        then (moved s srv, clocks_are (get_clocks s paths))
        else (record srv { state = s }, internal_error))

-- `handleValidateManifest`
unfoldable pub handle_validate_manifest : ManifestRequest → Server → Answer
unfolding validate_manifest
handle_validate_manifest req srv =
    if is_empty req.owner_id then bad_request else manifest_is (validate_manifest srv.state req)

unfoldable pub serve : Env → Request → Server → Option (Server × Answer)
unfolding handle_append_event handle_lease_acquire handle_lease_release handle_file_clock_inc
serve env (post_event body) srv = some (handle_append_event env body srv)
serve env (acquire_leases now req) srv = handle_lease_acquire env now req srv
serve env (release_leases ids) srv = some (handle_lease_release env ids srv)
serve env (increment_clocks paths) srv = some (handle_file_clock_inc env paths srv)
serve env (read_clocks paths) srv = some (srv, clocks_are (get_clocks srv.state paths))
serve env (check_manifest req) srv = some (srv, handle_validate_manifest req srv)

unfoldable pub serve_all : Env → List Request → Server → Option Server
unfolding serve
serve_all env [] srv = some srv
serve_all env (r ∷ rs) srv = elim (serve env r srv) [
  | none ↦ none
  | some (srv', a) ↦ serve_all env rs srv'
]

-- The revision of a server that starts, from `Len`.
abbrev pub started : State → Option ℕ → Option Server
started s none = none
started s (some count) = some (record { state = s; state_rev = count })

-- `NewServer` over the file of a log to which `texts` were appended: `All` and `Len` read its lines.
-- `drawn` counts the identifiers drawn before, and `none` is an error.
unfoldable pub new_server : Env → ℕ → List Bytes → Option Server
unfolding all len
new_server env drawn texts =
    let file = append_all none texts in
    elim (new_lease_manager env (all file)
      (record empty_state { journal = texts; drawn = drawn })) [
        | none ↦ none
        | some s ↦ elim (new_file_clock env (all file) s) [
          | none ↦ none
          | some s' ↦ started s' (len file)
        ]
      ]
