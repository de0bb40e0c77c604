-- ===== src/Tests/Faults.antt =====
-- The page faults of heaven/: the properties at concrete inputs.
use genesis_ssmp.Base.{
  List, ◌≡◌, ◌≤◌, refl, true, false, none, some, Bool, Option, [], ◌∷◌, Bytes, bytes, get, put,
  same, same_iff, if◌then◌else◌, pos, Dict,
}
use genesis_ssmp.Heaven.Json.{no_more, nothing}
use genesis_ssmp.Heaven.Blobs.{
  done, StaysAddressed, BlobHost, Addressed, Stored, put_blob, get_blob, put_blob-Stored,
}
use genesis_ssmp.Heaven.Commands.{
  PfArgs, PfRequest, Shard, PfHost, Faults, metrics_of, mission_key, set_metrics, store_shard,
  store_answer,
}
use genesis_ssmp.Heaven.Lookups.{handle_tests}
use genesis_ssmp.Heaven.Router.{
  PfResponse, PfGovernorConfig, handle, governed, govern_all, with_budget, finish, respond,
  dispatch, command_of, count_call, count_bytes, log_pf_event, total_bytes,
}
use genesis_ssmp.Heaven.Router.Metering.{Metered, OthersStay, handle-Metered}
use genesis_ssmp.Heaven.Router.Budget.{answers_of, govern_all-budget}
use genesis_ssmp.Heaven.Delta.{or_empty, check_and_update}
use genesis_ssmp.Heaven.Delta.Serving.{WasServed, Answers, check_and_update-Answers}

-- The hash of a text is the text, and every text can be stored.
abbrev blob_host : BlobHost
blob_host = record { sha256 = λ t. t; write = λ t. done }

-- An empty index without prompts; every value is written as "{}".
abbrev pf_host : PfHost
pf_host = record {
  stats = none;
  symdef = λ s. none;
  symdef_with_depth = λ s d. none;
  callers = λ s n. some nothing;
  slice = λ p s n. none;
  search = λ q n. none;
  get_section = λ p i. none;
  search_sections = λ p q. none;
  get_prompt = λ p. none;
  marshal = λ j. some (bytes "{}");
  blob_host = blob_host;
  written = λ log e. true;
}

abbrev tests_args : PfArgs
tests_args = record {
  mission_id = bytes "m";
  symbol = bytes "f";
  path = [];
  start_line = pos 0;
  n = pos 0;
  query = [];
  top_k = pos 0;
  depth = [];
  prompt_id = [];
  section_index = pos 0;
}

abbrev tests_request : PfRequest
tests_request = record { type = bytes "request"; command = bytes "PF_TESTS"; args = tests_args }

abbrev no_faults : Faults
no_faults = record { missions = []; blobs = []; journal = [] }

abbrev one_call : PfGovernorConfig
one_call = record { max_pf_calls = 1; max_shard_bytes = 100 }

handle-Metered_example :
    Metered tests_request no_faults (handle pf_host tests_request no_faults)
    × OthersStay tests_request no_faults (handle pf_host tests_request no_faults).0 (bytes "k")
handle-Metered_example = handle-Metered pf_host tests_request no_faults (bytes "k")

govern_all-budget_example :
    let d = govern_all pf_host one_call (tests_request ∷ tests_request ∷ []) no_faults in
    (answers_of (bytes "m") d.1 ≤ (metrics_of (bytes "m") d.0).pf_count)
    × ((metrics_of (bytes "m") d.0).pf_count ≤ 1)
govern_all-budget_example =
    govern_all-budget pf_host one_call (tests_request ∷ tests_request ∷ []) [] [] (bytes "m")

abbrev or_blank : Option PfResponse → PfResponse
or_blank none = record {
  type = [];
  shards = [];
  meta = record { pf_count = 0; shard_bytes = 0; prefetched = false; budget_remaining = none };
}
or_blank (some r) = r

abbrev first_answer : PfResponse
first_answer = or_blank (governed pf_host one_call tests_request no_faults).1

governed-answers : (governed pf_host one_call tests_request no_faults).1 ≡ some first_answer
unfolding governed metrics_of set_metrics handle finish respond dispatch command_of count_call
    count_bytes log_pf_event total_bytes handle_tests store_answer store_shard put_blob get_blob
    mission_key with_budget get put same
governed-answers = refl

abbrev two_blobs : Dict Bytes
two_blobs = (bytes "a", bytes "a") ∷ []

two_blobs-Addressed : (id : Bytes) → Addressed blob_host (get_blob id two_blobs) id
unfolding get_blob get
two_blobs-Addressed id = go (same (bytes "a") id) refl
  where
    go :
        (b : Bool)
        → same (bytes "a") id ≡ b
        → Addressed blob_host (if b then some (bytes "a") else none) id
    go true e = (same_iff (bytes "a") id).0 e
    go false e = tt

put_blob-Stored_example :
    Stored blob_host (bytes "b") two_blobs (put_blob blob_host (bytes "b") two_blobs) (bytes "a")
    × StaysAddressed blob_host (bytes "b") (put_blob blob_host (bytes "b") two_blobs).0 (bytes "a")
put_blob-Stored_example =
    put_blob-Stored blob_host (bytes "b") two_blobs (bytes "a") (λ a b e. e) two_blobs-Addressed

abbrev tests_shard : Shard
tests_shard = record { kind = bytes "tests"; blob_id = bytes "{}"; meta = no_more }

check_and_update-Answers_example :
    let (missions', (result, hits)) =
      check_and_update
        (λ n. bytes "1")
        (bytes "m")
        (bytes "PF_TESTS")
        tests_args
        (tests_shard ∷ tests_shard ∷ [])
        [] in
    (now : List Bytes) × Answers [] (tests_shard ∷ tests_shard ∷ []) result hits now
    × ((j : Bytes) → WasServed now (get j (or_empty (get (bytes "m") missions'))))
    × (get (bytes "k") missions'
        ≡ (if same (bytes "m") (bytes "k") then get (bytes "m") missions' else get (bytes "k") []))
unfolding get
check_and_update-Answers_example =
    check_and_update-Answers (λ n. bytes "1") (bytes "m") (bytes "PF_TESTS") tests_args
      (tests_shard ∷ tests_shard ∷ []) [] [] (bytes "k") (λ j. tt)
