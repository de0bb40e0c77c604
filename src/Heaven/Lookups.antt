-- ===== src/Heaven/Lookups.antt =====
-- heaven/pf.go: the handlers of the commands on the index.
use genesis_ssmp.Base.{
  Bool, true, false, Option, none, some, List, [], ◌∷◌, ◌++◌, if◌then◌else◌, Bytes, bytes, is_empty,
  same, pos,
}
use genesis_ssmp.Heaven.Json.{
  null, Json, str, num, boolean, arr, obj, Elements, nothing, element, Fields, no_more, field,
}
use genesis_ssmp.Heaven.Commands.{
  PfArgs, Shard, PfHost, Faults, Handled, store_shard, store_answer, or_default, one_field,
  metrics_of,
}

-- `handleStatus`
unfoldable pub handle_status : PfHost → PfArgs → Faults → Handled
unfolding store_answer metrics_of
handle_status host args s = elim host.stats [
  | none ↦ (s, none)
  | some stats ↦
      let m = metrics_of args.mission_id s in
      store_answer host (bytes "status")
        (some (
          obj (
            field (bytes "mission_id") (str args.mission_id) (
              field (bytes "pf_count") (num (pos m.pf_count)) (
                field (bytes "shard_bytes") (num (pos m.shard_bytes))
                  (field (bytes "index_stats") stats no_more))))))
        (one_field (bytes "mission_id") args.mission_id) s
]

-- The callers that come with a definition: `len(refs) > 0`, and an error is dropped.
unfoldable pub prefetch_callers :
    PfHost → Bytes → Option Elements → List Shard → Faults → Faults × (List Shard × Bool)
unfolding store_shard
prefetch_callers host symbol none shards s = (s, (shards, false))
prefetch_callers host symbol (some nothing) shards s = (s, (shards, false))
prefetch_callers host symbol (some (element r refs)) shards s =
    let (s', shard) =
      store_shard host (bytes "callers") (arr (element r refs)) (one_field (bytes "symbol") symbol)
        s in
    elim shard [
      | none ↦ (s', (shards, false))
      | some caller_shard ↦ (s', (shards ++ caller_shard ∷ [], true))
    ]

abbrev pub stub_meta : Bytes → Fields
stub_meta symbol = field (bytes "symbol") (str symbol) (field (bytes "stub") (boolean true) no_more)

-- The tests that come with a definition: a stub.
unfoldable pub prefetch_tests : PfHost → Bytes → List Shard → Faults → Faults × List Shard
unfolding store_shard
prefetch_tests host symbol shards s =
    let (s', shard) = store_shard host (bytes "tests") (arr nothing) (stub_meta symbol) s in
    elim shard [ none ↦ (s', shards) | some tests_shard ↦ (s', shards ++ tests_shard ∷ []) ]

abbrev pub depth_of : PfArgs → Bytes
depth_of args = if is_empty args.depth then bytes "full" else args.depth

unfoldable pub symdef_answer : PfHost → PfArgs → Option Json
symdef_answer host args =
    if same (depth_of args) (bytes "full")
    then host.symdef args.symbol
    else host.symdef_with_depth args.symbol (depth_of args)

-- `handleSymdef`; the Boolean says if callers were prefetched.
unfoldable pub handle_symdef : PfHost → PfArgs → Faults → Faults × Option (List Shard × Bool)
unfolding symdef_answer store_answer prefetch_callers prefetch_tests or_default
handle_symdef host args s =
    if is_empty args.symbol
    then (s, none)
    else let meta =
        field (bytes "symbol") (str args.symbol)
          (field (bytes "depth") (str (depth_of args)) no_more) in
      let (s1, sym_shard) = store_answer host (bytes "symdef") (symdef_answer host args) meta s in
      elim sym_shard [
        | none ↦ (s1, none)
        | some shards ↦
            let (s2, (with_callers, prefetched)) =
              prefetch_callers host args.symbol
                (host.callers args.symbol (or_default args.top_k 10)) shards s1 in
            let (s3, all_shards) = prefetch_tests host args.symbol with_callers s2 in
            (s3, some (all_shards, prefetched))
      ]

-- A nil slice is written as null.
abbrev pub callers_answer : Option Elements → Option Json
callers_answer none = none
callers_answer (some nothing) = some null
callers_answer (some (element r refs)) = some (arr (element r refs))

-- `handleCallers`
unfoldable pub handle_callers : PfHost → PfArgs → Faults → Handled
unfolding store_answer or_default
handle_callers host args s =
    if is_empty args.symbol
    then (s, none)
    else store_answer host (bytes "callers")
        (callers_answer (host.callers args.symbol (or_default args.top_k 20)))
        (one_field (bytes "symbol") args.symbol) s

abbrev pub slice_answer : Option Bytes → Option Json
slice_answer none = none
slice_answer (some content) = some (obj (one_field (bytes "content") content))

-- `handleSlice`
unfoldable pub handle_slice : PfHost → PfArgs → Faults → Handled
unfolding store_answer or_default
handle_slice host args s =
    if is_empty args.path
    then (s, none)
    else let start_line = or_default args.start_line 1 in
      let n = or_default args.n 20 in
      store_answer host (bytes "slice") (slice_answer (host.slice args.path start_line n))
        (field (bytes "path") (str args.path) (
          field (bytes "start_line") (num (pos start_line))
            (field (bytes "n") (num (pos n)) no_more)))
        s

-- `handleSearch`
unfoldable pub handle_search : PfHost → PfArgs → Faults → Handled
unfolding store_answer or_default
handle_search host args s =
    if is_empty args.query
    then (s, none)
    else store_answer host (bytes "search") (host.search args.query (or_default args.top_k 20))
        (one_field (bytes "query") args.query) s

-- `handleTests`
unfoldable pub handle_tests : PfHost → PfArgs → Faults → Handled
unfolding store_answer
handle_tests host args s =
    if is_empty args.symbol
    then (s, none)
    else store_answer host (bytes "tests") (some (arr nothing)) (stub_meta args.symbol) s
