-- ===== src/Heaven/Delta.antt =====
-- heaven/pf_delta.go. `decimal` is the text of an `int`.
pub mod Serving
use genesis_ssmp.Base.{
  ℕ, suc, Bool, false, Option, none, some, List, [], ◌∷◌, ◌++◌, if◌then◌else◌, Bytes, bytes, same,
  Dict, get, put, ℤ,
}
use genesis_ssmp.Heaven.Json.{str, no_more, field}
use genesis_ssmp.Heaven.Commands.{PfArgs, Shard}

-- `shardKey`
unfoldable pub shard_key : (ℤ → Bytes) → Bytes → Bytes → PfArgs → Bytes
shard_key decimal kind command args =
    if same command (bytes "PF_SYMDEF")
    then bytes "symdef:" ++ args.symbol
    else if same command (bytes "PF_CALLERS")
    then bytes "callers:" ++ args.symbol
    else if same command (bytes "PF_SLICE")
    then bytes "slice:"
      ++ args.path
      ++ bytes ":"
      ++ decimal args.start_line
      ++ bytes ":"
      ++ decimal args.n
    else if same command (bytes "PF_SEARCH")
    then bytes "search:" ++ args.query
    else if same command (bytes "PF_TESTS")
    then bytes "tests:" ++ args.symbol
    else kind ++ bytes ":" ++ command ++ bytes ":" ++ args.mission_id

-- A `ShardVersion` is its blob: its key is the key of the map.
abbrev pub Versions : Type 0
Versions = Dict Bytes

abbrev pub is_version : Option Bytes → Bytes → Bool
is_version none blob = false
is_version (some prev) blob = same prev blob

unfoldable pub sentinel : Bytes → Shard → Shard
sentinel key shard = record {
  kind = bytes "unchanged";
  blob_id = shard.blob_id;
  meta = field (bytes "original_kind") (str shard.kind) (field (bytes "key") (str key) no_more);
}

-- The loop of `CheckAndUpdate`: the versions, the shards to send and the hits.
unfoldable pub check_shards : (Bytes → Bytes) → List Shard → Versions → Versions × (List Shard × ℕ)
unfolding sentinel
check_shards key_of [] versions = (versions, ([], 0))
check_shards key_of (shard ∷ shards) versions =
    let key = key_of shard.kind in
    if is_version (get key versions) shard.blob_id
    then (let (after, (result, hits)) = check_shards key_of shards versions in
        (after, (sentinel key shard ∷ result, suc hits)))
    else (let (after, (result, hits)) =
          check_shards key_of shards (put key shard.blob_id versions) in
        (after, (shard ∷ result, hits)))

abbrev pub or_empty : Option Versions → Versions
or_empty none = []
or_empty (some v) = v

-- `CheckAndUpdate`
unfoldable pub check_and_update :
    (ℤ → Bytes)
    → Bytes
    → Bytes
    → PfArgs
    → List Shard
    → Dict Versions
    → Dict Versions × (List Shard × ℕ)
unfolding shard_key check_shards
check_and_update decimal mission_id command args shards missions =
    let (after, answer) =
      check_shards (λ kind. shard_key decimal kind command args) shards
        (or_empty (get mission_id missions)) in
    (put mission_id after missions, answer)
