-- ===== src/Tests/Packing.antt =====
-- god/prompt_compiler.go: the budget of a concrete pack.
use genesis_ssmp.God.PromptCompiler.Pinned.{Pins}
use genesis_ssmp.God.PromptCompiler.Scoring.{Covers}
use genesis_ssmp.Base.{ℕ, ◌+◌, ◌≡◌, refl, false, some, List, [], ◌∷◌, ◌++◌, Bytes, bytes, pos}
use genesis_ssmp.God.Missions.{Mission}
use genesis_ssmp.God.Provider.{PromptRef, MissionPack, PackedShard}
use genesis_ssmp.God.PromptCompiler.{
  CandidateShard, PackHost, tokens_of, room_in, regular, score_shards, compile_pack,
}
use genesis_ssmp.God.PromptCompiler.Packing.{Greedy, tokens_in, compile_pack-Greedy}

abbrev mission : Mission
mission = record {
  mission_id = bytes "m1";
  goal = [];
  base_rev = [];
  scopes = [];
  lease_ids = [];
  tasks = [];
  token_budget = pos 60;
  created_at = [];
}

abbrev candidate : Bytes → CandidateShard
candidate id = record {
  kind = bytes "symdef";
  blob_id = id;
  content = bytes "func f() {}";
  symbol = [];
  path = [];
  test_relevant = false;
  hotset_hit = false;
  recently_touched = false;
}

abbrev section : CandidateShard
section = record (candidate (bytes "s")) {
  kind = bytes "prompt_section";
  symbol = bytes "section_2";
}

abbrev prompt : PromptRef
prompt = record {
  prompt_id = bytes "p1";
  pinned_sections = pos 7 ∷ pos 2 ∷ [];
  recommended_by_role = [];
  total_sections = pos 3;
  total_tokens = pos 9;
  inlined_tokens = pos 3;
}

abbrev candidates : List CandidateShard
candidates = section ∷ candidate (bytes "a") ∷ candidate (bytes "a") ∷ candidate (bytes "b") ∷ []

abbrev host : PackHost
host = record {
  now = bytes "t";
  mission_json = λ m. some (bytes "{}");
  scores_above = λ c d. false;
  by_score = λ cs. cs;
  meta_json = λ m. [];
}

compile_pack-Greedy_example :
    (pack : MissionPack) × (left : ℕ) × (pinned : List PackedShard) × (out : List PackedShard)
    × (d : ℕ) × (compile_pack host (bytes "e") mission candidates (some prompt) ≡ some pack)
    × (pack.inline_shards ≡ pinned ++ out)
    × ((between : ℕ) × Pins host candidates
          (room_in mission.token_budget (tokens_of pack.header + tokens_of (bytes "{}")))
          (pos 7 ∷ pos 2 ∷ [])
          pinned
          between)
    × (pack.budget_meta.shard_tokens ≡ pos (tokens_in pack.inline_shards))
    × (pack.budget_meta.shards_dropped ≡ pos d)
    × (tokens_in pack.inline_shards + left
        ≡ room_in mission.token_budget (tokens_of pack.header + tokens_of (bytes "{}")))
    × Covers candidates (score_shards host (regular candidates))
    × Greedy host left (score_shards host (regular candidates)) out d
compile_pack-Greedy_example =
    compile_pack-Greedy host (bytes "e") (bytes "{}") mission candidates (some prompt) refl
      (λ cs c. (λ k. k, λ k. k))
