-- ===== src/God/PromptCompiler.antt =====
-- god/prompt_compiler.go: the shards of a mission pack under its budget. Scores are floating point
-- numbers: which of two shards has the greater one, and the sort by score, are parameters.
pub mod Packing
pub mod Pinned
pub mod Scoring
use genesis_ssmp.Base.{
  ℕ, suc, ◌+◌, ◌-◌, ◌/◌, Bool, true, false, not, ◌&&◌, Option, none, some, List, [], ◌∷◌, ◌++◌, ltb,
  leb, if◌then◌else◌, length, Bytes, bytes, is_empty, same, ℤ, pos, negsuc, Result, ok, err,
}
use genesis_ssmp.God.Missions.{Mission}
use genesis_ssmp.God.MacroOps.{decimal}
use genesis_ssmp.God.Planner.{is_among}
use genesis_ssmp.God.Provider.{PackedShard, BudgetMeta, MissionPack, PromptRef}

pub record CandidateShard : Type 0 where
  pub kind : Bytes
  pub blob_id : Bytes
  pub content : Bytes
  pub symbol : Bytes
  pub path : Bytes
  pub test_relevant : Bool
  pub hotset_hit : Bool
  pub recently_touched : Bool

pub record PromptSectionInfo : Type 0 where
  pub index : ℤ
  pub section_type : Bytes
  pub title : Bytes
  pub content : Bytes
  pub byte_len : ℤ

-- The types that a role has pinned; a role that is not known is a builder.
abbrev pub pin_types : Bytes → List Bytes
pin_types role =
    if same role (bytes "planner")
    then bytes "constraints" ∷ bytes "acceptance" ∷ bytes "spec" ∷ []
    else if same role (bytes "reviewer")
    then bytes "acceptance" ∷ bytes "security" ∷ bytes "constraints" ∷ []
    else bytes "api" ∷ bytes "constraints" ∷ bytes "examples" ∷ []

-- `PinnedSectionsForRole`
unfoldable pub pinned_sections_for_role : Bytes → List PromptSectionInfo → List ℤ
unfolding is_among
pinned_sections_for_role role [] = []
pinned_sections_for_role role (sec ∷ secs) =
    let rest = pinned_sections_for_role role secs in
    if is_among sec.section_type (pin_types role) then sec.index ∷ rest else rest

-- `EstimateTokens`
abbrev pub tokens_of : Bytes → ℕ
tokens_of text = length text / 4 + 10

-- What the meta data of a packed shard say, before they are JSON.
pub data ShardMeta : Type 0 where
  pinned_meta : ℤ → ShardMeta
  scored_meta : CandidateShard → ℕ → ShardMeta

-- The clock, the JSON of a mission, the comparison of scores, the sort, and the JSON of meta data.
pub record PackHost : Type 0 where
  pub now : Bytes
  pub mission_json : Mission → Option Bytes
  pub scores_above : CandidateShard → CandidateShard → Bool
  pub by_score : List CandidateShard → List CandidateShard
  pub meta_json : ShardMeta → Bytes

-- The first loop of `ScoreShards`, one candidate: of two with one blob the better stays, in its place.
unfoldable pub add_candidate : PackHost → CandidateShard → List CandidateShard → List CandidateShard
add_candidate host c [] = c ∷ []
add_candidate host c (s ∷ ss) =
    let rest = add_candidate host c ss in
    if not (is_empty c.blob_id) && same s.blob_id c.blob_id
    then (if host.scores_above c s then c ∷ ss else s ∷ ss)
    else s ∷ rest

unfoldable pub add_candidates :
    PackHost → List CandidateShard → List CandidateShard → List CandidateShard
unfolding add_candidate
add_candidates host scored [] = scored
add_candidates host scored (c ∷ cs) = add_candidates host (add_candidate host c scored) cs

-- `ScoreShards`
unfoldable pub score_shards : PackHost → List CandidateShard → List CandidateShard
unfolding add_candidates
score_shards host candidates = host.by_score (add_candidates host [] candidates)

abbrev pub packed_shard : PackHost → CandidateShard → ShardMeta → PackedShard
packed_shard host c meta = record {
  kind = c.kind;
  blob_id = c.blob_id;
  content = c.content;
  meta = host.meta_json meta;
}

-- What packing changes: the shards so far, their tokens, what is left, and how many were dropped.
pub record Packed : Type 0 where
  pub shards : List PackedShard
  pub shard_tokens : ℕ
  pub remaining : ℕ
  pub dropped : ℕ

abbrev pub add_shard : PackHost → CandidateShard → ShardMeta → Packed → Packed
add_shard host c meta p = record p {
  shards = p.shards ++ packed_shard host c meta ∷ [];
  shard_tokens = p.shard_tokens + tokens_of c.content;
  remaining = p.remaining - tokens_of c.content;
}

abbrev pub is_section : ℤ → CandidateShard → Bool
is_section sec c =
    same c.kind (bytes "prompt_section") && same c.symbol (bytes "section_" ++ decimal sec)

-- The inner loop over the candidates: the first of the section that fits.
unfoldable pub pack_section : PackHost → ℤ → List CandidateShard → Packed → Packed
pack_section host sec [] p = p
pack_section host sec (c ∷ cs) p =
    let later = pack_section host sec cs p in
    if is_section sec c && leb (tokens_of c.content) p.remaining
    then add_shard host c (pinned_meta sec) p
    else later

-- The loop over the pinned sections.
unfoldable pub pack_pinned : PackHost → List CandidateShard → List ℤ → Packed → Packed
unfolding pack_section
pack_pinned host candidates [] p = p
pack_pinned host candidates (sec ∷ secs) p =
    pack_pinned host candidates secs (pack_section host sec candidates p)

abbrev pub pinned_of : Option PromptRef → List ℤ
pinned_of none = []
pinned_of (some r) = r.pinned_sections

-- The candidates that are no prompt sections.
unfoldable pub regular : List CandidateShard → List CandidateShard
regular [] = []
regular (c ∷ cs) =
    let rest = regular cs in if same c.kind (bytes "prompt_section") then rest else c ∷ rest

-- One round of the greedy loop. Where nothing is left, no shard fits.
unfoldable pub pack_one : PackHost → CandidateShard → Packed → Packed
pack_one host c p =
    if leb p.remaining 0
    then record p { dropped = suc p.dropped }
    else if ltb p.remaining (tokens_of c.content)
    then record p { dropped = suc p.dropped }
    else add_shard host c (scored_meta c (tokens_of c.content)) p

-- The greedy loop.
unfoldable pub pack_all : PackHost → List CandidateShard → Packed → Packed
unfolding pack_one
pack_all host [] p = p
pack_all host (c ∷ cs) p = pack_all host cs (pack_one host c p)

-- An em dash.
abbrev pub dash : Bytes
dash = 226 ∷ 128 ∷ 148 ∷ []

abbrev pub vm_header : Option PromptRef → Bytes
vm_header none = []
vm_header (some r) =
    bytes "\n\nPROMPT VM:\nThe full user prompt is stored as artifact "
    ++ (r.prompt_id
        ++ (bytes
              ".\nPinned sections are inlined below. To access other sections:\n- PF_PROMPT_SECTION(prompt_id, section_index) "
            ++ (dash
                ++ (bytes " page in one section\n- PF_PROMPT_SEARCH(prompt_id, query) "
                    ++ (dash
                        ++ (bytes " find relevant content\n- PF_PROMPT_SUMMARY(prompt_id) "
                            ++ (dash ++ bytes " list all section titles + types")))))))

-- The header of a pack.
unfoldable pub pack_header : PackHost → Bytes → Mission → Option PromptRef → Bytes
pack_header host pf_endpoint mission prompt_ref =
    bytes "GENESIS SSMP "
    ++ (dash
        ++ (bytes " Angel Mission Pack\nGenerated: "
            ++ (host.now
                ++ (bytes "\nMission: "
                    ++ (mission.mission_id
                        ++ (bytes "\nPF Endpoint: " ++ (pf_endpoint ++ vm_header prompt_ref)))))))

-- `budget - headerTokens - missionTokens`, but at least 0.
abbrev pub room_in : ℤ → ℕ → ℕ
room_in (pos budget) fixed = budget - fixed
room_in (negsuc n) fixed = 0

-- The packing of `CompileWithPromptRef`, with a room.
unfoldable pub pack_shards : PackHost → List CandidateShard → Option PromptRef → ℕ → Packed
unfolding pack_pinned regular score_shards pack_all
pack_shards host candidates prompt_ref room =
    pack_all host (score_shards host (regular candidates)) (
      pack_pinned host candidates (pinned_of prompt_ref)
        (record { shards = []; shard_tokens = 0; remaining = room; dropped = 0 }))

abbrev pub pack_of : Bytes → Bytes → Mission → Option PromptRef → ℕ → ℕ → Packed → MissionPack
pack_of header pf_endpoint mission prompt_ref header_tokens mission_tokens p = record {
  header = header;
  mission = mission;
  inline_shards = p.shards;
  pf_endpoint = pf_endpoint;
  budget_meta = record {
    token_budget = mission.token_budget;
    header_tokens = pos header_tokens;
    mission_tokens = pos mission_tokens;
    shard_tokens = pos p.shard_tokens;
    total_tokens = pos (header_tokens + mission_tokens + p.shard_tokens);
    shards_included = pos (length p.shards);
    shards_dropped = pos p.dropped;
  };
  prompt_ref = prompt_ref;
  phase = [];
}

-- `CompileWithPromptRef`; `none` is its error.
unfoldable pub compile_pack :
    PackHost → Bytes → Mission → List CandidateShard → Option PromptRef → Option MissionPack
unfolding pack_header pack_shards
compile_pack host pf_endpoint mission candidates prompt_ref = elim (host.mission_json mission) [
  | none ↦ none
  | some json ↦
      let header = pack_header host pf_endpoint mission prompt_ref in
      some (
        pack_of header pf_endpoint mission prompt_ref (tokens_of header) (tokens_of json) (
          pack_shards host candidates prompt_ref
            (room_in mission.token_budget (tokens_of header + tokens_of json))))
]
