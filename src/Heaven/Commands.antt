-- ===== src/Heaven/Commands.antt =====
-- heaven/pf.go: the requests of an agent for context, and what its handlers share. The index
-- and the prompt store are parameters: what they answer, `none` for an error.
use genesis_ssmp.Base.{
  zero, ℕ, suc, Bool, Option, none, some, List, [], ◌∷◌, if◌then◌else◌, Bytes, bytes, is_empty,
  Dict, get, put, ℤ, pos, negsuc,
}
use genesis_ssmp.Heaven.Json.{Json, str, Elements, Fields, no_more, field}
use genesis_ssmp.Heaven.Blobs.{BlobHost, put_blob}

pub record PfArgs : Type 0 where
  pub mission_id : Bytes
  pub symbol : Bytes
  pub path : Bytes
  pub start_line : ℤ
  pub n : ℤ
  pub query : Bytes
  pub top_k : ℤ
  pub depth : Bytes
  pub prompt_id : Bytes
  pub section_index : ℤ

pub record PfRequest : Type 0 where
  pub type : Bytes
  pub command : Bytes
  pub args : PfArgs

pub record Shard : Type 0 where
  pub kind : Bytes
  pub blob_id : Bytes
  pub meta : Fields

pub record Metrics : Type 0 where
  pub pf_count : ℕ
  pub shard_bytes : ℕ

-- The fields of heaven/sectioner.go's `PromptSection`.
pub record Section : Type 0 where
  pub index : ℕ
  pub section_type : Bytes
  pub title : Bytes
  pub content : Bytes
  pub sha256 : Bytes
  pub byte_offset : ℕ
  pub byte_len : ℕ

pub data DeltaKind : Type 0 where
  added removed replaced : DeltaKind

pub record SectionDelta : Type 0 where
  pub op : DeltaKind
  pub section_index : ℕ
  pub old_sha256 : Bytes
  pub new_sha256 : Bytes

-- heaven/prompt.go's `PromptArtifact`.
pub record Artifact : Type 0 where
  pub prompt_id : Bytes
  pub raw_blob_id : Bytes
  pub sections : List Section
  pub total_bytes : ℕ
  pub total_tokens : ℕ
  pub section_count : ℕ
  pub created_at : Bytes
  pub parent_prompt_id : Bytes
  pub deltas : List SectionDelta

-- The index and the prompts, encoding/json, and what the blob store and the log rest on.
pub record PfHost : Type 0 where
  pub stats : Option Json
  pub symdef : Bytes → Option Json
  pub symdef_with_depth : Bytes → Bytes → Option Json
  pub callers : Bytes → ℕ → Option Elements
  pub slice : Bytes → ℕ → ℕ → Option Bytes
  pub search : Bytes → ℕ → Option Json
  pub get_section : Bytes → ℤ → Option Section
  pub search_sections : Bytes → Bytes → Option (List Section)
  pub get_prompt : Bytes → Option Artifact
  pub marshal : Json → Option Bytes
  pub blob_host : BlobHost
  pub written : List Bytes → Bytes → Bool

-- The router's maps, the store and the log.
pub record Faults : Type 0 where
  pub missions : Dict Metrics
  pub blobs : Dict Bytes
  pub journal : List Bytes

abbrev pub Handled : Type 0
Handled = Faults × Option (List Shard)

-- `storeShard`
unfoldable pub store_shard : PfHost → Bytes → Json → Fields → Faults → Faults × Option Shard
unfolding put_blob
store_shard host kind data_value meta s = elim (host.marshal data_value) [
  | none ↦ (s, none)
  | some content ↦
      let (blobs, id) = put_blob host.blob_host content s.blobs in
      elim id [
        | none ↦ (record s { blobs = blobs }, none)
        | some blob_id ↦ (
          record s { blobs = blobs },
          some (record { kind = kind; blob_id = blob_id; meta = meta }),
        )
      ]
]

abbrev pub alone : Faults × Option Shard → Handled
alone (s, none) = (s, none)
alone (s, some shard) = (s, some (shard ∷ []))

-- A shard with the answer of the index or the prompts, where it has one.
unfoldable pub store_answer : PfHost → Bytes → Option Json → Fields → Faults → Handled
unfolding store_shard
store_answer host kind none meta s = (s, none)
store_answer host kind (some answer) meta s = alone (store_shard host kind answer meta s)

-- `if n <= 0 { n = d }`
unfoldable pub or_default : ℤ → ℕ → ℕ
or_default (pos zero) d = d
or_default (pos (suc n)) d = suc n
or_default (negsuc n) d = d

abbrev pub one_field : Bytes → Bytes → Fields
one_field name value = field name (str value) no_more

-- `getMetrics`: the key of the mission, and its counters, made where they are missing.
unfoldable pub mission_key : Bytes → Bytes
mission_key mission_id = if is_empty mission_id then bytes "_default" else mission_id

abbrev pub or_new : Option Metrics → Metrics
or_new none = record { pf_count = 0; shard_bytes = 0 }
or_new (some m) = m

unfoldable pub metrics_of : Bytes → Faults → Metrics
unfolding mission_key
metrics_of mission_id s = or_new (get (mission_key mission_id) s.missions)

unfoldable pub set_metrics : Bytes → Metrics → Faults → Faults
unfolding mission_key
set_metrics mission_id m s = record s { missions = put (mission_key mission_id) m s.missions }
