-- ===== src/Heaven/PromptStore.antt =====
-- heaven/prompt.go. The artifacts are shared through the map, so that a change of one is a change of
-- the map's entry. The prompts are stored one after the other.
pub mod Deltas
pub mod Kept
use genesis_ssmp.Base.{
  ℕ, zero, suc, ◌+◌, ◌/◌, Bool, true, false, ◌||◌, Option, none, some, List, [], ◌∷◌, ltb, ◌==◌,
  if◌then◌else◌, length, get_elem?, Bytes, contains, same, Dict, get, put, ℤ, pos, negsuc,
}
use genesis_ssmp.Heaven.Blobs.{WriteOutcome, BlobHost, put_blob, get_blob}
use genesis_ssmp.Heaven.Commands.{
  Section, SectionDelta, DeltaKind, added, removed, replaced, Artifact,
}
use genesis_ssmp.Heaven.Sectioner.{TextHost, section_prompt}

pub record PromptHost : Type 0 where
  pub blob_host : BlobHost
  pub to_lower : Bytes → Bytes

-- The blobs, which others write too, and the prompts.
pub record Prompts : Type 0 where
  pub blobs : Dict Bytes
  pub prompts : Dict Artifact

abbrev pub text_host : PromptHost → TextHost
text_host host = record { to_lower = host.to_lower; hash_str = host.blob_host.sha256 }

-- The estimate of the tokens: a quarter of the bytes, and ten for each section.
unfoldable pub estimate_tokens : List Section → ℕ
estimate_tokens [] = 0
estimate_tokens (sec ∷ secs) = length sec.content / 4 + 10 + estimate_tokens secs

unfoldable pub new_artifact : PromptHost → Bytes → Bytes → Bytes → Artifact
unfolding estimate_tokens section_prompt
new_artifact host now raw raw_blob_id =
    let sections = section_prompt (text_host host) 4096 raw in
    record {
      prompt_id = host.blob_host.sha256 raw;
      raw_blob_id = raw_blob_id;
      sections = sections;
      total_bytes = length raw;
      total_tokens = estimate_tokens sections;
      section_count = length sections;
      created_at = now;
      parent_prompt_id = [];
      deltas = [];
    }

unfoldable pub set_prompt : Artifact → Prompts → Prompts
set_prompt a s = record s { prompts = put a.prompt_id a s.prompts }

-- `Store`, when its prompt is new and its blob was put.
abbrev pub store_put :
    PromptHost → Bytes → Bytes → Prompts → Dict Bytes × Option Bytes → Prompts × Option Artifact
store_put host now raw s (blobs, none) = (record s { blobs = blobs }, none)
store_put host now raw s (blobs, some raw_blob_id) =
    let a = new_artifact host now raw raw_blob_id in
    (set_prompt a (record s { blobs = blobs }), some a)

-- `Store`
unfoldable pub store : PromptHost → Bytes → Bytes → Prompts → Prompts × Option Artifact
unfolding put_blob new_artifact set_prompt
store host now raw s = elim (get (host.blob_host.sha256 raw) s.prompts) [
  | some existing ↦ (s, some existing)
  | none ↦ store_put host now raw s (put_blob host.blob_host raw s.blobs)
]

-- `Get`
unfoldable pub get_prompt : Bytes → Prompts → Option Artifact
get_prompt prompt_id s = get prompt_id s.prompts

abbrev pub section_at : List Section → ℤ → Option Section
section_at sections (pos i) = get_elem? sections i
section_at sections (negsuc i) = none

-- `GetSection`
unfoldable pub get_section : Bytes → ℤ → Prompts → Option Section
unfolding get_prompt
get_section prompt_id index s = elim (get_prompt prompt_id s) [
  | none ↦ none
  | some a ↦ section_at a.sections index
]

unfoldable pub matching : PromptHost → Bytes → List Section → List Section
matching host lower [] = []
matching host lower (sec ∷ secs) =
    let rest = matching host lower secs in
    if contains (host.to_lower sec.content) lower || contains (host.to_lower sec.title) lower
    then sec ∷ rest
    else rest

-- `SearchSections`
unfoldable pub search_sections : PromptHost → Bytes → Bytes → Prompts → Option (List Section)
unfolding get_prompt matching
search_sections host prompt_id query s = elim (get_prompt prompt_id s) [
  | none ↦ none
  | some a ↦ some (matching host (host.to_lower query) a.sections)
]

-- `Reconstruct`
unfoldable pub reconstruct : PromptHost → Bytes → Prompts → Option Bytes
unfolding get_prompt get_blob
reconstruct host prompt_id s = elim (get_prompt prompt_id s) [
  | none ↦ none
  | some a ↦ elim (get_blob a.raw_blob_id s.blobs) [
    | none ↦ none
    | some raw ↦ if same (host.blob_host.sha256 raw) prompt_id then some raw else none
  ]
]

abbrev pub delta : DeltaKind → ℕ → Bytes → Bytes → SectionDelta
delta op i old new = record { op = op; section_index = i; old_sha256 = old; new_sha256 = new }

-- The loop of `computeDeltas`, at the sections from `i` on.
unfoldable pub deltas_from : ℕ → List Section → List Section → List SectionDelta
deltas_from i [] [] = []
deltas_from i [] (n ∷ ns) = delta added i [] n.sha256 ∷ deltas_from (suc i) [] ns
deltas_from i (o ∷ os) [] = delta removed i o.sha256 [] ∷ deltas_from (suc i) os []
deltas_from i (o ∷ os) (n ∷ ns) =
    let rest = deltas_from (suc i) os ns in
    if same o.sha256 n.sha256 then rest else delta replaced i o.sha256 n.sha256 ∷ rest

-- `computeDeltas`
unfoldable pub compute_deltas : List Section → List Section → List SectionDelta
unfolding deltas_from
compute_deltas old new = deltas_from 0 old new

abbrev pub with_parent : Bytes → Artifact → Artifact → Artifact
with_parent parent_id parent a = record a {
  parent_prompt_id = parent_id;
  deltas = compute_deltas parent.sections a.sections;
}

abbrev pub link : Bytes → Artifact → Prompts × Option Artifact → Prompts × Option Artifact
link parent_id parent (s, none) = (s, none)
link parent_id parent (s, some a) =
    (set_prompt (with_parent parent_id parent a) s, some (with_parent parent_id parent a))

-- `StoreDelta`
unfoldable pub store_delta :
    PromptHost → Bytes → Bytes → Bytes → Prompts → Prompts × Option Artifact
unfolding get_prompt store set_prompt compute_deltas
store_delta host now raw parent_id s = elim (get_prompt parent_id s) [
  | none ↦ (s, none)
  | some parent ↦ link parent_id parent (store host now raw s)
]

-- The calls that write, and a `Put` of another client of the store of blobs.
-- Each has the outcome of its write.
pub data PromptCall : Type 0 where
  storing : WriteOutcome → Bytes → Bytes → PromptCall
  storing_delta : WriteOutcome → Bytes → Bytes → Bytes → PromptCall
  putting : WriteOutcome → Bytes → PromptCall

abbrev pub writing : WriteOutcome → PromptHost → PromptHost
writing w host = record host {
  blob_host = record { sha256 = host.blob_host.sha256; write = λ _. w };
}

unfoldable pub prompt_call : PromptHost → PromptCall → Prompts → Prompts
unfolding store store_delta put_blob
prompt_call host (storing w now raw) s = (store (writing w host) now raw s).0
prompt_call host (storing_delta w now raw parent_id) s =
    (store_delta (writing w host) now raw parent_id s).0
prompt_call host (putting w content) s = record s {
  blobs = (put_blob (writing w host).blob_host content s.blobs).0;
}

unfoldable pub prompt_calls : PromptHost → List PromptCall → Prompts → Prompts
unfolding prompt_call
prompt_calls host [] s = s
prompt_calls host (c ∷ cs) s = prompt_calls host cs (prompt_call host c s)

abbrev pub no_prompts : Prompts
no_prompts = record { blobs = []; prompts = [] }
