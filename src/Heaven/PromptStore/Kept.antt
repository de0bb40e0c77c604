-- ===== src/Heaven/PromptStore/Kept.antt =====
-- heaven/prompt.go: a stored prompt can be read back, whatever is stored after it.
use genesis_ssmp.Base.{◌≡◌, Option, none, some, length, Bytes, Dict, get}
use genesis_ssmp.Heaven.Blobs.{WriteOutcome, failed, get_blob, Addressed}
use genesis_ssmp.Heaven.Commands.{Artifact}
use genesis_ssmp.Heaven.Sectioner.Whole.{text_of}
use genesis_ssmp.Heaven.PromptStore.{
  PromptHost, Prompts, PromptCall, storing, storing_delta, putting,
}

-- The artifact under `id` is of a text with that hash, which its blob still holds; its sections
-- joined are the text, and its counts are right.
abbrev pub KeptAt : PromptHost → Dict Bytes → Bytes → Option Artifact → Type 0
KeptAt host blobs id none = Unit
KeptAt host blobs id (some a) =
    (raw : Bytes) × (host.blob_host.sha256 raw ≡ id)
    × (a.prompt_id ≡ id)
    × (get_blob a.raw_blob_id blobs ≡ some raw)
    × (text_of a.sections ≡ raw)
    × (a.total_bytes ≡ length raw)
    × (a.section_count ≡ length a.sections)

abbrev IsKept : PromptHost → Prompts → Type 0
IsKept host s =
    ((id : Bytes) → KeptAt host s.blobs id (get id s.prompts))
    × ((id : Bytes) → Addressed host.blob_host (get_blob id s.blobs) id)

-- A write that fails leaves no file.
abbrev pub LeavesNoPart : WriteOutcome → Type 0
LeavesNoPart (failed (some part)) = ⊥
LeavesNoPart _ = Unit

module _ (host : PromptHost)
    (injective : (a b : Bytes) → host.blob_host.sha256 a ≡ host.blob_host.sha256 b → a ≡ b)
    (no_part : (c : Bytes) → LeavesNoPart (host.blob_host.write c)) where
  -- The result of an operation: what is kept, and the artifact that it returns is in the map.
  abbrev IsKeptResult : Prompts × Option Artifact → Type 0
  IsKeptResult (s, none) = IsKept host s
  IsKeptResult (s, some a) = IsKept host s × KeptAt host s.blobs a.prompt_id (some a)

-- The outcome of the write of a call.
abbrev pub write_of : PromptCall → WriteOutcome
write_of (storing w now raw) = w
write_of (storing_delta w now raw parent_id) = w
write_of (putting w content) = w

-- What `Reconstruct` returns for a prompt of the map.
abbrev pub whole_text : Option Artifact → Option Bytes
whole_text none = none
whole_text (some a) = some (text_of a.sections)
