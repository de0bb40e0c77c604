-- ===== src/Heaven/Sectioner.antt =====
-- heaven/sectioner.go. SHA-256 and the letters of `strings.ToLower` are parameters.
pub mod Paragraphs
pub mod Whole
use genesis_ssmp.Base.{
  ℕ, zero, suc, ◌+◌, Bool, true, false, not, ◌&&◌, ◌||◌, Option, none, some, List, [], ◌∷◌, ◌++◌,
  ltb, leb, ◌==◌, if◌then◌else◌, length, take, drop, get_elem?, Bytes, bytes, is_empty, has_prefix,
  contains, split_after, last_index, trim_space, trim_left_byte,
}
use genesis_ssmp.Heaven.Commands.{Section}

pub record TextHost : Type 0 where
  pub to_lower : Bytes → Bytes
  pub hash_str : Bytes → Bytes

-- `isHeading`
unfoldable pub is_heading : Bytes → Bool
is_heading line =
    has_prefix line (bytes "# ") || has_prefix line (bytes "## ") || has_prefix line (bytes "### ")

-- `extractHeadingTitle`
unfoldable pub extract_heading_title : Bytes → Bytes
extract_heading_title line = trim_space (trim_left_byte b'#' line)

-- A section with a title and a content, and nothing else yet.
abbrev pub chunk : Bytes → Bytes → Bytes → Section
chunk section_type title content = record {
  index = 0;
  section_type = section_type;
  title = title;
  content = content;
  sha256 = [];
  byte_offset = 0;
  byte_len = 0;
}

-- What is written when the lines end: the content that is left.
abbrev pub flush : Bytes → Bytes → List Section
flush title [] = []
flush title (c ∷ content) = chunk [] title (c ∷ content) ∷ []

-- The loop of `splitOnHeadings`, with the title and the content so far, and if a fence is open.
unfoldable pub heading_loop : Bytes → Bytes → Bool → List Bytes → List Section
unfolding is_heading extract_heading_title
heading_loop title content fence [] = flush title content
heading_loop title content fence (line ∷ lines) =
    let trimmed = trim_space line in
    let fence' = if has_prefix trimmed (bytes "```") then not fence else fence in
    elim (not fence' && is_heading trimmed) [
      | true ↦ flush title content ++ heading_loop (extract_heading_title trimmed) line fence' lines
      | false ↦ heading_loop title (content ++ line) fence' lines
    ]

abbrev pub or_whole : Bytes → List Section → List Section
or_whole text [] = chunk [] [] text ∷ []
or_whole text (sec ∷ secs) = sec ∷ secs

-- `splitOnHeadings`
unfoldable pub split_on_headings : Bytes → List Section
unfolding heading_loop
split_on_headings text = or_whole text (heading_loop [] [] false (split_after b'\n' text))

-- The table of `classifySentinel`.
abbrev pub sentinels : List (Bytes × List Bytes)
sentinels =
    (bytes "constraints", bytes "constraint" ∷ bytes "rule" ∷ bytes "must" ∷ bytes "never" ∷ [])
    ∷ (
      bytes "acceptance",
      bytes "acceptance" ∷ bytes "criteria" ∷ bytes "pass" ∷ bytes "verify" ∷ [],
    )
    ∷ (bytes "api", bytes "api" ∷ bytes "endpoint" ∷ bytes "contract" ∷ bytes "interface" ∷ [])
    ∷ (bytes "examples", bytes "example" ∷ bytes "sample" ∷ bytes "demo" ∷ [])
    ∷ (bytes "security", bytes "security" ∷ bytes "auth" ∷ bytes "permission" ∷ [])
    ∷ (bytes "style", bytes "style" ∷ bytes "format" ∷ bytes "convention" ∷ [])
    ∷ (bytes "glossary", bytes "glossary" ∷ bytes "definition" ∷ bytes "term" ∷ [])
    ∷ (bytes "spec", bytes "spec" ∷ bytes "requirement" ∷ bytes "overview" ∷ bytes "summary" ∷ [])
    ∷ []

unfoldable pub has_keyword : Bytes → List Bytes → Bool
has_keyword lower [] = false
has_keyword lower (kw ∷ kws) = if contains lower kw then true else has_keyword lower kws

unfoldable pub first_sentinel : Bytes → List (Bytes × List Bytes) → Bytes
unfolding has_keyword
first_sentinel lower [] = bytes "other"
first_sentinel lower ((section_type, keywords) ∷ rest) =
    if has_keyword lower keywords then section_type else first_sentinel lower rest

-- `classifySentinel`
unfoldable pub classify_sentinel : TextHost → Bytes → Bytes
unfolding first_sentinel
classify_sentinel host title = first_sentinel (host.to_lower title) sentinels

unfoldable pub classify_all : TextHost → List Section → List Section
unfolding classify_sentinel
classify_all host [] = []
classify_all host (sec ∷ secs) =
    record sec { section_type = classify_sentinel host sec.title } ∷ classify_all host secs

-- `splitIdx <= 0` is no index.
abbrev pub positive : Option ℕ → Option ℕ
positive none = none
positive (some zero) = none
positive (some (suc i)) = some (suc i)

abbrev pub is_newline : Option ℕ → Bool
is_newline none = false
is_newline (some c) = c == b'\n'

-- The end of the part, from the index of a newline in the cutoff.
unfoldable pub after_newline : Bytes → ℕ → ℕ
after_newline cutoff i =
    if ltb (i + 1) (length cutoff) && is_newline (get_elem? cutoff (i + 1)) then i + 2 else i + 1

-- One round of the loop of `splitAtParagraphs`: where the next part ends.
unfoldable pub split_idx : ℕ → Bytes → ℕ
unfolding after_newline
split_idx max_bytes cutoff = elim (positive (last_index cutoff (bytes "\n\n"))) [
  | some i ↦ after_newline cutoff i
  | none ↦ elim (positive (last_index cutoff (bytes "\n"))) [
    | some i ↦ after_newline cutoff i
    | none ↦ max_bytes
  ]
]

-- The loop of `splitAtParagraphs` and the part after it. The first number bounds its rounds; where
-- it is too small the rest of the text is lost.
unfoldable pub split_loop : ℕ → ℕ → Bytes → List Bytes
unfolding split_idx
split_loop zero max_bytes remaining = []
split_loop (suc fuel) max_bytes remaining = elim (ltb max_bytes (length remaining)) [
  | true ↦
      take (split_idx max_bytes (take max_bytes remaining)) remaining
      ∷ split_loop fuel max_bytes (drop (split_idx max_bytes (take max_bytes remaining)) remaining)
  | false ↦ if is_empty remaining then [] else remaining ∷ []
]

-- `splitAtParagraphs`
unfoldable pub split_at_paragraphs : Bytes → ℕ → List Bytes
unfolding split_loop
split_at_paragraphs text max_bytes =
    if leb (length text) max_bytes then text ∷ [] else split_loop (suc (length text)) max_bytes text

-- The sections of the parts after the first, and of all parts.
unfoldable pub continued : Section → List Bytes → List Section
continued sec [] = []
continued sec (part ∷ parts) =
    chunk sec.section_type (sec.title ++ bytes " (cont.)") part ∷ continued sec parts

unfoldable pub part_sections : Section → List Bytes → List Section
unfolding continued
part_sections sec [] = []
part_sections sec (part ∷ parts) = chunk sec.section_type sec.title part ∷ continued sec parts

-- `splitLargeSections`
unfoldable pub split_large_sections : ℕ → List Section → List Section
unfolding split_at_paragraphs part_sections
split_large_sections max_bytes [] = []
split_large_sections max_bytes (sec ∷ secs) =
    (if leb (length sec.content) max_bytes
      then sec ∷ []
      else part_sections sec (split_at_paragraphs sec.content max_bytes))
    ++ split_large_sections max_bytes secs

-- The loop that reindexes.
unfoldable pub reindex : TextHost → ℕ → ℕ → List Section → List Section
reindex host i offset [] = []
reindex host i offset (sec ∷ secs) =
    record sec {
      index = i;
      byte_offset = offset;
      byte_len = length sec.content;
      sha256 = host.hash_str sec.content;
    }
    ∷ reindex host (suc i) (offset + length sec.content) secs

-- `PromptSectioner.Section`
unfoldable pub section_prompt : TextHost → ℕ → Bytes → List Section
unfolding split_on_headings classify_all split_large_sections reindex
section_prompt host max_bytes [] =
    record (chunk (bytes "other") [] []) { sha256 = host.hash_str [] } ∷ []
section_prompt host max_bytes (c ∷ text) =
    reindex host 0 0
      (split_large_sections max_bytes (classify_all host (split_on_headings (c ∷ text))))
