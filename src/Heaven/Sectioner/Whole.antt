-- ===== src/Heaven/Sectioner/Whole.antt =====
-- heaven/sectioner.go: the sections are the prompt, cut.
use genesis_ssmp.Base.{
  ℕ, suc, ◌+◌, ◌≤◌, ◌<◌, ◌≡◌, refl, sym, ap, ◌∙◌, inl, inr, Bool, true, false, not, ◌&&◌, List, [],
  ◌∷◌, ◌++◌, arith, leb, ◌==◌, if◌then◌else◌, length, All, All-append, Bool-cases, Bytes, bytes,
  split_after, cons_head, concat, append-nil, append_assoc, has_prefix, trim_space,
}
use genesis_ssmp.Heaven.Commands.{Section}
use genesis_ssmp.Heaven.Sectioner.{
  TextHost, is_heading, extract_heading_title, flush, heading_loop, or_whole, split_on_headings,
  classify_all, continued, part_sections, split_large_sections, split_at_paragraphs, reindex,
  section_prompt,
}
use genesis_ssmp.Heaven.Sectioner.Paragraphs.{IsPart, split_at_paragraphs-parts}

-- The contents of the sections, joined.
abbrev pub text_of : List Section → Bytes
text_of [] = []
text_of (sec ∷ secs) = sec.content ++ text_of secs

text_of-append : (xs ys : List Section) → text_of (xs ++ ys) ≡ text_of xs ++ text_of ys
text_of-append [] ys = refl
text_of-append (x ∷ xs) ys =
    rw (text_of-append xs ys) (sym (append_assoc x.content (text_of xs) (text_of ys)))

concat-cons_head : (c : ℕ) (ls : List Bytes) → concat (cons_head c ls) ≡ c ∷ concat ls
concat-cons_head c [] = refl
concat-cons_head c (l ∷ ls) = refl

concat-split_after : (sep : ℕ) (s : Bytes) → concat (split_after sep s) ≡ s
unfolding split_after
concat-split_after sep [] = refl
concat-split_after sep (c ∷ s) = elim (Bool-cases (c == sep)) [
  | inl e ↦ rw e (ap (◌∷◌ c) (concat-split_after sep s))
  | inr e ↦ rw e (concat-cons_head c (split_after sep s) ∙ ap (◌∷◌ c) (concat-split_after sep s))
]

text_of-flush : (title content : Bytes) → text_of (flush title content) ≡ content
text_of-flush title [] = refl
text_of-flush title (c ∷ content) = append-nil (c ∷ content)

text_of-heading_loop :
    (title content : Bytes) (fence : Bool) (lines : List Bytes)
    → text_of (heading_loop title content fence lines) ≡ content ++ concat lines
unfolding heading_loop
text_of-heading_loop title content fence [] = text_of-flush title content ∙ sym (append-nil content)
text_of-heading_loop title content fence (line ∷ lines) =
    go (if has_prefix (trim_space line) (bytes "```") then not fence else fence)
      (λ f. text_of-heading_loop (extract_heading_title (trim_space line)) line f lines)
      (λ f. text_of-heading_loop title (content ++ line) f lines)
  where
    go :
        (fence' : Bool)
        → ((f : Bool)
            → text_of (heading_loop (extract_heading_title (trim_space line)) line f lines)
              ≡ line ++ concat lines)
        → ((f : Bool)
            → text_of (heading_loop title (content ++ line) f lines)
              ≡ (content ++ line) ++ concat lines)
        → text_of (elim (not fence' && is_heading (trim_space line)) [
          | true ↦
              flush title content
              ++ heading_loop (extract_heading_title (trim_space line)) line fence' lines
          | false ↦ heading_loop title (content ++ line) fence' lines
        ])
          ≡ content ++ (line ++ concat lines)
    go fence' fresh more = elim (Bool-cases (not fence' && is_heading (trim_space line))) [
      | inl e ↦ rw e (
          text_of-append (flush title content) _
          ∙ rw (text_of-flush title content) (ap (◌++◌ content) (fresh fence')))
      | inr e ↦ rw e (more fence' ∙ append_assoc content line (concat lines))
    ]

text_of-or_whole :
    (text : Bytes) (secs : List Section) → text_of secs ≡ text → text_of (or_whole text secs) ≡ text
text_of-or_whole text [] e = append-nil text
text_of-or_whole text (sec ∷ secs) e = e

text_of-split_on_headings : (text : Bytes) → text_of (split_on_headings text) ≡ text
unfolding split_on_headings
text_of-split_on_headings text =
    text_of-or_whole text (heading_loop [] [] false (split_after b'\n' text))
      (text_of-heading_loop [] [] false (split_after b'\n' text) ∙ concat-split_after b'\n' text)

text_of-classify_all :
    (host : TextHost) (secs : List Section) → text_of (classify_all host secs) ≡ text_of secs
unfolding classify_all
text_of-classify_all host [] = refl
text_of-classify_all host (sec ∷ secs) = ap (◌++◌ sec.content) (text_of-classify_all host secs)

text_of-continued :
    (sec : Section) (parts : List Bytes) → text_of (continued sec parts) ≡ concat parts
unfolding continued
text_of-continued sec [] = refl
text_of-continued sec (part ∷ parts) = ap (◌++◌ part) (text_of-continued sec parts)

text_of-part_sections :
    (sec : Section) (parts : List Bytes) → text_of (part_sections sec parts) ≡ concat parts
unfolding part_sections
text_of-part_sections sec [] = refl
text_of-part_sections sec (part ∷ parts) = ap (◌++◌ part) (text_of-continued sec parts)

-- The section is not longer than the limit.
abbrev pub Fits : ℕ → Section → Type 0
Fits max_bytes sec = length sec.content ≤ max_bytes

continued-Fits :
    (max_bytes : ℕ) (sec : Section) (parts : List Bytes)
    → All (IsPart max_bytes) parts
    → All (Fits max_bytes) (continued sec parts)
unfolding continued
continued-Fits max_bytes sec [] h = tt
continued-Fits max_bytes sec (part ∷ parts) (h, hs) = (h.1, continued-Fits max_bytes sec parts hs)

part_sections-Fits :
    (max_bytes : ℕ) (sec : Section) (parts : List Bytes)
    → All (IsPart max_bytes) parts
    → All (Fits max_bytes) (part_sections sec parts)
unfolding part_sections
part_sections-Fits max_bytes sec [] h = tt
part_sections-Fits max_bytes sec (part ∷ parts) (h, hs) =
    (h.1, continued-Fits max_bytes sec parts hs)

-- What one section becomes.
cut-Fits :
    (max_bytes : ℕ) (sec : Section) (b : Bool)
    → 0 < max_bytes
    → leb (length sec.content) max_bytes ≡ b
    → let cut =
        if b then sec ∷ [] else part_sections sec (split_at_paragraphs sec.content max_bytes) in
      (text_of cut ≡ sec.content) × All (Fits max_bytes) cut
cut-Fits max_bytes sec true h e = (append-nil sec.content, (ground arith, tt))
cut-Fits max_bytes sec false h e =
    let (parts, small) = split_at_paragraphs-parts sec.content max_bytes h (ground arith) in
    (text_of-part_sections sec _ ∙ parts, part_sections-Fits max_bytes sec _ small)

split_large_sections-Fits :
    (max_bytes : ℕ) (secs : List Section)
    → 0 < max_bytes
    → (text_of (split_large_sections max_bytes secs) ≡ text_of secs)
      × All (Fits max_bytes) (split_large_sections max_bytes secs)
unfolding split_large_sections
split_large_sections-Fits max_bytes [] h = (refl, tt)
split_large_sections-Fits max_bytes (sec ∷ secs) h =
    let (joined, fits) = split_large_sections-Fits max_bytes secs h in
    let cut =
      if leb (length sec.content) max_bytes
      then sec ∷ []
      else part_sections sec (split_at_paragraphs sec.content max_bytes) in
    let (same_text, fit) = cut-Fits max_bytes sec _ h refl in
    (
      text_of-append cut (split_large_sections max_bytes secs)
          ∙ ap (λ t. t ++ text_of (split_large_sections max_bytes secs)) same_text
          ∙ ap (◌++◌ sec.content) joined,
      All-append (Fits max_bytes) cut (split_large_sections max_bytes secs) fit fits,
    )

-- The sections are numbered from `i`, each with the place, the length and the hash of its content in
-- a text that goes on from `offset`.
abbrev pub Placed : TextHost → ℕ → ℕ → List Section → Type 0
Placed host i offset [] = Unit
Placed host i offset (sec ∷ secs) =
    (sec.index ≡ i)
    × (sec.byte_offset ≡ offset)
    × (sec.byte_len ≡ length sec.content)
    × (sec.sha256 ≡ host.hash_str sec.content)
    × Placed host (suc i) (offset + length sec.content) secs

reindex-Placed :
    (host : TextHost) (max_bytes i offset : ℕ) (secs : List Section)
    → All (Fits max_bytes) secs
    → Placed host i offset (reindex host i offset secs)
      × (text_of (reindex host i offset secs) ≡ text_of secs)
      × All (Fits max_bytes) (reindex host i offset secs)
unfolding reindex
reindex-Placed host max_bytes i offset [] h = (tt, refl, tt)
reindex-Placed host max_bytes i offset (sec ∷ secs) (h, hs) =
    let (placed, joined, fits) =
      reindex-Placed host max_bytes (suc i) (offset + length sec.content) secs hs in
    ((refl, refl, refl, refl, placed), ap (◌++◌ sec.content) joined, (h, fits))

-- The sections of a prompt, cut with a positive limit: their contents joined are the prompt, byte
-- for byte; they are numbered in order, each with its place in the prompt, its length and its hash;
-- and none is longer than the limit.
pub section_prompt-whole :
    (host : TextHost) (max_bytes : ℕ) (raw : Bytes)
    → 0 < max_bytes
    → (text_of (section_prompt host max_bytes raw) ≡ raw)
      × Placed host 0 0 (section_prompt host max_bytes raw)
      × All (Fits max_bytes) (section_prompt host max_bytes raw)
unfolding section_prompt
section_prompt-whole host max_bytes [] h = (refl, (refl, refl, refl, refl, tt), (omega arith, tt))
section_prompt-whole host max_bytes (c ∷ text) h =
    let classified = classify_all host (split_on_headings (c ∷ text)) in
    let (joined, fits) = split_large_sections-Fits max_bytes classified h in
    let (placed, same_text, fit) =
      reindex-Placed host max_bytes 0 0 (split_large_sections max_bytes classified) fits in
    (
      same_text
          ∙ joined
          ∙ text_of-classify_all host (split_on_headings (c ∷ text))
          ∙ text_of-split_on_headings (c ∷ text),
      placed,
      fit,
    )
