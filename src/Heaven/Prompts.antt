-- ===== src/Heaven/Prompts.antt =====
-- heaven/pf.go: the handlers of the commands on prompts.
use genesis_ssmp.Base.{
  none, some, List, [], ◌∷◌, ◌++◌, ltb, if◌then◌else◌, length, take, Bytes, bytes, is_empty, pos,
}
use genesis_ssmp.Heaven.Json.{
  null, Json, str, num, arr, obj, Elements, nothing, element, no_more, field,
}
use genesis_ssmp.Heaven.Commands.{Section, PfArgs, PfHost, Faults, Handled, store_answer}

unfoldable pub section_json : Section → Json
section_json sec = obj (
    field (bytes "index") (num (pos sec.index)) (
      field (bytes "section_type") (str sec.section_type) (
        field (bytes "title") (str sec.title) (
          field (bytes "content") (str sec.content) (
            field (bytes "sha256") (str sec.sha256) (
              field (bytes "byte_offset") (num (pos sec.byte_offset))
                (field (bytes "byte_len") (num (pos sec.byte_len)) no_more)))))))

-- `handlePromptSection`
unfoldable pub handle_prompt_section : PfHost → PfArgs → Faults → Handled
unfolding store_answer section_json
handle_prompt_section host args s =
    if is_empty args.prompt_id
    then (s, none)
    else elim (host.get_section args.prompt_id args.section_index) [
      | none ↦ (s, none)
      | some sec ↦
          store_answer host (bytes "prompt_section") (some (section_json sec))
            (field (bytes "prompt_id") (str args.prompt_id) (
              field (bytes "section_index") (num args.section_index) (
                field (bytes "section_type") (str sec.section_type)
                  (field (bytes "title") (str sec.title) no_more))))
            s
    ]

-- The snippet of a match.
unfoldable pub snippet : Bytes → Bytes
snippet content = if ltb 200 (length content) then take 200 content ++ bytes "..." else content

unfoldable pub match_summaries : List Section → Elements
unfolding snippet
match_summaries [] = nothing
match_summaries (m ∷ ms) =
    element
      (obj (
        field (bytes "index") (num (pos m.index)) (
          field (bytes "title") (str m.title) (
            field (bytes "section_type") (str m.section_type)
              (field (bytes "snippet") (str (snippet m.content)) no_more)))))
      (match_summaries ms)

-- `handlePromptSearch`
unfoldable pub handle_prompt_search : PfHost → PfArgs → Faults → Handled
unfolding store_answer match_summaries
handle_prompt_search host args s =
    if is_empty args.prompt_id
    then (s, none)
    else if is_empty args.query
    then (s, none)
    else elim (host.search_sections args.prompt_id args.query) [
      | none ↦ (s, none)
      | some matches ↦
          store_answer host (bytes "prompt_search") (some (arr (match_summaries matches)))
            (field (bytes "prompt_id") (str args.prompt_id) (
              field (bytes "query") (str args.query)
                (field (bytes "matches") (num (pos (length matches))) no_more)))
            s
    ]

unfoldable pub section_summaries : List Section → Elements
section_summaries [] = nothing
section_summaries (sec ∷ secs) =
    element
      (obj (
        field (bytes "index") (num (pos sec.index)) (
          field (bytes "title") (str sec.title) (
            field (bytes "section_type") (str sec.section_type)
              (field (bytes "byte_len") (num (pos sec.byte_len)) no_more)))))
      (section_summaries secs)

-- A nil slice is written as null.
unfoldable pub summaries_json : List Section → Json
unfolding section_summaries
summaries_json [] = null
summaries_json (sec ∷ secs) = arr (section_summaries (sec ∷ secs))

-- `handlePromptSummary`
unfoldable pub handle_prompt_summary : PfHost → PfArgs → Faults → Handled
unfolding store_answer summaries_json
handle_prompt_summary host args s =
    if is_empty args.prompt_id then (s, none) else elim (host.get_prompt args.prompt_id) [
      | none ↦ (s, none)
      | some artifact ↦
          store_answer host (bytes "prompt_summary") (some (summaries_json artifact.sections))
            (field (bytes "prompt_id") (str args.prompt_id) (
              field (bytes "section_count") (num (pos (length artifact.sections)))
                (field (bytes "total_bytes") (num (pos artifact.total_bytes)) no_more)))
            s
    ]
