-- ===== src/Tests/Prompts.antt =====
-- heaven/sectioner.go and heaven/prompt.go: the properties at concrete inputs.
use genesis_ssmp.Base.{none, ◌+◌, ◌≡◌, List, [], ◌∷◌, arith, All, Bytes, bytes, get_elem?}
use genesis_ssmp.Heaven.Blobs.{done, failed}
use genesis_ssmp.Heaven.Commands.{Section}
use genesis_ssmp.Heaven.Sectioner.{TextHost, section_prompt, split_loop, chunk}
use genesis_ssmp.Heaven.Sectioner.Paragraphs.{split_loop-enough}
use genesis_ssmp.Heaven.Sectioner.Whole.{text_of, Placed, Fits, section_prompt-whole}
use genesis_ssmp.Heaven.PromptStore.{
  PromptHost, PromptCall, storing, storing_delta, putting, compute_deltas,
}
use genesis_ssmp.Heaven.PromptStore.Deltas.{hashes, delta_at, after_delta, compute_deltas-lead}

-- The hash of a text is the text, and every text is in lower case.
abbrev plain_host : TextHost
plain_host = record { to_lower = λ t. t; hash_str = λ t. t }

abbrev two_parts : Bytes
two_parts = bytes "# api\nget\n\npost\n# rules\nnone\n"

section_prompt-whole_example :
    (text_of (section_prompt plain_host 8 two_parts) ≡ two_parts)
    × Placed plain_host 0 0 (section_prompt plain_host 8 two_parts)
    × All (Fits 8) (section_prompt plain_host 8 two_parts)
section_prompt-whole_example = section_prompt-whole plain_host 8 two_parts (omega arith)

split_loop-enough_example : split_loop (31 + 7) 8 two_parts ≡ split_loop 31 8 two_parts
split_loop-enough_example = split_loop-enough 31 7 8 two_parts (omega arith) (omega arith)

abbrev hashed : Bytes → Section
hashed h = record (chunk [] [] []) { sha256 = h }

compute_deltas-lead_example :
    after_delta
      (delta_at 1
        (compute_deltas (hashed (bytes "a") ∷ hashed (bytes "b") ∷ []) (hashed (bytes "a") ∷ [])))
      (get_elem? (hashes (hashed (bytes "a") ∷ hashed (bytes "b") ∷ [])) 1)
    ≡ get_elem? (hashes (hashed (bytes "a") ∷ [])) 1
compute_deltas-lead_example =
    compute_deltas-lead (hashed (bytes "a") ∷ hashed (bytes "b") ∷ []) (hashed (bytes "a") ∷ []) 1

abbrev prompt_host : PromptHost
prompt_host = record {
  blob_host = record { sha256 = λ t. t; write = λ t. done };
  to_lower = λ t. t;
}

abbrev three_calls : List PromptCall
three_calls =
    storing done [] two_parts
    ∷ storing_delta (failed none) [] (bytes "# api\nget\n") two_parts
    ∷ putting done (bytes "x")
    ∷ []
