-- ===== src/God/PromptCompiler/Packing.antt =====
-- god/prompt_compiler.go: the budget of a pack.
use genesis_ssmp.God.PromptCompiler.Pinned.{Pins, pack_pinned-Pins}
use genesis_ssmp.God.PromptCompiler.Scoring.{Among, Covers, score_shards-Covers}
use genesis_ssmp.Base.{
  ◌↔◌, ◌⊎◌, append-nil, append_assoc, ℕ, suc, ◌+◌, ◌≤◌, ◌<◌, ◌≡◌, refl, sym, ap, ◌∙◌, inl, inr,
  ◌&&◌, Option, some, List, [], ◌∷◌, ◌++◌, arith, ltb, leb, Bytes, Bool-cases, ℤ, pos,
}
use genesis_ssmp.God.Missions.{Mission}
use genesis_ssmp.God.Provider.{PackedShard, MissionPack, PromptRef}
use genesis_ssmp.God.PromptCompiler.{
  pack_header, pack_of, ShardMeta, CandidateShard, PackHost, Packed, tokens_of, add_shard,
  packed_shard, is_section, pack_section, pack_pinned, pack_one, pack_all, scored_meta, pinned_meta,
  score_shards, regular, pack_shards, pinned_of, room_in, compile_pack,
}

abbrev pub tokens_in : List PackedShard → ℕ
tokens_in [] = 0
tokens_in (s ∷ ss) = tokens_of s.content + tokens_in ss

tokens_in-append : (xs ys : List PackedShard) → tokens_in (xs ++ ys) ≡ tokens_in xs + tokens_in ys
tokens_in-append [] ys = omega arith
tokens_in-append (x ∷ xs) ys = omega (arith, tokens_in-append xs ys)

-- The books balance.
abbrev IsBalanced : ℕ → Packed → Type 0
IsBalanced room p = (tokens_in p.shards ≡ p.shard_tokens) × (p.shard_tokens + p.remaining ≡ room)

add_shard-IsBalanced :
    (host : PackHost) (room : ℕ) (c : CandidateShard) (meta : ShardMeta) (p : Packed)
    → IsBalanced room p
    → tokens_of c.content ≤ p.remaining
    → IsBalanced room (add_shard host c meta p)
add_shard-IsBalanced host room c meta p (h, k) fits = (
  omega (arith, tokens_in-append p.shards (packed_shard host c meta ∷ []), h),
  omega (arith, k, fits),
)

pack_section-IsBalanced :
    (host : PackHost) (room : ℕ) (sec : ℤ) (cs : List CandidateShard) (p : Packed)
    → IsBalanced room p
    → IsBalanced room (pack_section host sec cs p)
unfolding pack_section
pack_section-IsBalanced host room sec [] p h = h
pack_section-IsBalanced host room sec (c ∷ cs) p h =
    elim (Bool-cases (is_section sec c && leb (tokens_of c.content) p.remaining)) [
      | inl e ↦
          rw (e, pack_section)
            (add_shard-IsBalanced host room c (pinned_meta sec) p h (ground (arith, e)))
      | inr e ↦ rw (e, pack_section) (pack_section-IsBalanced host room sec cs p h)
    ]

pack_pinned-IsBalanced :
    (host : PackHost) (room : ℕ) (candidates : List CandidateShard) (secs : List ℤ) (p : Packed)
    → IsBalanced room p
    → IsBalanced room (pack_pinned host candidates secs p)
unfolding pack_pinned
pack_pinned-IsBalanced host room candidates [] p h = h
pack_pinned-IsBalanced host room candidates (sec ∷ secs) p h =
    pack_pinned-IsBalanced host room candidates secs _
      (pack_section-IsBalanced host room sec candidates p h)

pack_section-dropped :
    (host : PackHost) (sec : ℤ) (cs : List CandidateShard) (p : Packed)
    → (pack_section host sec cs p).dropped ≡ p.dropped
unfolding pack_section
pack_section-dropped host sec [] p = refl
pack_section-dropped host sec (c ∷ cs) p =
    elim (Bool-cases (is_section sec c && leb (tokens_of c.content) p.remaining)) [
      | inl e ↦ rw (e, pack_section) refl
      | inr e ↦ rw (e, pack_section) (pack_section-dropped host sec cs p)
    ]

-- Pinned sections that do not fit are not counted.
pack_pinned-dropped :
    (host : PackHost) (candidates : List CandidateShard) (secs : List ℤ) (p : Packed)
    → (pack_pinned host candidates secs p).dropped ≡ p.dropped
unfolding pack_pinned
pack_pinned-dropped host candidates [] p = refl
pack_pinned-dropped host candidates (sec ∷ secs) p =
    pack_pinned-dropped host candidates secs _ ∙ pack_section-dropped host sec candidates p

-- What the greedy loop makes of shards in the order of their scores: the shards that it packs, how many it
-- drops, and why; one that is dropped would not fit in what is left at the end.
pub data Greedy (host : PackHost) (left : ℕ)
    : List CandidateShard → List PackedShard → ℕ → Type 0 where
  at_end : Greedy host left [] [] 0
  packs :
      {c : CandidateShard} {cs : List CandidateShard} {out : List PackedShard} {d : ℕ}
      → Greedy host left cs out d
      → Greedy host left
          (c ∷ cs)
          (packed_shard host c (scored_meta c (tokens_of c.content)) ∷ out)
          d
  drops :
      {c : CandidateShard} {cs : List CandidateShard} {out : List PackedShard} {d : ℕ}
      → left < tokens_of c.content
      → Greedy host left cs out d
      → Greedy host left (c ∷ cs) out (suc d)

-- What one round does: it packs a shard that fits, or drops one that does not.
pack_one-cases :
    (host : PackHost) (c : CandidateShard) (p : Packed)
    → ((tokens_of c.content ≤ p.remaining)
        × (pack_one host c p ≡ add_shard host c (scored_meta c (tokens_of c.content)) p))
      ⊎ ((p.remaining < tokens_of c.content)
          × (pack_one host c p ≡ record p { dropped = suc p.dropped }))
unfolding pack_one
pack_one-cases host c p = elim (Bool-cases (leb p.remaining 0)) [
  | inl e ↦ inr (ground (arith, e), rw e refl)
  | inr e ↦ elim (Bool-cases (ltb p.remaining (tokens_of c.content))) [
    | inl f ↦ inr (ground (arith, f), rw (e, f) refl)
    | inr f ↦ inl (ground (arith, f), rw (e, f) refl)
  ]
]

-- What the greedy loop guarantees, from a state to the one at its end.
abbrev Packs : PackHost → ℕ → List CandidateShard → Packed → Packed → Type 0
Packs host room cs p p' =
    IsBalanced room p'
    × (p'.remaining ≤ p.remaining)
    × ((out : List PackedShard) × (d : ℕ) × (p'.shards ≡ p.shards ++ out)
        × (p'.dropped ≡ p.dropped + d)
        × Greedy host p'.remaining cs out d)

pack_all-Packs :
    (host : PackHost) (room : ℕ) (cs : List CandidateShard) (p : Packed)
    → IsBalanced room p
    → Packs host room cs p (pack_all host cs p)
unfolding pack_all
pack_all-Packs host room [] p h =
    (h, omega arith, ([], 0, sym (append-nil p.shards), omega arith, at_end))
pack_all-Packs host room (c ∷ cs) p h = go (pack_one-cases host c p) (pack_all-Packs host room cs)
  where
    go :
        ((tokens_of c.content ≤ p.remaining)
            × (pack_one host c p ≡ add_shard host c (scored_meta c (tokens_of c.content)) p))
          ⊎ ((p.remaining < tokens_of c.content)
              × (pack_one host c p ≡ record p { dropped = suc p.dropped }))
        → ((q : Packed) → IsBalanced room q → Packs host room cs q (pack_all host cs q))
        → Packs host room (c ∷ cs) p (pack_all host cs (pack_one host c p))
    go (inl (fits, e)) later =
        let q = add_shard host c (scored_meta c (tokens_of c.content)) p in
        let (balanced, below, (out, d, at, counted, greedy)) =
          later q (add_shard-IsBalanced host room c _ p h fits) in
        rw e (
          balanced,
          omega (arith, below),
          (
            packed_shard host c (scored_meta c (tokens_of c.content)) ∷ out,
            d,
            at ∙ append_assoc p.shards _ out,
            counted,
            packs greedy,
          ),
        )
    go (inr (past, e)) later =
        let (balanced, below, (out, d, at, counted, greedy)) =
          later (record p { dropped = suc p.dropped }) h in
        rw e (
          balanced,
          below,
          (out, suc d, at, omega (arith, counted), drops (omega (arith, past, below)) greedy),
        )

-- A pack keeps to its budget, and drops only shards that do not fit: the tokens of its shards, as it reports
-- them, and what is left make the budget less the header and the mission, or nothing where these
-- exceed it. First come the pinned sections in their order, of each the first candidate that fits in
-- the room there is then, and none only where none fits. Then come scored candidates that are no
-- prompt sections, in the order of the sort, but for those that are counted as dropped, and none
-- of these would fit in what is left at the end; the blob of every candidate that is no prompt
-- section is among them, packed or dropped. The mission can be written as JSON, and the sort of the
-- scores keeps what it sorts.
pub compile_pack-Greedy :
    (host : PackHost) (pf_endpoint json : Bytes) (mission : Mission)
    (candidates : List CandidateShard) (prompt_ref : Option PromptRef)
    → host.mission_json mission ≡ some json
    → ((cs : List CandidateShard) (c : CandidateShard) → Among c (host.by_score cs) ↔ Among c cs)
    → (pack : MissionPack) × (left : ℕ) × (pinned : List PackedShard) × (out : List PackedShard)
      × (d : ℕ) × (compile_pack host pf_endpoint mission candidates prompt_ref ≡ some pack)
      × (pack.inline_shards ≡ pinned ++ out)
      × ((between : ℕ) × Pins host candidates
            (room_in mission.token_budget (tokens_of pack.header + tokens_of json))
            (pinned_of prompt_ref)
            pinned
            between)
      × (pack.budget_meta.shard_tokens ≡ pos (tokens_in pack.inline_shards))
      × (pack.budget_meta.shards_dropped ≡ pos d)
      × (tokens_in pack.inline_shards + left
          ≡ room_in mission.token_budget (tokens_of pack.header + tokens_of json))
      × Covers candidates (score_shards host (regular candidates))
      × Greedy host left (score_shards host (regular candidates)) out d
unfolding compile_pack pack_shards
compile_pack-Greedy host pf_endpoint json mission candidates prompt_ref h sorts =
    let header = pack_header host pf_endpoint mission prompt_ref in
    let room = room_in mission.token_budget (tokens_of header + tokens_of json) in
    let start : Packed = record { shards = []; shard_tokens = 0; remaining = room; dropped = 0 } in
    let first = pack_pinned host candidates (pinned_of prompt_ref) start in
    let balanced =
      pack_pinned-IsBalanced host room candidates (pinned_of prompt_ref) start
        (refl, omega arith) in
    let none_dropped = pack_pinned-dropped host candidates (pinned_of prompt_ref) start in
    let (pinned, pinned_at, chosen) =
      pack_pinned-Pins host candidates (pinned_of prompt_ref) start in
    let p = pack_all host (score_shards host (regular candidates)) first in
    let ((sum, total), below, (out, d, at, counted, greedy)) =
      pack_all-Packs host room (score_shards host (regular candidates)) first balanced in
    (
      pack_of header pf_endpoint mission prompt_ref (tokens_of header) (tokens_of json) p,
      p.remaining,
      pinned,
      out,
      d,
      rw (h, compile_pack) refl,
      at ∙ ap (λ x. x ++ out) pinned_at,
      (first.remaining, chosen),
      ap pos (sym sum),
      ap pos (omega (arith, counted, none_dropped)),
      omega (arith, sum, total),
      score_shards-Covers host candidates sorts,
      greedy,
    )
