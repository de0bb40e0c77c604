-- ===== src/God/PromptCompiler/Pinned.antt =====
-- god/prompt_compiler.go: what the pinned sections make of the budget of a pack.
use genesis_ssmp.God.MacroOps.{decimal}
use genesis_ssmp.Base.{
  All, same_iff, bytes, ◌-◌, true, false, ◌⊎◌, append-nil, append_assoc, ℕ, ◌≤◌, ◌<◌, ◌≡◌, refl,
  sym, ap, ◌∙◌, inl, inr, ◌&&◌, List, [], ◌∷◌, ◌++◌, arith, leb, Bool-cases, ℤ,
}
use genesis_ssmp.God.Provider.{PackedShard}
use genesis_ssmp.God.PromptCompiler.{
  CandidateShard, PackHost, Packed, tokens_of, add_shard, packed_shard, is_section, pack_section,
  pack_pinned, pinned_meta,
}

-- The candidate is the prompt section of that number.
abbrev pub IsSection : ℤ → CandidateShard → Type 0
IsSection sec c = (c.kind ≡ bytes "prompt_section") × (c.symbol ≡ bytes "section_" ++ decimal sec)

-- Of the section, each of these candidates is larger than the room.
abbrev pub NoneFits : ℕ → ℤ → List CandidateShard → Type 0
NoneFits room sec = All (λ c. IsSection sec c → room < tokens_of c.content)

-- What the pinned sections make of the room: of each, in their order, the first candidate that fits in what
-- is then left is packed, and a section is passed over only where none of its candidates fits.
pub data Pins (host : PackHost) (candidates : List CandidateShard)
    : ℕ → List ℤ → List PackedShard → ℕ → Type 0 where
  no_more : {room : ℕ} → Pins host candidates room [] [] room
  pins :
      {room left : ℕ} {sec : ℤ} {secs : List ℤ} {out : List PackedShard}
      (before : List CandidateShard) (c : CandidateShard) (after : List CandidateShard)
      → candidates ≡ before ++ (c ∷ after)
      → NoneFits room sec before
      → IsSection sec c
      → tokens_of c.content ≤ room
      → Pins host candidates (room - tokens_of c.content) secs out left
      → Pins host candidates room (sec ∷ secs) (packed_shard host c (pinned_meta sec) ∷ out) left
  passes :
      {room left : ℕ} {sec : ℤ} {secs : List ℤ} {out : List PackedShard}
      → NoneFits room sec candidates
      → Pins host candidates room secs out left
      → Pins host candidates room (sec ∷ secs) out left

is_section-IsSection :
    (sec : ℤ) (c : CandidateShard)
    → ((is_section sec c ≡ true) → IsSection sec c) × (IsSection sec c → is_section sec c ≡ true)
is_section-IsSection sec c =
    let kinds = same_iff c.kind (bytes "prompt_section") in
    let symbols = same_iff c.symbol (bytes "section_" ++ decimal sec) in
    (
      λ e. (kinds.0 (ground (arith, e)), symbols.0 (ground (arith, e))),
      λ (k, l). rw (kinds.1 k, symbols.1 l) refl,
    )

-- The first of the section that fits, or none.
PicksOf : PackHost → ℤ → List CandidateShard → Packed → Packed → Type 0
PicksOf host sec cs p p' =
    ((before : List CandidateShard) × (c : CandidateShard) × (after : List CandidateShard) × (cs
        ≡ before ++ (c ∷ after))
      × NoneFits p.remaining sec before
      × IsSection sec c
      × (tokens_of c.content ≤ p.remaining)
      × (p' ≡ add_shard host c (pinned_meta sec) p))
    ⊎ (NoneFits p.remaining sec cs × (p' ≡ p))

pack_section-PicksOf :
    (host : PackHost) (sec : ℤ) (cs : List CandidateShard) (p : Packed)
    → PicksOf host sec cs p (pack_section host sec cs p)
unfolding pack_section PicksOf
pack_section-PicksOf host sec [] p = inr (tt, refl)
pack_section-PicksOf host sec (c ∷ cs) p =
    elim (Bool-cases (is_section sec c && leb (tokens_of c.content) p.remaining)) [
      | inl e ↦
          rw (e, pack_section)
            (inl (
              [],
              c,
              cs,
              refl,
              tt,
              (is_section-IsSection sec c).0 (ground (arith, e)),
              ground (arith, e),
              refl,
            ))
      | inr e ↦ rw (e, pack_section) (later e (pack_section-PicksOf host sec cs p))
    ]
  where
    past :
        (is_section sec c && leb (tokens_of c.content) p.remaining) ≡ false
        → IsSection sec c
        → p.remaining < tokens_of c.content
    past e k = let at = (is_section-IsSection sec c).1 k in ground (arith, e, at)

    later :
        (is_section sec c && leb (tokens_of c.content) p.remaining) ≡ false
        → PicksOf host sec cs p (pack_section host sec cs p)
        → PicksOf host sec (c ∷ cs) p (pack_section host sec cs p)
    later e (inl (before, d, after, at, none_fits, k, fits, packed)) =
        inl (c ∷ before, d, after, ap (◌∷◌ c) at, (past e, none_fits), k, fits, packed)
    later e (inr (none_fits, same_as)) = inr ((past e, none_fits), same_as)

-- The shards and the room after some pinned sections.
abbrev pub PinsTo : PackHost → List CandidateShard → List ℤ → Packed → Packed → Type 0
PinsTo host candidates secs q q' =
    (out : List PackedShard) × (q'.shards ≡ q.shards ++ out)
    × Pins host candidates q.remaining secs out q'.remaining

pub pack_pinned-Pins :
    (host : PackHost) (candidates : List CandidateShard) (secs : List ℤ) (p : Packed)
    → PinsTo host candidates secs p (pack_pinned host candidates secs p)
unfolding pack_pinned PicksOf
pack_pinned-Pins host candidates [] p = ([], sym (append-nil p.shards), no_more)
pack_pinned-Pins host candidates (sec ∷ secs) p =
    go (pack_section host sec candidates p) (pack_section-PicksOf host sec candidates p)
      (pack_pinned-Pins host candidates secs)
  where
    go :
        (q : Packed)
        → PicksOf host sec candidates p q
        → ((r : Packed) → PinsTo host candidates secs r (pack_pinned host candidates secs r))
        → PinsTo host candidates (sec ∷ secs) p (pack_pinned host candidates secs q)
    go q (inl (before, c, after, at, none_fits, k, fits, packed)) later =
        let (out, shards, rest) = later (add_shard host c (pinned_meta sec) p) in
        rw packed (
          packed_shard host c (pinned_meta sec) ∷ out,
          shards ∙ append_assoc p.shards _ out,
          pins before c after at none_fits k fits rest,
        )
    go q (inr (none_fits, same_as)) later =
        let (out, shards, rest) = later p in rw same_as (out, shards, passes none_fits rest)
