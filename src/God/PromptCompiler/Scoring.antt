-- ===== src/God/PromptCompiler/Scoring.antt =====
-- god/prompt_compiler.go: which candidates are scored.
use genesis_ssmp.Base.{
  ap, subst, ◌≡◌, ◌≢◌, ◌⊎◌, ◌↔◌, refl, sym, ◌∙◌, inl, inr, not, ◌&&◌, List, [], ◌∷◌, All, arith,
  Bytes, bytes, same, same_iff, is_empty, Bool-cases,
}
use genesis_ssmp.God.PromptCompiler.{
  CandidateShard, PackHost, add_candidate, add_candidates, score_shards, regular,
}

abbrev pub Among : CandidateShard → List CandidateShard → Type 0
Among c [] = ⊥
Among c (x ∷ xs) = (c ≡ x) ⊎ Among c xs

-- Some candidate of the list has the blob.
abbrev pub HasBlob : Bytes → List CandidateShard → Type 0
HasBlob id [] = ⊥
HasBlob id (c ∷ cs) = (c.blob_id ≡ id) ⊎ HasBlob id cs

abbrev pub NoSection : CandidateShard → Type 0
NoSection c = c.kind ≢ bytes "prompt_section"

-- What is scored are candidates that are no prompt sections, and of every such candidate its blob is scored.
abbrev pub Covers : List CandidateShard → List CandidateShard → Type 0
Covers candidates scored =
    All (λ d. Among d candidates × NoSection d) scored
    × All (λ c. (c.kind ≡ bytes "prompt_section") ⊎ HasBlob c.blob_id scored) candidates

All-Among :
    (P : CandidateShard → Type 0) (cs : List CandidateShard)
    → ((c : CandidateShard) → Among c cs → P c)
    → All P cs
All-Among P [] h = tt
All-Among P (c ∷ cs) h = (h c (inl refl), All-Among P cs (λ d k. h d (inr k)))

Among-HasBlob : (c : CandidateShard) (cs : List CandidateShard) → Among c cs → HasBlob c.blob_id cs
Among-HasBlob c [] h = h
Among-HasBlob c (x ∷ xs) (inl e) = inl (ap (λ d. d.blob_id) (sym e))
Among-HasBlob c (x ∷ xs) (inr h) = inr (Among-HasBlob c xs h)

HasBlob-Among :
    (id : Bytes) (cs : List CandidateShard)
    → HasBlob id cs
    → (d : CandidateShard) × Among d cs × (d.blob_id ≡ id)
HasBlob-Among id [] h = absurd h
HasBlob-Among id (c ∷ cs) (inl e) = (c, inl refl, e)
HasBlob-Among id (c ∷ cs) (inr h) = let (d, k, e) = HasBlob-Among id cs h in (d, inr k, e)

regular-Among :
    (cs : List CandidateShard) (d : CandidateShard)
    → Among d (regular cs)
    → Among d cs × NoSection d
unfolding regular
regular-Among [] d = λ h. absurd h
regular-Among (c ∷ cs) d =
    let kinds = same_iff c.kind (bytes "prompt_section") in
    elim (Bool-cases (same c.kind (bytes "prompt_section"))) [
      | inl e ↦ rw (e, regular) (λ h. let (k, n) = regular-Among cs d h in (inr k, n))
      | inr e ↦
          rw (e, regular)
            (λ h. elim h [
              | inl same_as ↦ (inl same_as, rw same_as (λ k. ground (arith, e, kinds.1 k)))
              | inr later ↦ let (k, n) = regular-Among cs d later in (inr k, n)
            ])
    ]

Among-regular :
    (cs : List CandidateShard) (d : CandidateShard)
    → Among d cs
    → (d.kind ≡ bytes "prompt_section") ⊎ Among d (regular cs)
unfolding regular
Among-regular [] d h = absurd h
Among-regular (c ∷ cs) d h =
    let kinds = same_iff c.kind (bytes "prompt_section") in
    elim (Bool-cases (same c.kind (bytes "prompt_section"))) [
      | inl e ↦
          rw (e, regular)
            (elim h [
              | inl same_as ↦ inl (ap (λ x. x.kind) same_as ∙ kinds.0 e)
              | inr later ↦ Among-regular cs d later
            ])
      | inr e ↦
          rw (e, regular)
            (elim h [
              | inl same_as ↦ inr (inl same_as)
              | inr later ↦ elim (Among-regular cs d later) [ inl k ↦ inl k | inr k ↦ inr (inr k) ]
            ])
    ]

module _ (host : PackHost) where
  add_candidate-Among :
      (c : CandidateShard) (ss : List CandidateShard) (d : CandidateShard)
      → Among d (add_candidate host c ss)
      → (d ≡ c) ⊎ Among d ss
  unfolding add_candidate
  add_candidate-Among c [] d = λ h. h
  add_candidate-Among c (s ∷ ss) d =
      elim (Bool-cases (not (is_empty c.blob_id) && same s.blob_id c.blob_id)) [
        | inl e ↦ elim (Bool-cases (host.scores_above c s)) [
          | inl f ↦ rw (e, f, add_candidate) (λ h. elim h [ inl k ↦ inl k | inr k ↦ inr (inr k) ])
          | inr f ↦ rw (e, f, add_candidate) inr
        ]
        | inr e ↦
            rw (e, add_candidate)
              (λ h. elim h [
                | inl k ↦ inr (inl k)
                | inr k ↦ elim (add_candidate-Among c ss d k) [
                  | inl q ↦ inl q
                  | inr q ↦ inr (inr q)
                ]
              ])
      ]

  add_candidate-HasBlob :
      (c : CandidateShard) (ss : List CandidateShard) (id : Bytes)
      → (c.blob_id ≡ id) ⊎ HasBlob id ss
      → HasBlob id (add_candidate host c ss)
  unfolding add_candidate
  add_candidate-HasBlob c [] id h = h
  add_candidate-HasBlob c (s ∷ ss) id h =
      elim (Bool-cases (not (is_empty c.blob_id) && same s.blob_id c.blob_id)) [
        | inl e ↦
            let one : s.blob_id ≡ c.blob_id =
              (same_iff s.blob_id c.blob_id).0 (ground (arith, e)) in
            elim (Bool-cases (host.scores_above c s)) [
              | inl f ↦
                  rw (e, f, add_candidate)
                    (elim h [
                      | inl k ↦ inl k
                      | inr (inl k) ↦ inl (sym one ∙ k)
                      | inr (inr k) ↦ inr k
                    ])
              | inr f ↦ rw (e, f, add_candidate) (elim h [ inl k ↦ inl (one ∙ k) | inr k ↦ k ])
            ]
        | inr e ↦
            rw (e, add_candidate)
              (elim h [
                | inl k ↦ inr (add_candidate-HasBlob c ss id (inl k))
                | inr (inl k) ↦ inl k
                | inr (inr k) ↦ inr (add_candidate-HasBlob c ss id (inr k))
              ])
      ]

  add_candidates-Among :
      (scored cs : List CandidateShard) (d : CandidateShard)
      → Among d (add_candidates host scored cs)
      → Among d scored ⊎ Among d cs
  unfolding add_candidates
  add_candidates-Among scored [] d h = inl h
  add_candidates-Among scored (c ∷ cs) d h =
      elim (add_candidates-Among (add_candidate host c scored) cs d h) [
        | inl k ↦ elim (add_candidate-Among c scored d k) [ inl q ↦ inr (inl q) | inr q ↦ inl q ]
        | inr k ↦ inr (inr k)
      ]

  add_candidates-HasBlob :
      (scored cs : List CandidateShard) (id : Bytes)
      → HasBlob id scored ⊎ HasBlob id cs
      → HasBlob id (add_candidates host scored cs)
  unfolding add_candidates
  add_candidates-HasBlob scored [] id (inl h) = h
  add_candidates-HasBlob scored [] id (inr h) = absurd h
  add_candidates-HasBlob scored (c ∷ cs) id (inl h) =
      add_candidates-HasBlob (add_candidate host c scored) cs id
        (inl (add_candidate-HasBlob c scored id (inr h)))
  add_candidates-HasBlob scored (c ∷ cs) id (inr (inl h)) =
      add_candidates-HasBlob (add_candidate host c scored) cs id
        (inl (add_candidate-HasBlob c scored id (inl h)))
  add_candidates-HasBlob scored (c ∷ cs) id (inr (inr h)) =
      add_candidates-HasBlob (add_candidate host c scored) cs id (inr h)

  -- The sort keeps what it sorts.
  pub score_shards-Covers :
      (candidates : List CandidateShard)
      → ((cs : List CandidateShard) (c : CandidateShard) → Among c (host.by_score cs) ↔ Among c cs)
      → Covers candidates (score_shards host (regular candidates))
  unfolding score_shards
  score_shards-Covers candidates sorts =
      let kept = add_candidates host [] (regular candidates) in
      (
        All-Among _ (host.by_score kept) λ d h.
            elim (add_candidates-Among [] (regular candidates) d ((sorts kept d).0 h)) [
              | inl k ↦ absurd k
              | inr k ↦ regular-Among candidates d k
            ],
        All-Among _ candidates λ c h. elim (Among-regular candidates c h) [
          | inl k ↦ inl k
          | inr k ↦
              let (d, at, e) = HasBlob-Among c.blob_id kept (
                add_candidates-HasBlob [] (regular candidates) c.blob_id
                  (inr (Among-HasBlob c (regular candidates) k))) in
              let found = Among-HasBlob d (host.by_score kept) ((sorts kept d).1 at) in
              inr (subst (λ id. HasBlob id (host.by_score kept)) e found)
        ],
      )
