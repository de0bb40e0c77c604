-- ===== src/Heaven/Delta/Serving.antt =====
-- heaven/pf_delta.go: an unchanged shard has been served before.
use genesis_ssmp.Base.{
  same_refl, ◌∙◌, ℤ, Dict, ℕ, suc, ◌≡◌, refl, subst, ◌⊎◌, inl, inr, Bool, true, false, Option, none,
  some, List, [], ◌∷◌, arith, if◌then◌else◌, Bool-cases, Bytes, same, same_iff, get, put, get-put,
}
use genesis_ssmp.Heaven.Commands.{PfArgs, Shard}
use genesis_ssmp.Heaven.Delta.{
  check_and_update, shard_key, or_empty, Versions, is_version, sentinel, check_shards,
}

abbrev pub is_among : Bytes → List Bytes → Bool
is_among b [] = false
is_among b (x ∷ xs) = if same x b then true else is_among b xs

-- Each shard is answered in full, or as an unchanged one whose blob is among those that were served
-- in full before; the hits count the unchanged ones, and `now` is the blobs that have been served
-- afterwards: those before and those of the shards that are answered in full.
abbrev pub Answers : List Bytes → List Shard → List Shard → ℕ → List Bytes → Type 0
Answers served [] [] hits now = (hits ≡ 0) × (now ≡ served)
Answers served [] (r ∷ rs) hits now = ⊥
Answers served (s ∷ ss) [] hits now = ⊥
Answers served (s ∷ ss) (r ∷ rs) hits now =
    ((r ≡ s) × Answers (s.blob_id ∷ served) ss rs hits now)
    ⊎ ((key : Bytes) × (before : ℕ) × (r ≡ sentinel key s)
        × (hits ≡ suc before)
        × (is_among s.blob_id served ≡ true)
        × Answers served ss rs before now)

-- The blob of a version was served.
abbrev pub WasServed : List Bytes → Option Bytes → Type 0
WasServed served none = Unit
WasServed served (some b) = is_among b served ≡ true

WasServed-more :
    (served : List Bytes) (b : Bytes) (o : Option Bytes)
    → WasServed served o
    → WasServed (b ∷ served) o
WasServed-more served b none h = tt
WasServed-more served b (some a) h = ground arith

put-WasServed :
    (served : List Bytes) (key b j : Bytes) (versions : Versions)
    → WasServed served (get j versions)
    → WasServed (b ∷ served) (get j (put key b versions))
put-WasServed served key b j versions h = elim (Bool-cases (same key j)) [
  | inl e ↦ rw (get-put key j b versions, e) (ground (arith, same_iff b b))
  | inr e ↦ rw (get-put key j b versions, e) (WasServed-more served b _ h)
]

version-served :
    (served : List Bytes) (b : Bytes) (o : Option Bytes)
    → is_version o b ≡ true
    → WasServed served o
    → is_among b served ≡ true
version-served served b none h k = absurd (ground arith)
version-served served b (some prev) h k =
    subst (λ x. is_among x served ≡ true) ((same_iff prev b).0 h) k

-- What is answered, and that the versions still name blobs that were served.
abbrev Kept : List Bytes → List Shard → Versions × (List Shard × ℕ) → Type 0
Kept served shards (after, (result, hits)) =
    (now : List Bytes) × Answers served shards result hits now
    × ((j : Bytes) → WasServed now (get j after))

check_shards-Kept :
    (key_of : Bytes → Bytes) (shards : List Shard) (versions : Versions) (served : List Bytes)
    → ((j : Bytes) → WasServed served (get j versions))
    → Kept served shards (check_shards key_of shards versions)
unfolding check_shards
check_shards-Kept key_of [] versions served h = (served, (refl, refl), h)
check_shards-Kept key_of (s ∷ ss) versions served h =
    let key = key_of s.kind in
    elim (Bool-cases (is_version (get key versions) s.blob_id)) [
      | inl e ↦
          let (now, answers, kept) = check_shards-Kept key_of ss versions served h in
          rw (e, check_shards)
            (
              now,
              inr (
                key,
                (check_shards key_of ss versions).1.1,
                refl,
                refl,
                version-served served s.blob_id (get key versions) e (h key),
                answers,
              ),
              kept,
            )
      | inr e ↦
          let (now, answers, kept) =
            check_shards-Kept key_of ss (put key s.blob_id versions) (s.blob_id ∷ served)
              (λ j. put-WasServed served key s.blob_id j versions (h j)) in
          rw (e, check_shards) (now, inl (refl, answers), kept)
    ]

-- If every version of the mission names a blob that was served to it, `CheckAndUpdate` answers
-- each shard in full, or as unchanged with the same blob, and then the blob was served before; it
-- counts the unchanged ones. Afterwards every version of the mission again names a blob that was
-- served to it, before or now in full, so that the same holds of the next call. The versions of
-- the other missions stay.
pub check_and_update-Answers :
    (decimal : ℤ → Bytes) (mission_id command : Bytes) (args : PfArgs) (shards : List Shard)
    (missions : Dict Versions) (served : List Bytes) (other : Bytes)
    → ((j : Bytes) → WasServed served (get j (or_empty (get mission_id missions))))
    → let (missions', (result, hits)) =
        check_and_update decimal mission_id command args shards missions in
      (now : List Bytes) × Answers served shards result hits now
      × ((j : Bytes) → WasServed now (get j (or_empty (get mission_id missions'))))
      × (get other missions'
          ≡ (if same mission_id other then get mission_id missions' else get other missions))
unfolding check_and_update
check_and_update-Answers decimal mission_id command args shards missions served other h =
    let key_of : Bytes → Bytes = λ kind. shard_key decimal kind command args in
    let versions = or_empty (get mission_id missions) in
    let after = (check_shards key_of shards versions).0 in
    let (now, answers, kept) = check_shards-Kept key_of shards versions served h in
    let own : get mission_id (put mission_id after missions) ≡ some after =
      get-put mission_id mission_id after missions ∙ rw (same_refl mission_id) refl in
    (
      now,
      answers,
      λ j. rw own (kept j),
      ground (
        arith,
        get-put mission_id other after missions,
        get-put mission_id mission_id after missions,
        same_iff mission_id other,
        same_iff mission_id mission_id,
      ),
    )
