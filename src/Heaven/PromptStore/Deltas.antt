-- ===== src/Heaven/PromptStore/Deltas.antt =====
-- heaven/prompt.go: the deltas lead from the parent's sections to the child's.
use genesis_ssmp.Base.{
  ℕ, zero, suc, ◌+◌, ◌<◌, ◌≡◌, refl, Option, none, some, List, [], ◌∷◌, arith, ◌==◌, if◌then◌else◌,
  get_elem?, Bytes, same_iff,
}
use genesis_ssmp.Heaven.Commands.{Section, SectionDelta, DeltaKind, added, removed, replaced}
use genesis_ssmp.Heaven.PromptStore.{deltas_from, compute_deltas}

-- The hashes of the sections.
abbrev pub hashes : List Section → List Bytes
hashes [] = []
hashes (sec ∷ secs) = sec.sha256 ∷ hashes secs

-- The delta of a section, if there is one.
abbrev pub delta_at : ℕ → List SectionDelta → Option SectionDelta
delta_at j [] = none
delta_at j (d ∷ ds) = if d.section_index == j then some d else delta_at j ds

-- The hash of a section after its delta, from the one before it.
abbrev pub after_kind : DeltaKind → Bytes → Option Bytes
after_kind added new = some new
after_kind removed new = none
after_kind replaced new = some new

abbrev pub after_delta : Option SectionDelta → Option Bytes → Option Bytes
after_delta none old = old
after_delta (some d) old = after_kind d.op d.new_sha256

delta_at-below :
    (j i : ℕ) (old new : List Section) → j < i → delta_at j (deltas_from i old new) ≡ none
unfolding deltas_from
delta_at-below j i [] [] h = refl
delta_at-below j i [] (n ∷ ns) h = ground (arith, delta_at-below j (suc i) [] ns)
delta_at-below j i (o ∷ os) [] h = ground (arith, delta_at-below j (suc i) os [])
delta_at-below j i (o ∷ os) (n ∷ ns) h = ground (arith, delta_at-below j (suc i) os ns)

deltas_from-lead :
    (k i : ℕ) (old new : List Section)
    → after_delta (delta_at (i + k) (deltas_from i old new)) (get_elem? (hashes old) k)
      ≡ get_elem? (hashes new) k
unfolding deltas_from
deltas_from-lead k i [] [] = refl
deltas_from-lead zero i [] (n ∷ ns) = ground arith
deltas_from-lead (suc k) i [] (n ∷ ns) = ground (arith, deltas_from-lead k (suc i) [] ns)
deltas_from-lead zero i (o ∷ os) [] = ground arith
deltas_from-lead (suc k) i (o ∷ os) [] = ground (arith, deltas_from-lead k (suc i) os [])
deltas_from-lead zero i (o ∷ os) (n ∷ ns) =
    ground (arith, delta_at-below i (suc i) os ns, same_iff o.sha256 n.sha256)
deltas_from-lead (suc k) i (o ∷ os) (n ∷ ns) = ground (arith, deltas_from-lead k (suc i) os ns)

-- The deltas of two prompts lead from the one to the other: at every index, the hash of the old
-- section, changed as the delta of that index says, and kept where there is none, is the hash of
-- the new section; a removed or missing section has no hash.
pub compute_deltas-lead :
    (old new : List Section) (k : ℕ)
    → after_delta (delta_at k (compute_deltas old new)) (get_elem? (hashes old) k)
      ≡ get_elem? (hashes new) k
unfolding compute_deltas
compute_deltas-lead old new k = ground (arith, deltas_from-lead k 0 old new)
