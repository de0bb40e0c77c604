-- ===== src/Heaven/Router/Budget.antt =====
-- heaven/pf_governor.go: the budget holds.
use genesis_ssmp.Base.{
  subst, Dict, ℕ, suc, ◌+◌, ◌-◌, ◌≤◌, ◌<◌, ◌≡◌, inl, inr, Bool, false, Option, none, some, List, [],
  ◌∷◌, arith, if◌then◌else◌, leb, Bool-cases, Bytes, same, get, pos,
}
use genesis_ssmp.Heaven.Commands.{
  PfRequest, Metrics, PfHost, Faults, mission_key, metrics_of, set_metrics,
}
use genesis_ssmp.Heaven.Router.{
  minusℤ, PfResponse, PfGovernorConfig, handle, with_budget, annotated, governed, govern_all,
}
use genesis_ssmp.Heaven.Router.Metering.{
  unmoved, Metered, OthersStay, handle-Metered, get-set_metrics,
}

abbrev pub is_answer_of : Bytes → PfRequest → Option PfResponse → Bool
is_answer_of j req none = false
is_answer_of j req (some r) = same (mission_key req.args.mission_id) (mission_key j)

-- The answers that a mission received.
abbrev pub answers_of : Bytes → List (PfRequest × Option PfResponse) → ℕ
answers_of j [] = 0
answers_of j ((req, o) ∷ rest) = (if is_answer_of j req o then 1 else 0) + answers_of j rest

-- What a request does to the number of calls of a mission: each answer is counted, and no other
-- mission's calls grow.
abbrev Counts : PfRequest → Faults → Bytes → Faults × Option PfResponse → Type 0
Counts req s j d =
    let one = if same (mission_key req.args.mission_id) (mission_key j) then 1 else 0 in
    ((metrics_of j s).pf_count + (if is_answer_of j req d.1 then 1 else 0)
      ≤ (metrics_of j d.0).pf_count)
    × ((metrics_of j d.0).pf_count ≤ (metrics_of j s).pf_count + one)

Metered-Counts :
    (req : PfRequest) (s : Faults) (j : Bytes) (d : Faults × Option PfResponse)
    → Metered req s d
    → OthersStay req s d.0 j
    → Counts req s j d
Metered-Counts req s j (s', none) h k = ground (arith, unmoved req s j)
Metered-Counts req s j (s', some r) (t, c, b, e) k = ground (arith, unmoved req s j)

-- Writing the counters that `getMetrics` returned changes none.
made :
    (id j : Bytes) (req : PfRequest) (s : Faults)
    → metrics_of j (set_metrics req.args.mission_id (metrics_of req.args.mission_id s) s)
      ≡ metrics_of j s
made id j req s = ground (
  arith,
  get-set_metrics req.args.mission_id j (metrics_of req.args.mission_id s) s,
  unmoved req s j,
)

annotated-Counts :
    (config : PfGovernorConfig) (req : PfRequest) (s : Faults) (j : Bytes)
    (d : Faults × Option PfResponse)
    → Counts req s j d
    → Counts req s j (annotated config d)
annotated-Counts config req s j (s', none) h = h
annotated-Counts config req s j (s', some r) h = h

abbrev Kept : PfGovernorConfig → PfRequest → Faults → Bytes → Faults × Option PfResponse → Type 0
Kept config req s j d =
    ((metrics_of j s).pf_count + (if is_answer_of j req d.1 then 1 else 0)
      ≤ (metrics_of j d.0).pf_count)
    × (((metrics_of j s).pf_count ≤ config.max_pf_calls)
        → ((metrics_of j d.0).pf_count ≤ config.max_pf_calls))

governed-Kept :
    (host : PfHost) (config : PfGovernorConfig) (req : PfRequest) (s : Faults) (j : Bytes)
    → Kept config req s j (governed host config req s)
unfolding governed
governed-Kept host config req s j =
    let id = req.args.mission_id in
    let s' = set_metrics id (metrics_of id s) s in
    let same_j = made id j req s in
    elim (Bool-cases (leb config.max_pf_calls (metrics_of id s).pf_count)) [
      | inl e ↦ rw (e, governed) (ground (arith, same_j), λ h. ground (arith, same_j, h))
      | inr e ↦ elim (Bool-cases (leb config.max_shard_bytes (metrics_of id s).shard_bytes)) [
        | inl f ↦ rw (e, f, governed) (ground (arith, same_j), λ h. ground (arith, same_j, h))
        | inr f ↦
            let (h, k) = handle-Metered host req s' j in
            let counts =
              annotated-Counts config req s' j (handle host req s')
                (Metered-Counts req s' j (handle host req s') h k) in
            rw (e, f, governed)
              (
                ground (arith, same_j, counts.0),
                λ h. ground (arith, same_j, counts.1, h, e, unmoved req s j),
              )
      ]
    ]

govern_all-Kept :
    (host : PfHost) (config : PfGovernorConfig) (reqs : List PfRequest) (s : Faults) (j : Bytes)
    → (metrics_of j s).pf_count ≤ config.max_pf_calls
    → let d = govern_all host config reqs s in
      ((metrics_of j s).pf_count + answers_of j d.1 ≤ (metrics_of j d.0).pf_count)
      × ((metrics_of j d.0).pf_count ≤ config.max_pf_calls)
unfolding govern_all
govern_all-Kept host config [] s j h = (omega arith, h)
govern_all-Kept host config (req ∷ reqs) s j h =
    let (first, safe) = governed-Kept host config req s j in
    let (rest, bound) =
      govern_all-Kept host config reqs (governed host config req s).0 j (safe h) in
    (omega arith, bound)

-- From a store without counters, whatever requests are sent through the governor, one after the
-- other: the calls of each mission stay within the configured number, and so do the answers that it
-- receives.
pub govern_all-budget :
    (host : PfHost) (config : PfGovernorConfig) (reqs : List PfRequest) (blobs : Dict Bytes)
    (journal : List Bytes) (j : Bytes)
    → let d =
        govern_all host config reqs (record { missions = []; blobs = blobs; journal = journal }) in
      (answers_of j d.1 ≤ (metrics_of j d.0).pf_count)
      × ((metrics_of j d.0).pf_count ≤ config.max_pf_calls)
unfolding metrics_of get
govern_all-budget host config reqs blobs journal j =
    let (h, k) =
      govern_all-Kept host config reqs (record { missions = []; blobs = blobs; journal = journal })
        j (omega arith) in
    (omega (arith, h), k)

-- The counters `m` were within the budget before the answer `r`, which reports what is left.
abbrev pub WithinBudget : PfGovernorConfig → Metrics → PfResponse → Type 0
WithinBudget config m r =
    (m.shard_bytes < config.max_shard_bytes)
    × (r.meta.pf_count ≡ suc m.pf_count)
    × (r.meta.pf_count ≤ config.max_pf_calls)
    × (r.meta.budget_remaining
        ≡ some (record {
          pf_calls_left = pos (config.max_pf_calls - r.meta.pf_count);
          shard_bytes_left = minusℤ config.max_shard_bytes r.meta.shard_bytes;
        }))

annotated-WithinBudget :
    (config : PfGovernorConfig) (req : PfRequest) (s : Faults) (r : PfResponse)
    (d : Faults × Option PfResponse)
    → (metrics_of req.args.mission_id s).pf_count < config.max_pf_calls
    → (metrics_of req.args.mission_id s).shard_bytes < config.max_shard_bytes
    → Metered req s d
    → (annotated config d).1 ≡ some r
    → WithinBudget config (metrics_of req.args.mission_id s) r
unfolding with_budget
annotated-WithinBudget config req s r (s', none) few small h e = absurd (ground arith)
annotated-WithinBudget config req s r (s', some q) few small (t, c, b, k) e =
    let same_r : with_budget config q ≡ r = ground arith in
    subst (WithinBudget config (metrics_of req.args.mission_id s)) same_r
      (small, c, omega (arith, c, few), ground (arith, c, few))

-- An answer of the governor was given while the shard bytes were below their limit; it is counted
-- as one call, stays within the limit of calls, and reports what is left of both: the calls left are
-- never negative.
pub governed-WithinBudget :
    (host : PfHost) (config : PfGovernorConfig) (req : PfRequest) (s : Faults) (r : PfResponse)
    → (governed host config req s).1 ≡ some r
    → WithinBudget config (metrics_of req.args.mission_id s) r
unfolding governed
governed-WithinBudget host config req s r h =
    let id = req.args.mission_id in
    let s' = set_metrics id (metrics_of id s) s in
    let same_m = made id id req s in
    elim (Bool-cases (leb config.max_pf_calls (metrics_of id s).pf_count)) [
      | inl e ↦ absurd (ground arith)
      | inr e ↦ elim (Bool-cases (leb config.max_shard_bytes (metrics_of id s).shard_bytes)) [
        | inl f ↦ absurd (ground arith)
        | inr f ↦
            subst (λ m. WithinBudget config m r) same_m
              (annotated-WithinBudget config req s' r (handle host req s') (ground (arith, same_m))
                (ground (arith, same_m)) (handle-Metered host req s' id).0 (ground arith))
      ]
    ]
