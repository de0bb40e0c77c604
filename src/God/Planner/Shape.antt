-- ===== src/God/Planner/Shape.antt =====
-- god/planner.go: the shape of a plan.
use genesis_ssmp.God.Planner.{extract_keywords}
use genesis_ssmp.Heaven.Leases.{AcquireResult}
use genesis_ssmp.Base.{
  Ensures-map, append-nil, append_assoc, ◌⊎◌, ℕ, suc, ◌≤◌, ◌≡◌, ◌≢◌, refl, sym, ap, ◌∙◌, inl, inr,
  Bool, true, false, Option, none, some, List, [], ◌∷◌, ◌++◌, arith, ltb, length, All, Bytes, bytes,
  is_empty, same, same_refl, get, put, get-put, Bool-cases, Result, ok, ◌>>=◌, Ensures, of_ok,
  of_err, Ensures-ok,
}
use genesis_ssmp.Heaven.Server.{Server}
use genesis_ssmp.God.Missions.{
  Scope, DagNode, MissionDag, add_node, new_mission_dag, roots, roots_of, validate_mission,
}
use genesis_ssmp.God.Planner.Buckets.{
  gather_symbols, symbols_at, scopes_from, Symbol, Buckets, append_at, merge_misc, merged,
  group_by_bucket, dir_map,
}
use genesis_ssmp.God.Planner.Plan.{
  PlannerHost, PlanError, planned, analysis, after_analysis, fallback, bucket_mission, ask_leases,
  plan_buckets, plan_rest, plan,
}

length-put : (k : Bytes) (v : List Symbol) (m : Buckets) → length (put k v m) ≤ suc (length m)
unfolding put
length-put k v [] = omega arith
length-put k v ((j, w) ∷ m) = ground (arith, length-put k v m)

-- A key that is there adds no entry.
length-put_again :
    (k : Bytes) (v : List Symbol) (m : Buckets) → get k m ≢ none → length (put k v m) ≡ length m
unfolding put get
length-put_again k v [] h = absurd (h refl)
length-put_again k v ((j, w) ∷ m) h = elim (Bool-cases (same j k)) [
  | inl e ↦ rw e refl
  | inr e ↦ rw e (ap suc (length-put_again k v m (rw (e, get) at h)))
]

-- At most two entries, or three with that of the rest.
abbrev IsMerged : Buckets → Type 0
IsMerged m = (length m ≤ 2) ⊎ ((length m ≤ 3) × (get (bytes "misc") m ≢ none))

put-IsMerged :
    (added : List Symbol) (m : Buckets) → IsMerged m → IsMerged (put (bytes "misc") added m)
put-IsMerged added m h = go h
  where
    misc : Bytes
    misc = bytes "misc"

    there : get misc (put misc added m) ≢ none
    there = rw (get-put misc misc added m, same_refl misc) (ground arith)

    go : IsMerged m → IsMerged (put misc added m)
    go (inl h) = inr (omega (arith, h, length-put misc added m), there)
    go (inr (h, k)) = inr (omega (arith, h, length-put_again misc added m k), there)

merge_misc-IsMerged : (entries m : Buckets) → IsMerged m → length (merge_misc m entries) ≤ 3
unfolding merge_misc append_at
merge_misc-IsMerged [] m (inl h) = omega (arith, h)
merge_misc-IsMerged [] m (inr (h, k)) = h
merge_misc-IsMerged ((name, symbols) ∷ entries) m h =
    let added = symbols_at (get (bytes "misc") m) ++ symbols in
    merge_misc-IsMerged entries (put (bytes "misc") added m) (put-IsMerged added m h)

merged-few : (m : Buckets) → length (merged m) ≤ 3
unfolding merged put
merged-few [] = omega arith
merged-few ((a, xs) ∷ []) = omega arith
merged-few ((a, xs) ∷ (b, ys) ∷ entries) =
    merge_misc-IsMerged entries _ (inl (ground (arith, length-put b ys ((a, xs) ∷ []))))

group_by_bucket-few :
    (dir_base : Bytes → Bytes) (largest_first : Buckets → Buckets) (symbols : List Symbol)
    → length (group_by_bucket dir_base largest_first symbols) ≤ 3
unfolding group_by_bucket
group_by_bucket-few dir_base largest_first symbols =
    let m = dir_map dir_base [] symbols in
    elim (Bool-cases (ltb 3 (length m))) [
      | inl e ↦ rw (e, group_by_bucket) (merged-few (largest_first m))
      | inr e ↦ rw (e, group_by_bucket) (ground arith)
    ]

-- A valid mission that waits for the analysis.
abbrev pub IsWaiting : PlannerHost → (Bytes → Bool) → DagNode → Type 0
IsWaiting host is_time n =
    (n.depends_on ≡ host.drawn_id 1 ∷ []) × (validate_mission is_time n.mission ≡ ok tt)

module _ (host : PlannerHost) (is_time : Bytes → Bool)
    (drawn : (i : ℕ) → is_empty (host.drawn_id i) ≡ false) (now : is_time host.now ≡ true)
    (named : is_empty host.now ≡ false) where
  planned-valid :
      (i : ℕ) (goal : Bytes) (scopes : List Scope) (lease_ids : List Bytes) (task : Bytes)
      (budget : ℕ)
      → is_empty goal ≡ false
      → validate_mission is_time (planned host (host.drawn_id i) goal scopes lease_ids task budget)
        ≡ ok tt
  unfolding validate_mission ◌>>=◌
  planned-valid i goal scopes lease_ids task budget h =
      rw (drawn i, h, named, now, ◌>>=◌) (ground arith)

  -- The nodes that the loop adds.
  abbrev Grown : MissionDag → ℕ → Result PlanError MissionDag → Type 0
  Grown dag n r =
      Ensures
        (λ dag'.
          (new : List DagNode) × (dag'.nodes ≡ dag.nodes ++ new)
          × (length new ≡ n)
          × All (IsWaiting host is_time) new)
        r

  plan_buckets-Grown :
      (task_desc : Bytes) (i : ℕ) (buckets : Buckets) (dag : MissionDag) (srv : Server)
      → Grown dag (length buckets) (plan_buckets host task_desc i buckets dag srv).1
  unfolding plan_buckets add_node
  plan_buckets-Grown task_desc i [] dag srv = of_ok ([], sym (append-nil dag.nodes), refl, tt)
  plan_buckets-Grown task_desc i ((name, symbols) ∷ buckets) dag srv =
      go (ask_leases host i dag.plan_id (host.drawn_id i) (scopes_from [] symbols) srv).1 refl
        (λ dag' srv'. plan_buckets-Grown task_desc (suc i) buckets dag' srv')
    where
      go :
          (answer : Option AcquireResult)
          → (ask_leases host i dag.plan_id (host.drawn_id i) (scopes_from [] symbols) srv).1
            ≡ answer
          → ((dag' : MissionDag) (srv' : Server)
              → Grown dag'
                  (length buckets)
                  (plan_buckets host task_desc (suc i) buckets dag' srv').1)
          → Grown dag
              (suc (length buckets))
              (plan_buckets host task_desc i ((name, symbols) ∷ buckets) dag srv).1
      go none q later = rw (q, plan_buckets) of_err
      go (some r) q later =
          let m = bucket_mission host task_desc (host.drawn_id i) name (scopes_from [] symbols) r in
          let n = after_analysis host m in
          rw (q, plan_buckets)
            (Ensures-map (later (add_node n dag) _) λ dag' (new, at, size, waiting). (
              n ∷ new,
              at ∙ append_assoc dag.nodes (n ∷ []) new,
              ap suc size,
              ((refl, planned-valid i _ _ _ name 8000 refl), waiting),
            ))

  -- Between one and three missions after the analysis.
  plan_rest-Grown :
      (task_desc : Bytes) (buckets : Buckets) (dag : MissionDag) (srv : Server)
      → is_empty task_desc ≡ false
      → length buckets ≤ 3
      → Ensures
          (λ dag'.
            (new : List DagNode) × (dag'.nodes ≡ dag.nodes ++ new)
            × (1 ≤ length new)
            × (length new ≤ 3)
            × All (IsWaiting host is_time) new)
          (plan_rest host task_desc buckets dag srv).1
  unfolding plan_rest add_node
  plan_rest-Grown task_desc [] dag srv h few = of_ok (
    after_analysis host (fallback host task_desc) ∷ [],
    refl,
    omega arith,
    omega arith,
    ((refl, planned-valid 2 task_desc [] [] _ 8000 h), tt),
  )
  plan_rest-Grown task_desc (b ∷ buckets) dag srv h few =
      Ensures-map (plan_buckets-Grown task_desc 2 (b ∷ buckets) dag srv)
        λ dag' (new, at, size, waiting).
          (new, at, ground (arith, size), ground (arith, size, few), waiting)

-- The analysis, on which all else waits.
abbrev pub first_node : PlannerHost → Bytes → DagNode
first_node host task_desc = record { mission = analysis host task_desc; depends_on = [] }

-- The shape of a plan: the analysis is its only root, one to three missions wait for it and for nothing
-- else, and all of them are valid.
abbrev pub IsPlan : PlannerHost → (Bytes → Bool) → Bytes → MissionDag → Type 0
IsPlan host is_time task_desc dag =
    (new : List DagNode) × (dag.nodes ≡ first_node host task_desc ∷ new)
    × (1 ≤ length new)
    × (length new ≤ 3)
    × All (IsWaiting host is_time) new
    × (validate_mission is_time (analysis host task_desc) ≡ ok tt)
    × (roots dag ≡ first_node host task_desc ∷ [])

roots_of-waiting :
    (host : PlannerHost) (is_time : Bytes → Bool) (ns : List DagNode)
    → All (IsWaiting host is_time) ns
    → roots_of ns ≡ []
roots_of-waiting host is_time [] h = refl
roots_of-waiting host is_time (n ∷ ns) ((h, v), hs) = rw h (roots_of-waiting host is_time ns hs)

-- A plan that `Plan` returns has the analysis of the task for its only root, which waits for nothing, and
-- then one to three missions that wait for the analysis alone; each mission is valid. No identifier
-- that is drawn is empty, the time is one of RFC 3339, the order of a Go map holds each key once, and
-- the task is not empty.
pub plan-IsPlan :
    (host : PlannerHost) (is_time : Bytes → Bool) (task_desc repo_path : Bytes) (srv srv' : Server)
    (dag : MissionDag)
    → ((i : ℕ) → is_empty (host.drawn_id i) ≡ false)
    → is_time host.now ≡ true
    → is_empty host.now ≡ false
    → ((m : Buckets) → length (host.map_order m) ≡ length m)
    → is_empty task_desc ≡ false
    → plan host task_desc repo_path srv ≡ (srv', ok dag)
    → IsPlan host is_time task_desc dag
unfolding plan add_node new_mission_dag roots
plan-IsPlan host is_time task_desc repo_path srv srv' dag drawn now named order given h =
    elim (Bool-cases host.builds) [
      | inl e ↦
          let symbols = gather_symbols host.search [] (extract_keywords host.to_lower task_desc) in
          let m = group_by_bucket host.dir_base host.largest_first symbols in
          let few_buckets = group_by_bucket-few host.dir_base host.largest_first symbols in
          let empty = new_mission_dag host.now (host.drawn_id 0) task_desc repo_path in
          let (new, at, some_new, few, waiting) =
            Ensures-ok
              (plan_rest-Grown host is_time drawn now named task_desc (host.map_order m)
                (add_node (first_node host task_desc) empty) srv given
                (omega (arith, order m, few_buckets)))
              (ap (λ x. x.1) (rw (e, plan) at h)) in
          (
            new,
            at,
            some_new,
            few,
            waiting,
            planned-valid host is_time drawn now named 1 _ [] [] _ 4000 refl,
            ap roots_of at
                ∙ ap (◌∷◌ (first_node host task_desc)) (roots_of-waiting host is_time new waiting),
          )
      | inr e ↦ absurd (ground (arith, h, e))
    ]
