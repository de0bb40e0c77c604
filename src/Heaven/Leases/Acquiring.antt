-- ===== src/Heaven/Leases/Acquiring.antt =====
-- heaven/leases.go: `Acquire`.
use genesis_ssmp.Base.{
  suc, ◌+◌, ◌≡◌, inl, inr, refl, ◌∙◌, true, false, not, Option, none, some, List, [], ◌∷◌, ◌++◌,
  arith, if◌then◌else◌, length, length-append, append-nil, append_assoc, All, All-append, Bool,
  ◌||◌, Bytes, same, same_iff, same_refl, Dict, get, put, get-put, Bool-cases, Option-cases,
}
use genesis_ssmp.Heaven.State.{Lease, Env, State, Event, lease_issued, log_event}
use genesis_ssmp.Heaven.Leases.{
  ScopeTarget, AcquireRequest, AcquireResult, scope_key, key_of, target_key, issue, new_lease,
  grant, found_lease, acquire_scope, acquire_scopes, acquire, owner_holds_scope,
}
use genesis_ssmp.Heaven.Leases.Index.{Distinct, IsIndexed, issue-IsIndexed, log_event-IsIndexed}

-- The owner of a scope key: the answer that `OwnerHoldsScope` compares with.
abbrev pub owner_of : Option Lease → Option Bytes
owner_of none = none
owner_of (some l) = some l.owner_id

unfoldable pub holder_in : Dict Lease → Dict Bytes → Bytes → Option Bytes
holder_in leases scopes key = elim (get key scopes) [
  | none ↦ none
  | some id ↦ owner_of (get id leases)
]

abbrev pub holder : State → Bytes → Option Bytes
holder s key = holder_in s.leases s.scopes key

pub owner_holds_scope-holder :
    (s : State) (owner scope_type scope_value : Bytes)
    → owner_holds_scope s owner scope_type scope_value ≡ true
    → holder s (scope_key scope_type scope_value) ≡ some owner
unfolding owner_holds_scope holder_in
owner_holds_scope-holder s owner t w h = elim (Option-cases (get (scope_key t w) s.scopes)) [
  | inl e ↦ ground arith
  | inr (id, e) ↦ elim (Option-cases (get id s.leases)) [
    | inl f ↦ ground arith
    | inr (l, f) ↦ ground (arith, same_iff l.owner_id owner)
  ]
]

pub log_event-leases :
    (env : Env) (e : Event) (s : State)
    → ((log_event env e s).0.leases ≡ s.leases) × ((log_event env e s).0.scopes ≡ s.scopes)
unfolding log_event
log_event-leases env e s = ground arith

-- The specification: a table from scope keys to owners. A claim takes what is free and changes
-- nothing else.
abbrev pub claim : Bytes → Option Bytes → Option Bytes
claim owner none = some owner
claim owner (some o) = some o

abbrev pub is_refused : Bytes → Option Bytes → Bool
is_refused owner none = false
is_refused owner (some o) = not (same o owner)

abbrev pub wants : List ScopeTarget → Bytes → Bool
wants [] k = false
wants (t ∷ ts) k = same (target_key t) k || wants ts k

abbrev pub refused_keys : Bytes → (Bytes → Option Bytes) → List ScopeTarget → List Bytes
refused_keys owner table [] = []
refused_keys owner table (t ∷ ts) =
    let rest = refused_keys owner table ts in
    if is_refused owner (table (target_key t)) then target_key t ∷ rest else rest

-- What `Acquire` does for the targets: the table of owners, the refused keys in their order, one
-- answer to each target, and leases of the caller only.
pub record Serves (env : Env) (owner : Bytes) (ts : List ScopeTarget) (s : State)
    (r : AcquireResult) (s' : State) (r' : AcquireResult) : Type 0 where
  pub indexed : IsIndexed env s'
  pub table :
      (k : Bytes) → holder s' k ≡ (if wants ts k then claim owner (holder s k) else holder s k)
  pub denied : r'.denied ≡ r.denied ++ refused_keys owner (holder s) ts
  pub counted :
      length r'.acquired + length r'.denied ≡ length ts + (length r.acquired + length r.denied)
  pub new : List Lease
  pub acquired : r'.acquired ≡ r.acquired ++ new
  pub mine : All (λ (l : Lease). l.owner_id ≡ owner) new

refused_keys-eq :
    (owner : Bytes) (f g : Bytes → Option Bytes) (ts : List ScopeTarget)
    → ((k : Bytes) → is_refused owner (f k) ≡ is_refused owner (g k))
    → refused_keys owner f ts ≡ refused_keys owner g ts
refused_keys-eq owner f g [] h = refl
refused_keys-eq owner f g (t ∷ ts) h =
    ground (arith, h (target_key t), refused_keys-eq owner f g ts h)

Serves-cons :
    (env : Env) (owner : Bytes) (t : ScopeTarget) (ts : List ScopeTarget) {s : State}
    {r : AcquireResult} {s' : State} {r' : AcquireResult} {s'' : State} {r'' : AcquireResult}
    → Serves env owner (t ∷ []) s r s' r'
    → Serves env owner ts s' r' s'' r''
    → Serves env owner (t ∷ ts) s r s'' r''
Serves-cons env owner t ts {s} {r} {s'} {r'} first later = record {
  indexed = later.indexed;
  table = λ k. ground (arith, first.table k, later.table k);
  denied =
      later.denied
      ∙ ground (
        arith,
        first.denied,
        refused_keys-eq owner (holder s') (holder s) ts
            (λ k. ground (arith, first.table k, same_refl owner)),
        append_assoc r.denied (target_key t ∷ []) (refused_keys owner (holder s) ts),
        append-nil r.denied,
      );
  counted = omega (arith, first.counted, later.counted);
  new = first.new ++ later.new;
  acquired =
      later.acquired ∙ ground (arith, first.acquired, append_assoc r.acquired first.new later.new);
  mine = All-append _ first.new later.new first.mine later.mine;
}

module _ (env : Env) (distinct : Distinct env) (now : Bytes) (req : AcquireRequest) where
  abbrev Round : ScopeTarget → State → AcquireResult → State → AcquireResult → Type 0
  Round t = Serves env req.owner_id (t ∷ [])

  holder-issue :
      (l : Lease) (s : State) (k : Bytes)
      → IsIndexed env s
      → get l.lease_id s.leases ≡ none
      → holder_in (put l.lease_id l s.leases) (put (key_of l) l.lease_id s.scopes) k
        ≡ (if same (key_of l) k then some l.owner_id else holder s k)
  unfolding holder_in
  holder-issue l s k v unused = elim (Bool-cases (same (key_of l) k)) [
    | inl e ↦ ground (
      arith,
      get-put (key_of l) k l.lease_id s.scopes,
      get-put l.lease_id l.lease_id l s.leases,
      same_refl l.lease_id,
    )
    | inr e ↦ elim (Option-cases (get k s.scopes)) [
      | inl f ↦ ground (arith, get-put (key_of l) k l.lease_id s.scopes)
      | inr (id, f) ↦
          let (m, g, a, b) = v.to_lease k id f in
          ground (
            arith,
            get-put (key_of l) k l.lease_id s.scopes,
            get-put l.lease_id id l s.leases,
            same_iff l.lease_id id,
          )
    ]
  ]

  holder-grant :
      (l : Lease) (s : State) (k : Bytes)
      → IsIndexed env s
      → get l.lease_id s.leases ≡ none
      → holder (grant env l s) k ≡ (if same (key_of l) k then some l.owner_id else holder s k)
  unfolding grant issue
  holder-grant l s k v unused =
      let same_maps =
        log_event-leases env (lease_issued l) (record (issue l s) { drawn = suc s.drawn }) in
      rw (same_maps.0, same_maps.1) (holder-issue l s k v unused)

  holder-free : (s : State) (k : Bytes) → get k s.scopes ≡ none → holder s k ≡ none
  unfolding holder_in
  holder-free s k e = ground arith

  grant-Round :
      (target : ScopeTarget) (s : State) (r : AcquireResult)
      → IsIndexed env s
      → get (target_key target) s.scopes ≡ none
      → let l = new_lease env now req target s in
        Round target s r (grant env l s) (record r { acquired = r.acquired ++ (l ∷ []) })
  unfolding new_lease grant
  grant-Round target s r v free =
      let l = new_lease env now req target s in
      let unused : get l.lease_id s.leases ≡ none = v.unused s.drawn (omega arith) in
      record {
        indexed =
            log_event-IsIndexed env (lease_issued l) _
              (issue-IsIndexed env l s v free refl distinct);
        table = λ k.
            holder-grant l s k v unused
            ∙ ground (arith, holder-free s k, same_iff (target_key target) k);
        denied = ground (arith, holder-free s (target_key target), append-nil r.denied);
        counted = omega (arith, length-append r.acquired (l ∷ []));
        new = l ∷ [];
        acquired = refl;
        mine = (refl, tt);
      }

  held-Round :
      (target : ScopeTarget) (s : State) (r : AcquireResult) (l : Lease)
      → IsIndexed env s
      → holder s (target_key target) ≡ some l.owner_id
      → (r' : AcquireResult) × (found_lease req (target_key target) r (some l) ≡ some r')
        × Round target s r s r'
  unfolding found_lease
  held-Round target s r l v h = elim (Bool-cases (same l.owner_id req.owner_id)) [
    | inl own ↦ (
      record r { acquired = r.acquired ++ (l ∷ []) },
      rw own,
      record {
        indexed = v;
        table = λ k. ground (arith, same_iff (target_key target) k);
        denied = ground (arith, append-nil r.denied);
        counted = omega (arith, length-append r.acquired (l ∷ []));
        new = l ∷ [];
        acquired = refl;
        mine = ((same_iff l.owner_id req.owner_id).0 own, tt);
      },
    )
    | inr other ↦ (
      record r { denied = r.denied ++ (target_key target ∷ []) },
      rw other,
      record {
        indexed = v;
        table = λ k. ground (arith, same_iff (target_key target) k);
        denied = ground arith;
        counted = omega (arith, length-append r.denied (target_key target ∷ []));
        new = [];
        acquired = ground (arith, append-nil r.acquired);
        mine = tt;
      },
    )
  ]

  abbrev Served : List ScopeTarget → State → AcquireResult → Option (State × AcquireResult) → Type 0
  Served ts s r none = ⊥
  Served ts s r (some (s', r')) = Serves env req.owner_id ts s r s' r'

  acquire_scope-Served :
      (target : ScopeTarget) (s : State) (r : AcquireResult)
      → IsIndexed env s
      → Served (target ∷ []) s r (acquire_scope env now req target s r)
  unfolding acquire_scope
  acquire_scope-Served target s r v = elim (Option-cases (get (target_key target) s.scopes)) [
    | inl free ↦ rw (free, acquire_scope) (grant-Round target s r v free)
    | inr (id, e) ↦
        let (l, g, a, b) = v.to_lease (target_key target) id e in
        let (r', f, done) = held-Round target s r l v (unfold holder_in in ground arith) in
        rw (e, acquire_scope) (rw g (rw f done))
  ]

  acquire_scopes-Served :
      (ts : List ScopeTarget) (s : State) (r : AcquireResult)
      → IsIndexed env s
      → Served ts s r (acquire_scopes env now req ts s r)
  unfolding acquire_scopes
  acquire_scopes-Served [] s r v = record {
    indexed = v;
    table = λ k. refl;
    denied = ground (arith, append-nil r.denied);
    counted = omega arith;
    new = [];
    acquired = ground (arith, append-nil r.acquired);
    mine = tt;
  }
  acquire_scopes-Served (t ∷ ts) s r v =
      go (acquire_scopes-Served ts) (acquire_scope env now req t s r) refl
        (acquire_scope-Served t s r v)
    where
      join_rounds :
          (s' : State) (r' : AcquireResult) (o : Option (State × AcquireResult))
          → Round t s r s' r'
          → Served ts s' r' o
          → Served (t ∷ ts) s r o
      join_rounds s' r' none h later = later
      join_rounds s' r' (some _) h later = Serves-cons env req.owner_id t ts h later

      go :
          ((s' : State) (r' : AcquireResult)
            → IsIndexed env s'
            → Served ts s' r' (acquire_scopes env now req ts s' r'))
          → (o : Option (State × AcquireResult)) → acquire_scope env now req t s r ≡ o
          → Served (t ∷ []) s r o
          → Served (t ∷ ts) s r (acquire_scopes env now req (t ∷ ts) s r)
      go later none e h = absurd h
      go later (some (s', r')) e h =
          rw (e, acquire_scopes) (join_rounds s' r' _ h (later s' r' h.indexed))

-- `Acquire` never dereferences a missing lease. Afterwards the table of owners is the one before
-- with each free scope of the request claimed by the caller and no other entry changed; exactly
-- the scopes that another owner held at the start are denied, in the order of the request; each
-- scope of the request has one answer; every lease returned is the caller's; and the two maps
-- still agree. The two maps agree at the start, and no identifier is drawn twice.
pub acquire-Serves :
    (env : Env) (now : Bytes) (req : AcquireRequest) (s : State)
    → Distinct env
    → IsIndexed env s
    → (s' : State) × (r' : AcquireResult) × (acquire env now req s ≡ some (s', r'))
      × Serves env req.owner_id req.scopes s (record { acquired = []; denied = [] }) s' r'
unfolding acquire
acquire-Serves env now req s distinct v =
    go (acquire_scopes env now req req.scopes s start)
      (acquire_scopes-Served env distinct now req req.scopes s start v)
  where
    start : AcquireResult
    start = record { acquired = []; denied = [] }

    go :
        (o : Option (State × AcquireResult))
        → Served env distinct now req req.scopes s start o
        → (s' : State) × (r' : AcquireResult) × (o ≡ some (s', r'))
          × Serves env req.owner_id req.scopes s start s' r'
    go none h = absurd h
    go (some (s', r')) h = (s', r', refl, h)
