-- ===== src/Heaven/Leases/Index.antt =====
-- heaven/leases.go: the two maps of the lease manager agree.
use genesis_ssmp.Base.{
  ℕ, suc, ◌≤◌, ◌≡◌, subst, none, some, arith, Bytes, same, same_iff, same_refl, get, put, del,
  get-put, get-del, Bool-cases, inl, inr,
}
use genesis_ssmp.Heaven.State.{Lease, Env, State, Event, log_event}
use genesis_ssmp.Heaven.Leases.{key_of, issue, drop_lease}

-- No two draws give the same identifier.
abbrev pub Distinct : Env → Type 0
Distinct env = (m n : ℕ) → env.generate m ≡ env.generate n → m ≡ n

-- Each key of the index leads to a lease of that scope, each lease is indexed under its own scope,
-- and no identifier still to be drawn is in use.
pub record IsIndexed (env : Env) (s : State) : Type 0 where
  pub to_lease :
      (k id : Bytes)
      → get k s.scopes ≡ some id
      → (l : Lease) × (get id s.leases ≡ some l) × (key_of l ≡ k) × (l.lease_id ≡ id)
  pub to_scope :
      (id : Bytes) (l : Lease)
      → get id s.leases ≡ some l
      → (get (key_of l) s.scopes ≡ some id) × (l.lease_id ≡ id)
  pub unused : (n : ℕ) → s.drawn ≤ n → get (env.generate n) s.leases ≡ none

module _ (env : Env) (l : Lease) (s : State) (v : IsIndexed env s) where
  module _ (free : get (key_of l) s.scopes ≡ none) (drawn : l.lease_id ≡ env.generate s.drawn)
      (distinct : Distinct env) where
    free_id : get l.lease_id s.leases ≡ none
    free_id = rw drawn (v.unused s.drawn (omega arith))

    issue-to_lease :
        (k id : Bytes)
        → get k (put (key_of l) l.lease_id s.scopes) ≡ some id
        → (m : Lease) × (get id (put l.lease_id l s.leases) ≡ some m)
          × (key_of m ≡ k)
          × (m.lease_id ≡ id)
    issue-to_lease k id h = elim (Bool-cases (same (key_of l) k)) [
      | inl e ↦ (
        l,
        ground (
          arith,
          get-put (key_of l) k l.lease_id s.scopes,
          get-put l.lease_id id l s.leases,
          same_iff l.lease_id id,
        ),
        (same_iff (key_of l) k).0 e,
        ground (arith, get-put (key_of l) k l.lease_id s.scopes),
      )
      | inr e ↦
          let h' : get k s.scopes ≡ some id =
            ground (arith, get-put (key_of l) k l.lease_id s.scopes) in
          let (m, g, a, b) = v.to_lease k id h' in
          (
            m,
            ground (arith, free_id, get-put l.lease_id id l s.leases, same_iff l.lease_id id),
            a,
            b,
          )
    ]

    issue-to_scope :
        (id : Bytes) (m : Lease)
        → get id (put l.lease_id l s.leases) ≡ some m
        → (get (key_of m) (put (key_of l) l.lease_id s.scopes) ≡ some id) × (m.lease_id ≡ id)
    issue-to_scope id m h = elim (Bool-cases (same l.lease_id id)) [
      | inl e ↦
          let f : l ≡ m = ground (arith, get-put l.lease_id id l s.leases) in
          let g : l.lease_id ≡ id = (same_iff l.lease_id id).0 e in
          subst
            (λ m.
              (get (key_of m) (put (key_of l) l.lease_id s.scopes) ≡ some id) × (m.lease_id ≡ id))
            f
            (
              ground
                  (arith, get-put (key_of l) (key_of l) l.lease_id s.scopes, same_refl (key_of l)),
              g,
            )
      | inr e ↦
          let h' : get id s.leases ≡ some m = ground (arith, get-put l.lease_id id l s.leases) in
          let (a, b) = v.to_scope id m h' in
          (
            ground (
              arith,
              free,
              get-put (key_of l) (key_of m) l.lease_id s.scopes,
              same_iff (key_of l) (key_of m),
            ),
            b,
          )
    ]

    pub issue-IsIndexed : IsIndexed env (record (issue l s) { drawn = suc s.drawn })
    unfolding issue
    issue-IsIndexed = record {
      to_lease = issue-to_lease;
      to_scope = issue-to_scope;
      unused = λ n h. ground (
        arith,
        v.unused n (omega arith),
        get-put l.lease_id (env.generate n) l s.leases,
        same_iff l.lease_id (env.generate n),
        distinct s.drawn n,
      );
    }

  module _ (id : Bytes) (held : get id s.leases ≡ some l) where
    drop-to_lease :
        (k j : Bytes)
        → get k (del (key_of l) s.scopes) ≡ some j
        → (m : Lease) × (get j (del id s.leases) ≡ some m) × (key_of m ≡ k) × (m.lease_id ≡ j)
    drop-to_lease k j h =
        let h' : get k s.scopes ≡ some j = ground (arith, get-del (key_of l) k s.scopes) in
        let (m, g, a, b) = v.to_lease k j h' in
        (
          m,
          ground (
            arith,
            get-del (key_of l) k s.scopes,
            get-del id j s.leases,
            same_iff id j,
            same_iff (key_of l) k,
          ),
          a,
          b,
        )

    drop-to_scope :
        (j : Bytes) (m : Lease)
        → get j (del id s.leases) ≡ some m
        → (get (key_of m) (del (key_of l) s.scopes) ≡ some j) × (m.lease_id ≡ j)
    drop-to_scope j m h =
        let h' : get j s.leases ≡ some m = ground (arith, get-del id j s.leases) in
        let (a, b) = v.to_scope j m h' in
        (
          ground (
            arith,
            (v.to_scope id l held).0,
            get-del (key_of l) (key_of m) s.scopes,
            get-del id j s.leases,
            same_iff (key_of l) (key_of m),
            same_iff id j,
          ),
          b,
        )

    pub drop_lease-IsIndexed : IsIndexed env (drop_lease l id s)
    unfolding drop_lease
    drop_lease-IsIndexed = record {
      to_lease = drop-to_lease;
      to_scope = drop-to_scope;
      unused = λ n h. ground (arith, v.unused n h, get-del id (env.generate n) s.leases);
    }

-- Only the three maps' fields matter: the log is not part of the index.
pub log_event-IsIndexed :
    (env : Env) (e : Event) (s : State) → IsIndexed env s → IsIndexed env (log_event env e s).0
unfolding log_event
log_event-IsIndexed env e s v = elim (Bool-cases (env.written s.journal (env.marshal e))) [
  | inl w ↦
      rw (w, log_event) (record { to_lease = v.to_lease; to_scope = v.to_scope; unused = v.unused })
  | inr w ↦ rw (w, log_event) v
]
