-- ===== src/Heaven/Leases/Releasing.antt =====
-- heaven/leases.go: `Release`.
use mathlib.Core.Path.{fun_ext}
use genesis_ssmp.Base.{
  ℕ, suc, ◌+◌, ◌≡◌, inl, inr, refl, ap, ◌∙◌, true, false, not, Option, none, some, List, [], ◌∷◌,
  arith, if◌then◌else◌, Bool, ◌||◌, ◌&&◌, Bytes, same, same_iff, get, get-del, Option-cases,
}
use genesis_ssmp.Heaven.State.{Lease, Env, State, lease_released, log_event}
use genesis_ssmp.Heaven.Leases.{key_of, drop_lease, release_one, release_from, release}
use genesis_ssmp.Heaven.Leases.Index.{IsIndexed, drop_lease-IsIndexed, log_event-IsIndexed}
use genesis_ssmp.Heaven.Leases.Acquiring.{log_event-leases}

abbrev pub is_in : Bytes → List Bytes → Bool
is_in k [] = false
is_in k (j ∷ js) = same j k || is_in k js

abbrev pub keep_unless {ℓ} : {A : Type ℓ} → Bool → Option A → Option A
keep_unless b o = if b then none else o

-- An entry of the index goes with its lease.
abbrev pub unindexed : List Bytes → Option Bytes → Option Bytes
unindexed ids none = none
unindexed ids (some id) = keep_unless (is_in id ids) (some id)

abbrev is_some {ℓ} : {A : Type ℓ} → Option A → Bool
is_some none = false
is_some (some _) = true

-- The number of different identifiers in the list that are in the table.
abbrev pub count_present : (Bytes → Bool) → List Bytes → ℕ
count_present table [] = 0
count_present table (id ∷ ids) =
    (if table id then 1 else 0) + count_present (λ j. table j && not (same id j)) ids

pub record Releases (env : Env) (ids : List Bytes) (s : State) (n : ℕ) (s' : State) (n' : ℕ)
    : Type 0 where
  pub indexed : IsIndexed env s'
  pub leases : (j : Bytes) → get j s'.leases ≡ keep_unless (is_in j ids) (get j s.leases)
  pub scopes : (k : Bytes) → get k s'.scopes ≡ unindexed ids (get k s.scopes)
  pub counted : n' ≡ n + count_present (λ j. is_some (get j s.leases)) ids

count_present-eq :
    (f g : Bytes → Bool) (ids : List Bytes)
    → ((j : Bytes) → f j ≡ g j)
    → count_present f ids ≡ count_present g ids
count_present-eq f g ids h = ap (λ t. count_present t ids) (fun_ext h)

module _ (env : Env) where
  drop-Releases :
      (id : Bytes) (l : Lease) (s : State) (n : ℕ)
      → IsIndexed env s
      → get id s.leases ≡ some l
      → Releases env (id ∷ []) s n (log_event env (lease_released id) (drop_lease l id s)).0 (suc n)
  unfolding drop_lease
  drop-Releases id l s n v e =
      let same_maps = log_event-leases env (lease_released id) (drop_lease l id s) in
      record {
        indexed =
            log_event-IsIndexed env (lease_released id) _ (drop_lease-IsIndexed env l s v id e);
        leases = λ j. rw same_maps.0 (get-del id j s.leases ∙ ground arith);
        scopes = λ k. rw same_maps.1 (elim (Option-cases (get k s.scopes)) [
          | inl f ↦ ground (arith, get-del (key_of l) k s.scopes)
          | inr (j, f) ↦
              let (m, g, a, b) = v.to_lease k j f in
              ground (
                arith,
                get-del (key_of l) k s.scopes,
                (v.to_scope id l e).0,
                same_iff (key_of l) k,
                same_iff id j,
              )
        ]);
        counted = ground arith;
      }

  release_one-Releases :
      (id : Bytes) (s : State) (n : ℕ)
      → IsIndexed env s
      → let (s', n') = release_one env id s n in Releases env (id ∷ []) s n s' n'
  unfolding release_one
  release_one-Releases id s n v = elim (Option-cases (get id s.leases)) [
    | inl e ↦
        rw (e, release_one)
          (record {
            indexed = v;
            leases = λ j. ground (arith, same_iff id j);
            scopes = λ k. elim (Option-cases (get k s.scopes)) [
              | inl f ↦ ground arith
              | inr (j, f) ↦ let (m, g, a, b) = v.to_lease k j f in ground (arith, same_iff id j)
            ];
            counted = ground arith;
          })
    | inr (l, e) ↦ rw (e, release_one) (drop-Releases id l s n v e)
  ]

  Releases-cons :
      (id : Bytes) (ids : List Bytes) {s : State} {n : ℕ} {s' : State} {n' : ℕ} {s'' : State}
      {n'' : ℕ}
      → Releases env (id ∷ []) s n s' n'
      → Releases env ids s' n' s'' n''
      → Releases env (id ∷ ids) s n s'' n''
  Releases-cons id ids {s} {n} {s'} first later = record {
    indexed = later.indexed;
    leases = λ j. ground (arith, first.leases j, later.leases j);
    scopes = λ k. elim (Option-cases (get k s.scopes)) [
      | inl f ↦ ground (arith, first.scopes k, later.scopes k)
      | inr (j, f) ↦ ground (arith, first.scopes k, later.scopes k)
    ];
    counted =
        later.counted
        ∙ (rw
            (count_present-eq (λ j. is_some (get j s'.leases))
              (λ j. is_some (get j s.leases) && not (same id j)) ids
              (λ j. ground (arith, first.leases j)))
            (omega (arith, first.counted)));
  }

  release_from-Releases :
      (ids : List Bytes) (s : State) (n : ℕ)
      → IsIndexed env s
      → let (s', n') = release_from env ids s n in Releases env ids s n s' n'
  unfolding release_from
  release_from-Releases [] s n v = record {
    indexed = v;
    leases = λ j. refl;
    scopes = λ k. ground arith;
    counted = omega arith;
  }
  release_from-Releases (id ∷ ids) s n v =
      let first = release_one-Releases id s n v in
      Releases-cons id ids first (release_from-Releases ids _ _ first.indexed)

-- After `Release` the leases that were named are gone, with their entries in the index, and all
-- others stand as before; the number returned is that of the different identifiers in the list
-- that named a lease; and the two maps still agree. The two maps agree at the start.
pub release-Releases :
    (env : Env) (ids : List Bytes) (s : State)
    → IsIndexed env s
    → Releases env ids s 0 (release env ids s).0 (release env ids s).1
unfolding release
release-Releases env ids s v = release_from-Releases env ids s 0 v
