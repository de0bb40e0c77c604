-- ===== src/Heaven/Leases/Handover.antt =====
-- heaven/leases.go: `Release` and then `Acquire`.
use genesis_ssmp.Base.{
  ◌≡◌, refl, ◌∙◌, true, none, some, Option, List, [], ◌∷◌, arith, if◌then◌else◌, Bytes, same_refl,
  get, Bool-cases, inl, inr,
}
use genesis_ssmp.Heaven.State.{Env, State}
use genesis_ssmp.Heaven.Leases.{
  ScopeTarget, AcquireRequest, AcquireResult, target_key, release, acquire,
}
use genesis_ssmp.Heaven.Leases.Index.{Distinct, IsIndexed}
use genesis_ssmp.Heaven.Leases.Acquiring.{holder, holder_in, wants, refused_keys, acquire-Serves}
use genesis_ssmp.Heaven.Leases.Releasing.{unindexed, release-Releases}

refused_keys-free :
    (owner : Bytes) (table : Bytes → Option Bytes) (ts : List ScopeTarget)
    → ((k : Bytes) → wants ts k ≡ true → table k ≡ none)
    → refused_keys owner table ts ≡ []
refused_keys-free owner table [] h = refl
refused_keys-free owner table (t ∷ ts) h = ground (
  arith,
  h (target_key t) (ground (arith, same_refl (target_key t))),
  refused_keys-free owner table ts (λ k e. h k (ground arith)),
)

-- A caller gets every scope that it waits for as soon as the leases on them are released: after a
-- `Release` that names the lease of each scope of a request that has one, `Acquire` denies nothing,
-- and the caller then holds every scope of the request. The two maps agree at the start, and no
-- identifier is drawn twice.
pub release-acquire :
    (env : Env) (now : Bytes) (ids : List Bytes) (req : AcquireRequest) (s : State)
    → Distinct env
    → IsIndexed env s
    → ((k : Bytes) → wants req.scopes k ≡ true → unindexed ids (get k s.scopes) ≡ none)
    → (s' : State) × (r : AcquireResult) × (acquire env now req (release env ids s).0
        ≡ some (s', r))
      × (r.denied ≡ [])
      × ((k : Bytes)
          → holder s' k
            ≡ (if wants req.scopes k then some req.owner_id else holder (release env ids s).0 k))
unfolding holder_in
release-acquire env now ids req s distinct indexed named =
    let released = release-Releases env ids s indexed in
    let (s', r, e, served) =
      acquire-Serves env now req (release env ids s).0 distinct released.indexed in
    let free : (k : Bytes) → wants req.scopes k ≡ true → holder (release env ids s).0 k ≡ none =
      λ k w. ground (arith, released.scopes k ∙ named k w) in
    (
      s',
      r,
      e,
      served.denied ∙ refused_keys-free req.owner_id (holder (release env ids s).0) req.scopes free,
      λ k. elim (Bool-cases (wants req.scopes k)) [
        | inl w ↦ ground (arith, served.table k, free k w)
        | inr w ↦ ground (arith, served.table k)
      ],
    )
