-- ===== src/Heaven/Server/Manifest.antt =====
-- heaven/server.go: `handleValidateManifest`.
use genesis_ssmp.Base.{
  ℕ, ◌≡◌, ◌↔◌, refl, true, Option, none, some, List, [], ◌∷◌, ◌++◌, arith, All, Bytes, bytes, Dict,
  get, ℤ, pos, negsuc, Bool-cases, inl, inr, same_refl, ◌<◌, subst, append_assoc, and-true_iff,
}
use genesis_ssmp.Heaven.State.{State}
use genesis_ssmp.Heaven.Leases.{owner_holds_scope}
use genesis_ssmp.Heaven.FileClock.{get_clocks, or_zero, clock}
use genesis_ssmp.Heaven.FileClock.Counting.{occurrences, get-get_clocks}
use genesis_ssmp.Heaven.Server.{
  ManifestRequest, is_nil, missing, clock_is, drifted, clock_drift, keys_of, validate_manifest,
}

-- The owner holds each of the scopes.
abbrev pub HoldsAll : State → Bytes → Bytes → List Bytes → Type 0
HoldsAll s owner scope_type = All (λ v. owner_holds_scope s owner scope_type v ≡ true)

abbrev pub ClocksMatch : State → Option (Dict ℤ) → Type 0
ClocksMatch s none = Unit
ClocksMatch s (some expected) = All (λ (pe : Bytes × ℤ). pe.1 ≡ pos (clock s.clocks pe.0)) expected

missing-nil_iff :
    (s : State) (owner t : Bytes) (vs : List Bytes)
    → (is_nil (missing s owner t vs) ≡ true) ↔ HoldsAll s owner t vs
unfolding missing
missing-nil_iff s owner t [] = (λ _. tt, λ _. refl)
missing-nil_iff s owner t (v ∷ vs) =
    let ih = missing-nil_iff s owner t vs in
    elim (Bool-cases (owner_holds_scope s owner t v)) [
      | inl e ↦ (λ h. (e, ih.0 (rw (e, missing) at h)), λ h. rw (e, missing) (ih.1 h.1))
      | inr e ↦ (λ h. ground arith, λ h. ground arith)
    ]

clock_is_iff : (n : ℕ) (e : ℤ) → (clock_is n e ≡ true) ↔ (e ≡ pos n)
unfolding clock_is
clock_is_iff n (pos m) = ground arith
clock_is_iff n (negsuc m) = ground arith

occurrences-middle : (p : Bytes) (ks js : List Bytes) → 0 < occurrences p (ks ++ (p ∷ js))
occurrences-middle p [] js = ground (arith, same_refl p)
occurrences-middle p (k ∷ ks) js = omega (arith, occurrences-middle p ks js)

-- Every key of a map is asked for.
keys-asked :
    (ks : List Bytes) (m : Dict ℤ)
    → All (λ (pe : Bytes × ℤ). 0 < occurrences pe.0 (ks ++ keys_of m)) m
keys-asked ks [] = tt
keys-asked ks ((p, e) ∷ m) = (
  occurrences-middle p ks (keys_of m),
  subst (λ js. All (λ (pe : Bytes × ℤ). 0 < occurrences pe.0 js) m)
      (append_assoc ks (p ∷ []) (keys_of m)) (keys-asked (ks ++ (p ∷ [])) m),
)

drifted-nil_iff :
    (s : State) (asked : List Bytes) (m : Dict ℤ)
    → All (λ (pe : Bytes × ℤ). 0 < occurrences pe.0 asked) m
    → (is_nil (drifted (get_clocks s asked) m) ≡ true) ↔ ClocksMatch s (some m)
unfolding drifted
drifted-nil_iff s asked [] h = (λ _. tt, λ _. refl)
drifted-nil_iff s asked ((p, e) ∷ m) h =
    let ih = drifted-nil_iff s asked m h.1 in
    let current : or_zero (get p (get_clocks s asked)) ≡ clock s.clocks p =
      ground (arith, h.0, get-get_clocks s asked p) in
    let test = clock_is_iff (clock s.clocks p) e in
    elim (Bool-cases (clock_is (clock s.clocks p) e)) [
      | inl t ↦ (
        λ k. (test.0 t, ih.0 (ground (arith, current, t))),
        λ k. ground (arith, current, t, ih.1 k.1),
      )
      | inr t ↦ (λ k. absurd (ground (arith, current, t)), λ k. ground (arith, test.1 k.0))
    ]

clock_drift-nil_iff :
    (s : State) (expected : Option (Dict ℤ))
    → (is_nil (clock_drift s expected) ≡ true) ↔ ClocksMatch s expected
unfolding clock_drift
clock_drift-nil_iff s none = (λ _. tt, λ _. refl)
clock_drift-nil_iff s (some m) = drifted-nil_iff s (keys_of m) m (keys-asked [] m)

is_nil-append {ℓ} :
    {A : Type ℓ} (xs ys : List A)
    → (is_nil (xs ++ ys) ≡ true) ↔ (is_nil xs ≡ true) × (is_nil ys ≡ true)
is_nil-append [] ys = (λ h. (refl, h), λ h. h.1)
is_nil-append (x ∷ xs) ys = (λ h. cc, λ h. cc)

-- A manifest is allowed exactly when its owner holds a lease on every symbol and on every file that
-- it names and, where it says what clocks it expects, each of them is the current clock.
pub validate_manifest-allowed_iff :
    (s : State) (req : ManifestRequest)
    → ((validate_manifest s req).allowed ≡ true) ↔ (
        HoldsAll s req.owner_id (bytes "symbol") req.symbols_touched
        × HoldsAll s req.owner_id (bytes "file") req.files_touched
        × ClocksMatch s req.expected_clocks)
unfolding validate_manifest
validate_manifest-allowed_iff s req =
    let symbols = missing-nil_iff s req.owner_id (bytes "symbol") req.symbols_touched in
    let files = missing-nil_iff s req.owner_id (bytes "file") req.files_touched in
    let drift = clock_drift-nil_iff s req.expected_clocks in
    let both =
      is_nil-append (missing s req.owner_id (bytes "symbol") req.symbols_touched)
        (missing s req.owner_id (bytes "file") req.files_touched) in
    let parts =
      and-true_iff
        (is_nil (
          missing s req.owner_id (bytes "symbol") req.symbols_touched
          ++ missing s req.owner_id (bytes "file") req.files_touched))
        (is_nil (clock_drift s req.expected_clocks)) in
    (
      λ h. (
        symbols.0 (both.0 (parts.0 h).0).0,
        files.0 (both.0 (parts.0 h).0).1,
        drift.0 (parts.0 h).1,
      ),
      λ h. parts.1 (both.1 (symbols.1 h.0, files.1 h.1), drift.1 h.2),
    )

pub validate_manifest-leases :
    (s : State) (req : ManifestRequest)
    → is_nil (validate_manifest s req).missing_leases ≡ true
    → HoldsAll s req.owner_id (bytes "symbol") req.symbols_touched
      × HoldsAll s req.owner_id (bytes "file") req.files_touched
unfolding validate_manifest
validate_manifest-leases s req h =
    let both =
      is_nil-append (missing s req.owner_id (bytes "symbol") req.symbols_touched)
        (missing s req.owner_id (bytes "file") req.files_touched) in
    (
      (missing-nil_iff s req.owner_id (bytes "symbol") req.symbols_touched).0 (both.0 h).0,
      (missing-nil_iff s req.owner_id (bytes "file") req.files_touched).0 (both.0 h).1,
    )
