-- ===== src/God/Isa/Runnable.antt =====
-- god/isa_compiler.go with god/aa_validate.go and heaven/pf.go: a program that parses can be run.
use genesis_ssmp.Base.{
  same_refl, subst, sym, zero, suc, ◌≡◌, refl, inl, inr, Bool, true, false, ◌||◌, Option, none,
  some, List, [], ◌∷◌, ◌++◌, map, arith, All, All-append, Bool-cases, Bytes, is_empty, same, IsWord,
  ℤ, pos, negsuc, ltℤ, ok, ◌>>=◌,
}
use genesis_ssmp.God.Missions.{Scope, Mission, validate_mission, is_none_left}
use genesis_ssmp.God.AngelAssembly.Compile.{join_dos, compile_aa}
use genesis_ssmp.God.AngelAssembly.Parsed.{IsNeed}
use genesis_ssmp.God.AngelAssembly.Served.{IsServable, shard_requests_of-IsServable}
use genesis_ssmp.Heaven.Router.{command_of}
use genesis_ssmp.God.Planner.{is_among}
use genesis_ssmp.God.Isa.{IsaNeed, isa_symdef, isa_callers, isa_slice, isa_test, IsaProgram}
use genesis_ssmp.God.Isa.Lines.{parse_isa}
use genesis_ssmp.God.Isa.Compile.{
  IsaCompileResult, lease_for, lease_key, isa_leases, or_wildcard, aa_needs, isa_dos, lower_isa,
  test_requests, with_token_budget, compile_isa,
}
use genesis_ssmp.God.Isa.Parsed.{IsIsaNeed, parse_isa-IsIsa}

is_among-append :
    (k : Bytes) (xs ys : List Bytes) → is_among k (xs ++ ys) ≡ is_among k xs || is_among k ys
unfolding is_among
is_among-append k [] ys = refl
is_among-append k (x ∷ xs) ys = ground (arith, is_among-append k xs ys)

-- The key of the scope that a need asks for is among the keys.
abbrev KeyHeld : List Bytes → Option Scope → Type 0
KeyHeld keys none = Unit
KeyHeld keys (some s) = is_among (lease_key s) keys ≡ true

-- A scope of the mission has the type and the value that a need asks for.
abbrev pub IsCovered : List Scope → IsaNeed → Type 0
IsCovered scopes need = KeyHeld (map lease_key scopes) (lease_for need)

KeyHeld-wider :
    (xs ys : List Bytes)
    → ((k : Bytes) → is_among k xs ≡ true → is_among k ys ≡ true)
    → (o : Option Scope) → KeyHeld xs o
    → KeyHeld ys o
KeyHeld-wider xs ys f none h = tt
KeyHeld-wider xs ys f (some s) h = f (lease_key s) h

among_moved :
    (j : Bytes) (xs ys : List Bytes) (k : Bytes)
    → is_among k (j ∷ xs ++ ys) ≡ true
    → is_among k (xs ++ j ∷ ys) ≡ true
unfolding is_among
among_moved j xs ys k h = ground (arith, h, is_among-append k xs ys, is_among-append k xs (j ∷ ys))

All-wider :
    (xs ys : List Bytes)
    → ((k : Bytes) → is_among k xs ≡ true → is_among k ys ≡ true)
    → (needs : List IsaNeed) → All (λ need. KeyHeld xs (lease_for need)) needs
    → All (λ need. KeyHeld ys (lease_for need)) needs
All-wider xs ys f [] h = tt
All-wider xs ys f (need ∷ needs) (h, hs) =
    (KeyHeld-wider xs ys f (lease_for need) h, All-wider xs ys f needs hs)

-- Each scope is among the keys seen before or those of the leases that are derived.
abbrev Leased : List Bytes → List Scope → List IsaNeed → Type 0
Leased seen leases asked =
    All (λ need. KeyHeld (seen ++ map lease_key leases) (lease_for need)) asked

isa_leases-Leased :
    (seen : List Bytes) (needs : List IsaNeed) → Leased seen (isa_leases seen needs) needs
unfolding isa_leases
isa_leases-Leased seen [] = tt
isa_leases-Leased seen (need ∷ needs) =
    go (lease_for need) refl (λ seen'. isa_leases-Leased seen' needs)
  where
    go :
        (o : Option Scope)
        → lease_for need ≡ o
        → ((seen' : List Bytes) → Leased seen' (isa_leases seen' needs) needs)
        → Leased seen (isa_leases seen (need ∷ needs)) (need ∷ needs)
    go none e later =
        let same_leases : isa_leases seen (need ∷ needs) ≡ isa_leases seen needs =
          rw (e, isa_leases) refl in
        subst (λ ls. Leased seen ls (need ∷ needs)) (sym same_leases) (rw e tt, later seen)
    go (some s) e later =
        let k = lease_key s in
        elim (Bool-cases (is_among k seen)) [
          | inl f ↦
              let same_leases : isa_leases seen (need ∷ needs) ≡ isa_leases seen needs =
                rw (e, isa_leases, f) refl in
              subst (λ ls. Leased seen ls (need ∷ needs)) (sym same_leases)
                (
                  rw (e, is_among-append k seen (map lease_key (isa_leases seen needs)), f) refl,
                  later seen,
                )
          | inr f ↦
              let rest = isa_leases (k ∷ seen) needs in
              let more_leases : isa_leases seen (need ∷ needs) ≡ s ∷ rest =
                rw (e, isa_leases, f) refl in
              subst (λ ls. Leased seen ls (need ∷ needs)) (sym more_leases)
                (
                  rw (e, is_among-append k seen (k ∷ map lease_key rest), f, is_among, same_refl k)
                      refl,
                  All-wider ((k ∷ seen) ++ map lease_key rest) (seen ++ k ∷ map lease_key rest)
                      (among_moved k seen (map lease_key rest)) needs (later (k ∷ seen)),
                )
        ]

none_among : (k : Bytes) {A : Type 0} → is_among k [] ≡ true → A
unfolding is_among
none_among k e = absurd (ground arith)

or_wildcard-Covers :
    (needs : List IsaNeed) (leases : List Scope)
    → Leased [] leases needs
    → All (IsCovered (or_wildcard leases)) needs
or_wildcard-Covers needs [] h = All-wider [] _ (λ k e. none_among k e) needs h
or_wildcard-Covers needs (s ∷ leases) h = h

-- The requests.
aa_needs-IsNeed : (needs : List IsaNeed) → All IsIsaNeed needs → All IsNeed (aa_needs needs)
unfolding aa_needs
aa_needs-IsNeed [] h = tt
aa_needs-IsNeed (isa_symdef symbol ∷ needs) (h, hs) = (h, aa_needs-IsNeed needs hs)
aa_needs-IsNeed (isa_callers symbol n ∷ needs) (h, hs) = (h, aa_needs-IsNeed needs hs)
aa_needs-IsNeed (isa_slice path start n ∷ needs) (h, hs) = (h, aa_needs-IsNeed needs hs)
aa_needs-IsNeed (isa_test word ∷ needs) (h, hs) = aa_needs-IsNeed needs hs

test_requests-IsServable :
    (id : Bytes) (needs : List IsaNeed)
    → All IsIsaNeed needs
    → All (IsServable id) (test_requests id needs)
unfolding test_requests command_of same
test_requests-IsServable id [] h = tt
test_requests-IsServable id (isa_symdef symbol ∷ needs) (h, hs) =
    test_requests-IsServable id needs hs
test_requests-IsServable id (isa_callers symbol n ∷ needs) (h, hs) =
    test_requests-IsServable id needs hs
test_requests-IsServable id (isa_slice path start n ∷ needs) (h, hs) =
    test_requests-IsServable id needs hs
test_requests-IsServable id (isa_test word ∷ needs) (h, hs) =
    ((h, refl), test_requests-IsServable id needs hs)

-- The mission.
is_empty-append : (a b : Bytes) → IsWord a → IsWord (a ++ b)
is_empty-append [] b h = absurd (ground arith)
is_empty-append (c ∷ a) b h = refl

join_dos-IsWord : (d : Bytes) (dos : List Bytes) → IsWord d → IsWord (join_dos (d ∷ dos))
unfolding join_dos
join_dos-IsWord d [] h = h
join_dos-IsWord d (e ∷ dos) h = is_empty-append d _ h

isa_dos-IsWord :
    (ops invariants : List Bytes)
    → All IsWord ops
    → All IsWord invariants
    → IsWord (join_dos (isa_dos ops invariants)) × (is_none_left (isa_dos ops invariants) ≡ false)
isa_dos-IsWord (op ∷ ops) invariants h k = (join_dos-IsWord op ops h.0, refl)
isa_dos-IsWord [] (i ∷ invariants) h k = (join_dos-IsWord i invariants k.0, refl)
isa_dos-IsWord [] [] h k = (join_dos-IsWord _ [] refl, refl)

-- What can be run: a mission that is valid, requests that the router takes, and scopes for the needs.
abbrev pub IsRunnable : (Bytes → Bool) → Bytes → IsaProgram → IsaCompileResult → Type 0
IsRunnable is_time id p r =
    (validate_mission is_time r.compiled.mission ≡ ok tt)
    × All (IsServable id) r.compiled.shard_requests
    × All (IsCovered r.compiled.mission.scopes) p.needs

-- The budget that is set is not negative, and nothing else changes.
with_token_budget-lem :
    (budget : ℤ) (m : Mission)
    → ltℤ m.token_budget (pos 0) ≡ false
    → (b : ℤ) × (with_token_budget budget m ≡ record m { token_budget = b })
      × (ltℤ b (pos 0) ≡ false)
with_token_budget-lem (pos zero) m h = (m.token_budget, refl, h)
with_token_budget-lem (pos (suc n)) m h =
    let positive : ltℤ (pos 0) (pos (suc n)) ≡ true = ground arith in
    (pos (suc n), rw positive refl, ground arith)
with_token_budget-lem (negsuc n) m h = (m.token_budget, refl, h)

-- A program that `ParseISA` accepts can be run: `CompileISA` makes a mission that `ValidateMission` accepts,
-- prefetch requests for that mission that the server's router takes, those for tests included, and
-- leases that cover the symbol or the file of each need that asks for one. No invariant is a pair of
-- quotes with nothing between them, the identifier drawn is not empty, and the time is one of RFC 3339.
pub compile_isa-IsRunnable :
    (is_time : Bytes → Bool) (source now mission_id : Bytes) (p : IsaProgram)
    → parse_isa source ≡ ok p
    → All IsWord p.invariants
    → is_empty mission_id ≡ false
    → is_empty now ≡ false
    → is_time now ≡ true
    → IsRunnable is_time mission_id p (compile_isa now mission_id p)
unfolding compile_isa compile_aa lower_isa validate_mission ◌>>=◌
compile_isa-IsRunnable is_time source now mission_id p h named drawn given time =
    let ((needs, ops), based) = parse_isa-IsIsa source p h in
    let (goal, tasks) = isa_dos-IsWord p.ops p.invariants ops named in
    let covered =
      or_wildcard-Covers p.needs (isa_leases [] p.needs) (isa_leases-Leased [] p.needs) in
    let m = (compile_aa now mission_id (lower_isa p)).mission in
    let (b, e, allowed) = with_token_budget-lem p.budget m refl in
    (
      subst (λ x. validate_mission is_time x ≡ ok tt) (sym e)
          (rw (drawn, based, goal, tasks, given, time, allowed, ◌>>=◌) refl),
      All-append (IsServable mission_id) _ _
          (shard_requests_of-IsServable mission_id (aa_needs p.needs)
            (aa_needs-IsNeed p.needs needs))
          (test_requests-IsServable mission_id p.needs needs),
      subst (λ x. All (IsCovered x.scopes) p.needs) (sym e) covered,
    )
