-- ===== src/Heaven/FileClock/Counting.antt =====
-- heaven/fileclock.go: the clocks count the increments of each path.
use genesis_ssmp.Base.{
  ℕ, suc, ◌+◌, ◌≡◌, refl, ◌∙◌, none, some, List, [], ◌∷◌, arith, if◌then◌else◌, Bytes, same,
  same_iff, Dict, get, put, get-put, ltb,
}
use genesis_ssmp.Heaven.State.{Env, State, Event, file_clock_inc, log_event}
use genesis_ssmp.Heaven.FileClock.{clock, or_zero, bump_all, increment, get_onto, get_clocks}

abbrev pub occurrences : Bytes → List Bytes → ℕ
occurrences p [] = 0
occurrences p (q ∷ qs) = (if same q p then 1 else 0) + occurrences p qs

pub clock-bump_all :
    (ps : List Bytes) (clocks : Dict ℕ) (p : Bytes)
    → clock (bump_all ps clocks) p ≡ clock clocks p + occurrences p ps
unfolding bump_all clock
clock-bump_all [] clocks p = omega arith
clock-bump_all (q ∷ qs) clocks p =
    clock-bump_all qs (put q (suc (or_zero (get q clocks))) clocks) p
    ∙ ground (arith, get-put q p (suc (or_zero (get q clocks))) clocks, same_iff q p)

log_event-clocks : (env : Env) (s : State) (e : Event) → (log_event env e s).0.clocks ≡ s.clocks
unfolding log_event
log_event-clocks env s e = ground arith

log_event-leases :
    (env : Env) (s : State) (e : Event)
    → ((log_event env e s).0.leases ≡ s.leases) × ((log_event env e s).0.scopes ≡ s.scopes)
unfolding log_event
log_event-leases env s e = ground arith

get-get_onto :
    (ps : List Bytes) (clocks result : Dict ℕ) (p : Bytes)
    → get p (get_onto result clocks ps)
      ≡ (if ltb 0 (occurrences p ps) then some (clock clocks p) else get p result)
unfolding get_onto
get-get_onto [] clocks result p = refl
get-get_onto (q ∷ qs) clocks result p =
    get-get_onto qs clocks (put q (clock clocks q) result) p
    ∙ ground (arith, get-put q p (clock clocks q) result, same_iff q p)

-- `Increment` adds to the clock of every path its number of occurrences in the list, whether or
-- not the event could be logged, and leaves both maps of the leases as they are; a `Get` after it
-- returns the clock of each path that was asked for, and no other.
pub increment-get_clocks :
    (env : Env) (paths asked : List Bytes) (s : State) (p : Bytes)
    → let s' = (increment env paths s).0 in
      (clock s'.clocks p ≡ clock s.clocks p + occurrences p paths)
      × (get p (get_clocks s' asked) ≡ (
          if ltb 0 (occurrences p asked)
          then some (clock s.clocks p + occurrences p paths)
          else none))
      × (s'.leases ≡ s.leases)
      × (s'.scopes ≡ s.scopes)
unfolding increment get_clocks get
increment-get_clocks env paths asked s p =
    let moved =
      log_event-clocks env (record s { clocks = bump_all paths s.clocks }) (file_clock_inc paths) in
    let counts = clock-bump_all paths s.clocks p in
    let kept =
      log_event-leases env (record s { clocks = bump_all paths s.clocks }) (file_clock_inc paths) in
    (
      rw moved counts,
      rw moved (get-get_onto asked (bump_all paths s.clocks) [] p ∙ ground (arith, counts)),
      kept.0,
      kept.1,
    )

pub get-get_clocks :
    (s : State) (asked : List Bytes) (p : Bytes)
    → get p (get_clocks s asked)
      ≡ (if ltb 0 (occurrences p asked) then some (clock s.clocks p) else none)
unfolding get_clocks get
get-get_clocks s asked p = get-get_onto asked s.clocks [] p
