-- ===== src/Heaven/FileClock.antt =====
-- heaven/fileclock.go. The counters are far below 2^63, so `int64` is ℕ here.
pub mod Counting
use genesis_ssmp.Base.{
  ℕ, suc, ◌+◌, ◌≡◌, Bool, Option, none, some, List, [], ◌∷◌, Bytes, same, Dict, get, put,
}
use genesis_ssmp.Heaven.State.{Event, file_clock_inc, Env, State, log_event}

abbrev pub or_zero : Option ℕ → ℕ
or_zero none = 0
or_zero (some n) = n

-- `fc.clocks[p]`
unfoldable pub clock : Dict ℕ → Bytes → ℕ
clock clocks p = or_zero (get p clocks)

-- `for _, p := range paths { fc.clocks[p]++ }`
unfoldable pub bump_all : List Bytes → Dict ℕ → Dict ℕ
bump_all [] clocks = clocks
bump_all (p ∷ ps) clocks = bump_all ps (put p (suc (or_zero (get p clocks))) clocks)

-- `Increment`; the second component is false when the error of the log is returned.
unfoldable pub increment : Env → List Bytes → State → State × Bool
unfolding bump_all
increment env paths s =
    log_event env (file_clock_inc paths) (record s { clocks = bump_all paths s.clocks })

-- The loop of `Get`, with the result so far.
unfoldable pub get_onto : Dict ℕ → Dict ℕ → List Bytes → Dict ℕ
unfolding clock
get_onto result clocks [] = result
get_onto result clocks (p ∷ ps) = get_onto (put p (clock clocks p) result) clocks ps

-- `Get`
unfoldable pub get_clocks : State → List Bytes → Dict ℕ
unfolding get_onto
get_clocks s paths = get_onto [] s.clocks paths

-- `Summary`
unfoldable pub summary : State → Dict ℕ
summary s = s.clocks

-- One event of `replayEvents`.
unfoldable pub replay_clock : Option Event → Dict ℕ → Dict ℕ
unfolding bump_all
replay_clock (some (file_clock_inc paths)) clocks = bump_all paths clocks
replay_clock _ clocks = clocks

unfoldable pub replay_clocks : Env → List Bytes → Dict ℕ → Dict ℕ
unfolding replay_clock
replay_clocks env [] clocks = clocks
replay_clocks env (raw ∷ raws) clocks =
    replay_clocks env raws (replay_clock (env.unmarshal raw) clocks)

-- `NewFileClock` over what `events.All()` returns; `none` is its error.
unfoldable pub new_file_clock : Env → Option (List Bytes) → State → Option State
unfolding replay_clocks
new_file_clock env none s = none
new_file_clock env (some raws) s = some (record s { clocks = replay_clocks env raws [] })
