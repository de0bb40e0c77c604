-- ===== src/God/AngelAssembly/Served.antt =====
-- god/aa_compiler.go with heaven/pf.go: the requests of a compiled program are answered.
use genesis_ssmp.Base.{
  ltℤ, if◌then◌else◌, ℕ, zero, suc, ◌≡◌, refl, false, List, [], ◌∷◌, arith, All, Bytes, same,
  IsWord, ℤ, pos, negsuc, ok,
}
use genesis_ssmp.Heaven.Commands.{or_default}
use genesis_ssmp.Heaven.Router.{pf_tests, Command, command_of, pf_symdef, pf_callers, pf_slice}
use genesis_ssmp.God.AngelAssembly.{
  is_negative, Need, symdef, callers, slice, Program, parse_aa, is_not_positive,
}
use genesis_ssmp.God.AngelAssembly.Parsed.{IsNeed, parse_aa-IsProgram}
use genesis_ssmp.God.AngelAssembly.Compile.{
  ShardRequest, ShardRequestArgs, shard_request, shard_requests_of, compile_aa,
}

-- The command has the arguments that its handler asks for, and a slice is as long as it says.
abbrev pub HasArgs : Command → ShardRequestArgs → Type 0
HasArgs pf_symdef a = IsWord a.symbol
HasArgs pf_callers a = IsWord a.symbol
HasArgs pf_slice a = IsWord a.path × (pos (or_default a.n 20) ≡ a.n)
HasArgs pf_tests a = IsWord a.symbol
HasArgs _ a = ⊥

abbrev pub IsServable : Bytes → ShardRequest → Type 0
IsServable id r = HasArgs (command_of r.command) r.args × (r.args.mission_id ≡ id)

positive_stays : (n : ℤ) (d : ℕ) → is_not_positive n ≡ false → pos (or_default n d) ≡ n
unfolding or_default
positive_stays (pos zero) d h = absurd (ground arith)
positive_stays (pos (suc n)) d h = refl
positive_stays (negsuc n) d h = absurd (ground arith)

shard_request-IsServable :
    (id : Bytes) (need : Need) → IsNeed need → IsServable id (shard_request id need)
unfolding shard_request command_of same
shard_request-IsServable id (symdef symbol) h = (h, refl)
shard_request-IsServable id (callers symbol n) h = (h.0, refl)
shard_request-IsServable id (slice path start n) (p, s, h) = ((p, positive_stays n 20 h), refl)

pub shard_requests_of-IsServable :
    (id : Bytes) (needs : List Need)
    → All IsNeed needs
    → All (IsServable id) (shard_requests_of id needs)
unfolding shard_requests_of
shard_requests_of-IsServable id [] h = tt
shard_requests_of-IsServable id (need ∷ needs) (h, hs) =
    (shard_request-IsServable id need h, shard_requests_of-IsServable id needs hs)

-- The request for a need: the command of its kind, with its symbol or its path and its numbers; and the
-- router reads as many lines of a slice as it says.
abbrev pub IsRequestFor : Bytes → Need → ShardRequest → Type 0
IsRequestFor id (symdef symbol) r =
    (r.args.mission_id ≡ id)
    × (command_of r.command ≡ pf_symdef)
    × (r.args.symbol ≡ symbol)
    × IsWord symbol
IsRequestFor id (callers symbol n) r =
    (r.args.mission_id ≡ id)
    × (command_of r.command ≡ pf_callers)
    × (r.args.symbol ≡ symbol)
    × (r.args.top_k ≡ n)
    × IsWord symbol
IsRequestFor id (slice path start n) r =
    (r.args.mission_id ≡ id)
    × (command_of r.command ≡ pf_slice)
    × (r.args.path ≡ path)
    × (r.args.start_line ≡ start)
    × (r.args.n ≡ n)
    × (pos (or_default n 20) ≡ n)
    × IsWord path

-- One request for each need, in their order.
abbrev pub AllFor : Bytes → List Need → List ShardRequest → Type 0
AllFor id [] [] = Unit
AllFor id (need ∷ needs) (r ∷ rs) = IsRequestFor id need r × AllFor id needs rs
AllFor id _ _ = ⊥

not_negative-kept : (n : ℤ) → is_negative n ≡ false → (if ltℤ (pos 0) n then n else pos 0) ≡ n
not_negative-kept (pos zero) h = ground arith
not_negative-kept (pos (suc n)) h = ground arith
not_negative-kept (negsuc n) h = absurd (ground arith)

shard_request-IsRequestFor :
    (id : Bytes) (need : Need) → IsNeed need → IsRequestFor id need (shard_request id need)
unfolding shard_request command_of same
shard_request-IsRequestFor id (symdef symbol) h = (refl, refl, refl, h)
shard_request-IsRequestFor id (callers symbol n) h =
    (refl, refl, refl, not_negative-kept n h.1, h.0)
shard_request-IsRequestFor id (slice path start n) (p, s, h) =
    (refl, refl, refl, refl, refl, positive_stays n 20 h, p)

shard_requests_of-AllFor :
    (id : Bytes) (needs : List Need)
    → All IsNeed needs
    → AllFor id needs (shard_requests_of id needs)
unfolding shard_requests_of
shard_requests_of-AllFor id [] h = tt
shard_requests_of-AllFor id (need ∷ needs) (h, hs) =
    (shard_request-IsRequestFor id need h, shard_requests_of-AllFor id needs hs)

-- The prefetch requests that are compiled from a parsed program are one for each of its needs, in
-- their order: for the mission, with the command of the need's kind as the server's router reads
-- it, and with the need's symbol, which is not empty, and count of callers, or its path, which is
-- not empty, its start and its number of lines, which is the number that the router reads.
pub compile_aa-AllFor :
    (source now mission_id : Bytes) (p : Program)
    → parse_aa source ≡ ok p
    → AllFor mission_id p.needs (compile_aa now mission_id p).shard_requests
unfolding compile_aa
compile_aa-AllFor source now mission_id p h =
    shard_requests_of-AllFor mission_id p.needs (parse_aa-IsProgram source p h).0.1
