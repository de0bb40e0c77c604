-- ===== src/God/Planner/Buckets.antt =====
-- god/planner.go: the symbols of a plan and their buckets.
use genesis_ssmp.Base.{
  ℕ, Bool, true, false, ◌||◌, Option, none, some, List, [], ◌∷◌, ◌++◌, ltb, if◌then◌else◌, ◌==◌,
  length, Bytes, bytes, is_empty, same, Dict, get, put,
}
use genesis_ssmp.God.Missions.{Scope}
use genesis_ssmp.God.Planner.{is_among}

-- `SymbolResult`
pub record Symbol : Type 0 where
  pub id : ℕ
  pub name : Bytes
  pub kind : Bytes
  pub path : Bytes
  pub start_byte : ℕ
  pub end_byte : ℕ
  pub start_line : ℕ
  pub end_line : ℕ

abbrev pub is_seen : ℕ → List ℕ → Bool
is_seen id [] = false
is_seen id (i ∷ is) = i == id || is_seen id is

-- The inner loop of `gatherSymbols`: the identifiers seen so far, and the symbols that are new.
unfoldable pub fresh_symbols : List ℕ → List Symbol → List ℕ × List Symbol
fresh_symbols seen [] = (seen, [])
fresh_symbols seen (s ∷ ss) = elim (is_seen s.id seen) [
  | true ↦ fresh_symbols seen ss
  | false ↦ let (seen', rest) = fresh_symbols (s.id ∷ seen) ss in (seen', s ∷ rest)
]

abbrev pub found_symbols : Option (List Symbol) → List Symbol
found_symbols none = []
found_symbols (some ss) = ss

-- `gatherSymbols`; `search` is the answer of the server to a keyword, and `none` its error.
unfoldable pub gather_symbols : (Bytes → Option (List Symbol)) → List ℕ → List Bytes → List Symbol
unfolding fresh_symbols
gather_symbols search seen [] = []
gather_symbols search seen (kw ∷ kws) =
    let (seen', symbols) = fresh_symbols seen (found_symbols (search kw)) in
    symbols ++ gather_symbols search seen' kws

abbrev pub Buckets : Type 0
Buckets = Dict (List Symbol)

abbrev pub symbols_at : Option (List Symbol) → List Symbol
symbols_at none = []
symbols_at (some ss) = ss

-- `m[k] = append(m[k], symbols...)`
unfoldable pub append_at : Bytes → List Symbol → Buckets → Buckets
append_at k symbols m = put k (symbols_at (get k m) ++ symbols) m

-- `filepath.Base(filepath.Dir(path))` is a parameter.
abbrev pub bucket_name : Bytes → Bytes
bucket_name base = if same base (bytes ".") || is_empty base then bytes "root" else base

-- The first loop of `groupByBucket`.
unfoldable pub dir_map : (Bytes → Bytes) → Buckets → List Symbol → Buckets
unfolding append_at
dir_map dir_base m [] = m
dir_map dir_base m (s ∷ ss) =
    dir_map dir_base (append_at (bucket_name (dir_base s.path)) (s ∷ []) m) ss

-- The loop over the sorted entries, from the third on.
unfoldable pub merge_misc : Buckets → Buckets → Buckets
unfolding append_at
merge_misc m [] = m
merge_misc m ((name, symbols) ∷ entries) = merge_misc (append_at (bytes "misc") symbols m) entries

-- The loop over the sorted entries.
unfoldable pub merged : Buckets → Buckets
unfolding merge_misc
merged [] = []
merged ((a, xs) ∷ []) = put a xs []
merged ((a, xs) ∷ (b, ys) ∷ entries) = merge_misc (put b ys (put a xs [])) entries

-- `groupByBucket`; `largest_first` is the order of the Go map, sorted.
unfoldable pub group_by_bucket : (Bytes → Bytes) → (Buckets → Buckets) → List Symbol → Buckets
unfolding dir_map merged
group_by_bucket dir_base largest_first symbols =
    let m = dir_map dir_base [] symbols in if ltb 3 (length m) then merged (largest_first m) else m

-- `scopeTypeFor`
abbrev pub scope_type_for : Bytes → Bytes
scope_type_for kind = bytes "symbol"

-- The loop over the symbols of a bucket.
unfoldable pub scopes_from : List Bytes → List Symbol → List Scope
unfolding is_among
scopes_from seen [] = []
scopes_from seen (s ∷ ss) =
    let key = s.kind ++ (b':' ∷ s.name) in
    elim (is_among key seen) [
      | true ↦ scopes_from seen ss
      | false ↦
          record { scope_type = scope_type_for s.kind; scope_value = s.name }
          ∷ scopes_from (key ∷ seen) ss
    ]
