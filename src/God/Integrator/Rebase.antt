-- ===== src/God/Integrator/Rebase.antt =====
-- god/integrator.go: `rebaseAnchors`. Its errors are constructors.
use genesis_ssmp.Base.{
  ℕ, suc, Bool, true, false, Option, none, some, List, [], ◌∷◌, if◌then◌else◌, length, Bytes, Dict,
  get, put, ℤ, pos, ltℤ, Result, ok, err, ◌>>=◌,
}
use genesis_ssmp.God.Edit.{
  OpKind, replace_span, delete_span, insert_after_symbol, add_file, EditOp, Disk, Host, EditError,
  read_file_lines, compute_anchor_hash, find_symbol,
}

pub data RebaseError : Type 0 where
  read_error : Bytes → RebaseError
  bad_lines : ℕ → RebaseError
  line_past_end : ℕ → RebaseError
  no_symbol : Bytes → RebaseError

abbrev pub lines_or : {A : Type 0} → RebaseError → Result EditError A → Result RebaseError A
lines_or e (ok a) = ok a
lines_or e (err _) = err e

-- The anchor of a span that is named by its lines, for the operation at index `i`.
abbrev pub span_anchor : Host → ℕ → List Bytes → List ℤ → Result RebaseError Bytes
span_anchor host i lines (s ∷ e ∷ []) =
    if ltℤ (pos (length lines)) e
    then err (line_past_end i)
    else ok (compute_anchor_hash host lines s e)
span_anchor host i lines _ = err (bad_lines i)

abbrev pub symbol_anchor : Host → Bytes → List Bytes → Result RebaseError Bytes
symbol_anchor host symbol lines = elim (find_symbol symbol 0 lines) [
  | none ↦ err (no_symbol symbol)
  | some j ↦ ok (compute_anchor_hash host lines (pos (suc j)) (pos (suc j)))
]

-- The switch of `rebaseAnchors`.
unfoldable pub rebase_op : Host → ℕ → List Bytes → EditOp → Result RebaseError EditOp
rebase_op host i lines op = elim op.op [
  | replace_span ↦ span_anchor host i lines op.lines >>= λ a. ok (record op { anchor_hash = a })
  | delete_span ↦ span_anchor host i lines op.lines >>= λ a. ok (record op { anchor_hash = a })
  | insert_after_symbol ↦
      symbol_anchor host op.symbol lines >>= λ a. ok (record op { anchor_hash = a })
  | _ ↦ ok op
]

abbrev pub is_add_file : OpKind → Bool
is_add_file add_file = true
is_add_file _ = false

-- The lines of a file, from the cache or from the disk.
abbrev pub cached_lines :
    Host → Disk → Bytes → Option (List Bytes) → Result RebaseError (List Bytes)
cached_lines host disk path none =
    lines_or (read_error path) (read_file_lines disk (host.abs_path path))
cached_lines host disk path (some lines) = ok lines

-- The loop of `rebaseAnchors` from index `i` on, with its cache. A file that the cache holds is put
-- there again, as it is.
unfoldable pub rebase_from :
    Host → Disk → ℕ → List EditOp → Dict (List Bytes) → Result RebaseError (List EditOp)
unfolding rebase_op
rebase_from host disk i [] cache = ok []
rebase_from host disk i (op ∷ ops) cache = elim (is_add_file op.op) [
  | true ↦ rebase_from host disk (suc i) ops cache >>= λ rest. ok (op ∷ rest)
  | false ↦ cached_lines host disk op.path (get op.path cache) >>= λ lines.
      rebase_op host i lines op >>= λ op'.
      rebase_from host disk (suc i) ops (put op.path lines cache) >>= λ rest. ok (op' ∷ rest)
]

-- `rebaseAnchors`
unfoldable pub rebase_anchors : Host → Disk → List EditOp → Result RebaseError (List EditOp)
unfolding rebase_from
rebase_anchors host disk ops = rebase_from host disk 0 ops []
