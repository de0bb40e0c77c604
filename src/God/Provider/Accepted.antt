-- ===== src/God/Provider/Accepted.antt =====
-- god/provider.go: what `Execute` lets through, and what it reports of its attempts.
use genesis_ssmp.Base.{
  length, ℤ, ℕ, zero, suc, ◌+◌, ◌≤◌, ◌≡◌, ◌≢◌, refl, ap, subst, ◌∙◌, inl, inr, Bool, true, false,
  not, Option, none, some, List, [], ◌∷◌, ◌++◌, arith, if◌then◌else◌, Bytes, bytes, is_empty, same,
  same_iff, Bool-cases, Result, ok, err, ◌>>=◌, ◌>>◌, >>=-eq-ok, Ensures, of_ok, of_err,
  Ensures->>=, Ensures-ok, fail_if-ok,
}
use genesis_ssmp.God.Edit.{EditOp, Host, replace_span, insert_after_symbol}
use genesis_ssmp.God.MacroOps.{
  MacroOpKind, MacroOp, MacroError, rename_symbol, add_param, insert_import, add_test_case,
  add_function_stub, macro_span, unknown_macro, macro_anchor, expand_macro, expand_macro_ops,
  validate_macro_op, or_star, edit_op,
}
use genesis_ssmp.God.Provider.{
  new_usage, give_up, on_reply, on_answer, Retry, send_failed, MissionPack, Reply, ReplyError,
  ProviderUsage, ProviderHost, ProviderError, Executed, validate_edit_op, validate_edit_ops,
  validate_macro_ops, as_reply_error, edit_ir_valid, macro_ops_valid, is_nil_list, validate_output,
  validate_reply, read_reply, slice_of, expanded, finished, attempts, execute, build_repair_pack,
}

-- The operations of the Edit IR, where the reply is one.
abbrev pub edit_ops_of : Option (Option (List EditOp)) → List EditOp
edit_ops_of (some (some ops)) = ops
edit_ops_of _ = []

abbrev pub is_ok : Result ProviderError Reply → Bool
is_ok (ok _) = true
is_ok (err _) = false

abbrev pub ops_in : Reply → List EditOp
ops_in r = if same r.output_type (bytes "edit_ir") then edit_ops_of r.edit_ir else []

-- A reply to the mission, of an output type that is not that of macros, whose operations are valid and
-- whose manifest is given.
abbrev pub IsAccepted : Bytes → Reply → Type 0
IsAccepted id r =
    (r.mission_id ≡ id)
    × (same r.output_type (bytes "macro_ops") ≡ false)
    × (validate_edit_ops (ops_in r) ≡ ok tt)
    × (is_nil_list r.symbols_touched ≡ false)
    × (is_nil_list r.files_touched ≡ false)

>>-ok : (m k : Result ReplyError (Unit {0})) → m ≡ ok tt → k ≡ ok tt → (m >> k) ≡ ok tt
unfolding ◌>>=◌
>>-ok (ok t) k h q = q
>>-ok (err e) k h q = absurd (ground arith)

validate_edit_ops-append :
    (xs ys : List EditOp)
    → validate_edit_ops xs ≡ ok tt
    → validate_edit_ops ys ≡ ok tt
    → validate_edit_ops (xs ++ ys) ≡ ok tt
unfolding validate_edit_ops
validate_edit_ops-append [] ys h k = k
validate_edit_ops-append (x ∷ xs) ys h k =
    let (t, e, f) = >>=-eq-ok (validate_edit_op x) (λ _. validate_edit_ops xs) h in
    >>-ok (validate_edit_op x) (validate_edit_ops (xs ++ ys)) e (validate_edit_ops-append xs ys f k)

-- The anchor of a macro is not empty.
replace_span-valid :
    (host : Host) (path content symbol : Bytes) (parts : List Bytes) (lines : List ℤ)
    → is_empty path ≡ false
    → validate_edit_ops
        (edit_op replace_span path (macro_anchor host parts) lines content symbol ∷ [])
      ≡ ok tt
unfolding validate_edit_ops validate_edit_op macro_anchor ◌>>=◌
replace_span-valid host path content symbol parts lines h = rw (h, ◌>>=◌) refl

insert_after_symbol-valid :
    (host : Host) (path content symbol : Bytes) (parts : List Bytes)
    → is_empty path ≡ false
    → validate_edit_ops
        (edit_op insert_after_symbol path (macro_anchor host parts) [] content symbol ∷ [])
      ≡ ok tt
unfolding validate_edit_ops validate_edit_op macro_anchor ◌>>=◌
insert_after_symbol-valid host path content symbol parts h = rw (h, ◌>>=◌) refl

or_star-some : (path : Bytes) → is_empty (or_star path) ≡ false
or_star-some [] = refl
or_star-some (c ∷ path) = refl

-- The macros that have no default for their path.
abbrev has_path : MacroOpKind → Bool
has_path insert_import = true
has_path add_function_stub = true
has_path macro_span = true
has_path _ = false

no_path :
    (m : MacroOp) (kind : MacroOpKind)
    → m.kind ≡ kind
    → has_path kind ≡ true
    → is_empty m.path ≡ true
    → validate_macro_op m ≢ ok tt
unfolding validate_macro_op ◌>>=◌
no_path m insert_import q k f = rw (q, f, validate_macro_op, ◌>>=◌) (ground arith)
no_path m add_function_stub q k f = rw (q, f, validate_macro_op, ◌>>=◌) (ground arith)
no_path m macro_span q k f = rw (q, f, validate_macro_op, ◌>>=◌) (ground arith)
no_path m rename_symbol q k f = absurd (ground arith)
no_path m add_param q k f = absurd (ground arith)
no_path m add_test_case q k f = absurd (ground arith)
no_path m (unknown_macro name) q k f = absurd (ground arith)

path_given :
    (m : MacroOp) → has_path m.kind ≡ true → validate_macro_op m ≡ ok tt → is_empty m.path ≡ false
path_given m k h = elim (Bool-cases (is_empty m.path)) [
  | inl f ↦ absurd (no_path m m.kind refl k f h)
  | inr f ↦ f
]

expand_macro-valid :
    (host : Host) (m : MacroOp)
    → validate_macro_op m ≡ ok tt
    → Ensures (λ ops. validate_edit_ops ops ≡ ok tt) (expand_macro host m)
unfolding expand_macro validate_macro_op
expand_macro-valid host m h = go m.kind refl
  where
    go :
        (kind : MacroOpKind)
        → m.kind ≡ kind
        → Ensures (λ ops. validate_edit_ops ops ≡ ok tt) (expand_macro host m)
    go rename_symbol q =
        rw (q, expand_macro)
          (of_ok (replace_span-valid host _ m.new_name m.old_name _ [] (or_star-some m.scope_path)))
    go add_param q =
        rw (q, expand_macro)
          (of_ok (
            insert_after_symbol-valid host _ (m.param_name ++ (32 ∷ m.param_type)) m.func_name _
              (or_star-some m.path)))
    go insert_import q =
        rw (q, expand_macro)
          (of_ok (
            insert_after_symbol-valid host _ m.import_spec (bytes "import") _
              (path_given m (ground (arith, q)) h)))
    go add_test_case q =
        rw (q, expand_macro)
          (of_ok (insert_after_symbol-valid host _ m.case_body m.test_func _ (or_star-some m.path)))
    go add_function_stub q =
        rw (q, expand_macro)
          (of_ok
            (insert_after_symbol-valid host _ m.func_sig [] _ (path_given m (ground (arith, q)) h)))
    go macro_span q =
        rw (q, expand_macro)
          (of_ok (
            replace_span-valid host _ m.content [] _ (m.start_line ∷ m.end_line ∷ [])
              (path_given m (ground (arith, q)) h)))
    go (unknown_macro name) q = rw (q, expand_macro) of_err

nothing_valid : validate_edit_ops [] ≡ ok tt
unfolding validate_edit_ops
nothing_valid = refl

as_reply_error-ok :
    (m : Result MacroError (Unit {0})) {t : Unit {0}} → as_reply_error m ≡ ok t → m ≡ ok tt
as_reply_error-ok (ok t) h = refl
as_reply_error-ok (err e) h = absurd (ground arith)

expand_macro_ops-valid :
    (host : Host) (ms : List MacroOp) (ops : List EditOp)
    → validate_macro_ops ms ≡ ok tt
    → expand_macro_ops host ms ≡ ok ops
    → validate_edit_ops ops ≡ ok tt
unfolding expand_macro_ops validate_macro_ops
expand_macro_ops-valid host [] ops h e =
    subst (λ xs. validate_edit_ops xs ≡ ok tt) (ground arith) nothing_valid
expand_macro_ops-valid host (m ∷ ms) ops h e =
    let (t, h1, h2) =
      >>=-eq-ok (as_reply_error (validate_macro_op m)) (λ _. validate_macro_ops ms) h in
    let (first, e1, f1) = >>=-eq-ok (expand_macro host m) _ e in
    let (rest, e2, f2) = >>=-eq-ok (expand_macro_ops host ms) _ f1 in
    subst (λ xs. validate_edit_ops xs ≡ ok tt) (ground (arith, f2))
      (validate_edit_ops-append first rest
        (Ensures-ok (expand_macro-valid host m (as_reply_error-ok (validate_macro_op m) h1)) e1)
        (expand_macro_ops-valid host ms rest h2 e2))

-- A reply that `validateAngelResponse` accepts.
abbrev IsValid : Bytes → Reply → Type 0
IsValid id r =
    (r.mission_id ≡ id)
    × (validate_output r ≡ ok tt)
    × (is_nil_list r.symbols_touched ≡ false)
    × (is_nil_list r.files_touched ≡ false)

validate_reply-IsValid :
    (id : Bytes) (r : Reply) (t : Unit {0}) → validate_reply id r ≡ ok t → IsValid id r
unfolding validate_reply
validate_reply-IsValid id r t h =
    let (t4, h4, f4) = >>=-eq-ok _ _ h in
    let (t3, h3, f3) = >>=-eq-ok _ _ h4 in
    let (t2, h2, f2) = >>=-eq-ok _ _ h3 in
    let (t1, h1, f1) = >>=-eq-ok _ _ h2 in
    let same_id = fail_if-ok (not (same r.mission_id id)) _ f1 in
    (ground (arith, same_id, same_iff r.mission_id id), f2, fail_if-ok _ _ f3, fail_if-ok _ _ f4)

read_reply-IsValid :
    (host : ProviderHost) (id raw : Bytes) → Ensures (IsValid id) (read_reply host id raw)
unfolding read_reply
read_reply-IsValid host id raw = go (host.unmarshal raw) refl
  where
    go : (o : Option Reply) → host.unmarshal raw ≡ o → Ensures (IsValid id) (read_reply host id raw)
    go none q = rw (q, read_reply) of_err
    go (some r) q = rw (q, read_reply) (Ensures->>= λ t k. of_ok (validate_reply-IsValid id r t k))

edit_ir_valid-ok :
    (o : Option (Option (List EditOp)))
    → edit_ir_valid o ≡ ok tt
    → validate_edit_ops (edit_ops_of o) ≡ ok tt
edit_ir_valid-ok none h = nothing_valid
edit_ir_valid-ok (some none) h = nothing_valid
edit_ir_valid-ok (some (some ops)) h = h

pub slice_of-lem : (ops : List EditOp) → edit_ops_of (some (slice_of ops)) ≡ ops
slice_of-lem [] = refl
slice_of-lem (op ∷ ops) = refl

-- A valid reply whose macros are expanded.
macro_reply-IsAccepted :
    (host : ProviderHost) (id : Bytes) (r : Reply) (o : Option (Option (List MacroOp)))
    → IsValid id r
    → same r.output_type (bytes "macro_ops") ≡ true
    → r.macro_ops ≡ o
    → macro_ops_valid o ≡ ok tt
    → Ensures (IsAccepted id) (expanded host r)
unfolding expanded same
macro_reply-IsAccepted host id r none valid e q h = absurd (ground arith)
macro_reply-IsAccepted host id r (some none) valid e q h = absurd (ground arith)
macro_reply-IsAccepted host id r (some (some ms)) (same_id, v, symbols, files) e q h =
    go (expand_macro_ops host.files ms) refl
  where
    go :
        (x : Result MacroError (List EditOp))
        → expand_macro_ops host.files ms ≡ x
        → Ensures (IsAccepted id) (expanded host r)
    go (err f) k = rw (e, q, k, expanded) of_err
    go (ok ops) k =
        rw (e, q, k, expanded)
          (of_ok (
            same_id,
            refl,
            ap validate_edit_ops (slice_of-lem ops) ∙ expand_macro_ops-valid host.files ms ops h k,
            symbols,
            files,
          ))

edit_ir_is_other :
    (t : Bytes) → same t (bytes "edit_ir") ≡ true → same t (bytes "macro_ops") ≡ false
unfolding same
edit_ir_is_other t e = ap (λ x. same x (bytes "macro_ops")) ((same_iff t (bytes "edit_ir")).0 e)

expanded-IsAccepted :
    (host : ProviderHost) (id : Bytes) (r : Reply)
    → IsValid id r
    → Ensures (IsAccepted id) (expanded host r)
unfolding expanded validate_output
expanded-IsAccepted host id r (h, v, s, f) =
    elim (Bool-cases (same r.output_type (bytes "edit_ir"))) [
      | inl e ↦
          let other : same r.output_type (bytes "macro_ops") ≡ false =
            edit_ir_is_other r.output_type e in
          let valid = edit_ir_valid-ok r.edit_ir (ground (arith, v, e)) in
          rw (other, expanded) (of_ok (h, other, rw e valid, s, f))
      | inr e ↦ elim (Bool-cases (same r.output_type (bytes "macro_ops"))) [
        | inl m ↦
            macro_reply-IsAccepted host id r r.macro_ops (h, v, s, f) m refl
              (ground (arith, v, e, m))
        | inr m ↦ rw (m, expanded) (of_ok (h, m, rw e nothing_valid, s, f))
      ]
    ]

-- What the loop guarantees of an answer.
abbrev IsExecuted : Bytes → ℕ → Executed → Type 0
IsExecuted id bound x =
    Ensures (IsAccepted id) x.1 × (x.0.retries ≤ bound) × (x.0.success ≡ is_ok x.1)

finished-IsExecuted :
    (host : ProviderHost) (id : Bytes) (bound : ℕ) (u : ProviderUsage)
    (r : Result ProviderError Reply)
    → u.retries ≤ bound
    → u.success ≡ false
    → Ensures (IsAccepted id) r
    → IsExecuted id bound (finished host u r)
finished-IsExecuted host id bound u (ok r) below unset e = (e, below, refl)
finished-IsExecuted host id bound u (err x) below unset e = (e, below, unset)

on_reply-IsExecuted :
    (host : ProviderHost) (id : Bytes) (bound : ℕ) (u : ProviderUsage) (retry : Retry) (raw : Bytes)
    (x : Result ReplyError Reply)
    → u.retries ≤ bound
    → u.success ≡ false
    → Ensures (IsValid id) x
    → ((e : ReplyError) → IsExecuted id bound (retry raw e u))
    → IsExecuted id bound (on_reply host u retry raw x)
on_reply-IsExecuted host id bound u retry raw (ok r) below unset valid h =
    finished-IsExecuted host id bound u (expanded host r) below unset
      (expanded-IsAccepted host id r (Ensures-ok valid refl))
on_reply-IsExecuted host id bound u retry raw (err e) below unset valid h = h e

on_answer-IsExecuted :
    (host : ProviderHost) (id : Bytes) (bound : ℕ) (u : ProviderUsage) (retry : Retry)
    (o : Option Bytes)
    → u.retries ≤ bound
    → u.success ≡ false
    → ((raw : Bytes) (e : ReplyError)
        → IsExecuted id bound (retry raw e (record u { response_bytes = length raw })))
    → IsExecuted id bound (on_answer host id u retry o)
unfolding on_answer
on_answer-IsExecuted host id bound u retry none below unset h =
    finished-IsExecuted host id bound u (err send_failed) below unset of_err
on_answer-IsExecuted host id bound u retry (some raw) below unset h =
    on_reply-IsExecuted host id bound (record u { response_bytes = length raw }) retry raw
      (read_reply host id raw) below unset (read_reply-IsValid host id raw) (h raw)

attempts-IsExecuted :
    (host : ProviderHost) (left attempt bound : ℕ) (pack : MissionPack) (usage : ProviderUsage)
    → usage.retries + left ≤ bound
    → usage.success ≡ false
    → IsExecuted pack.mission.mission_id bound (attempts host left attempt pack usage)
unfolding attempts build_repair_pack
attempts-IsExecuted host zero attempt bound pack usage h k =
    let below : usage.retries ≤ bound = omega (arith, h) in
    on_answer-IsExecuted host pack.mission.mission_id bound usage (give_up host)
      (host.send attempt pack) below k (λ raw e. (of_err, below, k))
attempts-IsExecuted host (suc left) attempt bound pack usage h k =
    on_answer-IsExecuted host pack.mission.mission_id bound usage
      (λ raw e u.
        attempts host left (suc attempt) (build_repair_pack pack raw (host.error_text raw e))
          (record u { retries = suc u.retries }))
      (host.send attempt pack) (omega (arith, h)) k
      (λ raw e.
        attempts-IsExecuted host left (suc attempt) bound
          (build_repair_pack pack raw (host.error_text raw e))
          (record usage { response_bytes = length raw; retries = suc usage.retries })
          (omega (arith, h)) k)

-- What `Execute` returns, from the loop.
abbrev Outcome : Bytes → ℕ → Option ProviderUsage × Result ProviderError Reply → Type 0
Outcome id bound (none, r) = Ensures (IsAccepted id) r
Outcome id bound (some usage, r) = IsExecuted id bound (usage, r)

execute-Outcome :
    (host : ProviderHost) (max_retries : ℕ) (pack : MissionPack)
    → Outcome pack.mission.mission_id max_retries (execute host max_retries pack)
unfolding execute
execute-Outcome host max_retries pack = go (host.marshal pack) refl
  where
    go :
        (o : Option Bytes)
        → host.marshal pack ≡ o
        → Outcome pack.mission.mission_id max_retries (execute host max_retries pack)
    go none q = rw (q, execute) of_err
    go (some json) q =
        rw (q, execute)
          (attempts-IsExecuted host max_retries 0 max_retries pack
            (new_usage pack.mission.mission_id (length json)) (omega arith) refl)

-- The usage that `Execute` reports counts at most the configured retries, and it is marked as a
-- success exactly when there is no error.
pub execute-retries :
    (host : ProviderHost) (max_retries : ℕ) (pack : MissionPack) (usage : ProviderUsage)
    (r : Result ProviderError Reply)
    → execute host max_retries pack ≡ (some usage, r)
    → (usage.retries ≤ max_retries) × (usage.success ≡ is_ok r)
unfolding execute
execute-retries host max_retries pack usage r h =
    let (_, below, flag) =
      subst (Outcome pack.mission.mission_id max_retries) h
        (execute-Outcome host max_retries pack) in
    (below, flag)
