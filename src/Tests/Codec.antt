-- ===== src/Tests/Codec.antt =====
-- An environment for the tests: a codec for events that reads back what it writes, a disk that
-- takes every write, and identifiers that are numbers.
use genesis_ssmp.Base.{
  zero, suc, ◌≡◌, refl, ap, ◌∙◌, true, Option, none, some, List, [], ◌∷◌, ◌++◌, arith, map,
  append_assoc, append-nil, Bytes,
}
use genesis_ssmp.Heaven.State.{
  Event, lease_issued, lease_released, file_clock_inc, other_event, Env,
}
use genesis_ssmp.Heaven.Leases.Index.{Distinct}
use genesis_ssmp.Heaven.Leases.Replay.{IsReliable}

-- A field is its bytes, each one up, and a zero.
abbrev pub write_fields : List Bytes → Bytes
write_fields [] = []
write_fields (f ∷ fs) = map suc f ++ (0 ∷ write_fields fs)

abbrev pub read_fields : Bytes → Bytes → List Bytes
read_fields field [] = []
read_fields field (zero ∷ s) = field ∷ read_fields [] s
read_fields field (suc c ∷ s) = read_fields (field ++ (c ∷ [])) s

read_field :
    (f field rest : Bytes)
    → read_fields field (map suc f ++ (0 ∷ rest)) ≡ (field ++ f) ∷ read_fields [] rest
read_field [] field rest = ap (λ t. t ∷ read_fields [] rest) (rw append-nil)
read_field (c ∷ f) field rest =
    read_field f (field ++ (c ∷ [])) rest
    ∙ ap (λ t. t ∷ read_fields [] rest) (append_assoc field (c ∷ []) f)

read_fields-write_fields : (fs : List Bytes) → read_fields [] (write_fields fs) ≡ fs
read_fields-write_fields [] = refl
read_fields-write_fields (f ∷ fs) =
    read_field f [] (write_fields fs) ∙ ap (◌∷◌ f) (read_fields-write_fields fs)

abbrev pub write_event : Event → Bytes
write_event (lease_issued l) =
    0
    ∷ write_fields (
        l.lease_id ∷ l.owner_id ∷ l.mission_id ∷ l.scope_type ∷ l.scope_value ∷ l.issued_at
        ∷ l.expires_at ∷ [])
write_event (lease_released id) = 1 ∷ id
write_event (file_clock_inc ps) = 2 ∷ write_fields ps
write_event (other_event b) = 3 ∷ b

abbrev lease_of : List Bytes → Option Event
lease_of (a ∷ b ∷ c ∷ d ∷ e ∷ f ∷ g ∷ []) = some (
    lease_issued (record {
      lease_id = a;
      owner_id = b;
      mission_id = c;
      scope_type = d;
      scope_value = e;
      issued_at = f;
      expires_at = g;
    }))
lease_of _ = none

abbrev pub read_event : Bytes → Option Event
read_event (zero ∷ s) = lease_of (read_fields [] s)
read_event (suc zero ∷ s) = some (lease_released s)
read_event (suc (suc zero) ∷ s) = some (file_clock_inc (read_fields [] s))
read_event (suc (suc (suc zero)) ∷ s) = some (other_event s)
read_event _ = none

abbrev pub test_env : Env
test_env = record {
  marshal = write_event;
  unmarshal = read_event;
  generate = λ n. n ∷ [];
  valid = λ _. true;
  written = λ _ _. true;
}

read_event-write_event : (e : Event) → read_event (write_event e) ≡ some e
read_event-write_event (lease_issued l) = ap lease_of (
    read_fields-write_fields (
      l.lease_id ∷ l.owner_id ∷ l.mission_id ∷ l.scope_type ∷ l.scope_value ∷ l.issued_at
      ∷ l.expires_at ∷ []))
read_event-write_event (lease_released id) = refl
read_event-write_event (file_clock_inc ps) =
    ap (λ fs. some (file_clock_inc fs)) (read_fields-write_fields ps)
read_event-write_event (other_event b) = refl

pub test_env-IsReliable : IsReliable test_env
test_env-IsReliable = record { reads = read_event-write_event; writes = λ log raw. refl }

pub test_env-Distinct : Distinct test_env
test_env-Distinct m n e = ground arith
