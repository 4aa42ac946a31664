-- ===== src/Meta/Interceptor.antt =====
-- internal/delivery/grpc/interceptors/requestid.go, and the fields that internal/logger/logger.go
-- takes from a context: every handled request has an id, in its context, in the log and in the
-- headers of its reply.
use otus_anti_bruteforce.Base.{
  Bool, true, false, List, [], ◌∷◌, ◌++◌, Option, none, some, Exec, ◌≡◌, refl, if◌then◌else◌, arith,
}
use otus_anti_bruteforce.Base.Text.{Bytes, codes, beq}
use otus_anti_bruteforce.Meta.{
  Context, Value, text, number, value, with_request_id, request_id, user_id, trace_id,
}

abbrev pub request_id_header : Bytes
request_id_header = codes "x-request-id"

-- `vals[0]` of the header, if there is one that is not empty
abbrev pub id_of_values : List Bytes → Bytes
id_of_values [] = []
id_of_values (v ∷ vals) = v

-- `incoming` is `metadata.FromIncomingContext` with its method `Get`, `fresh` is `uuid.NewString()`.
unfoldable pub chosen_id : Option (Bytes → List Bytes) → Bytes → Bytes
chosen_id incoming fresh =
    let rid : Bytes = elim incoming [
      | none ↦ []
      | some get ↦ id_of_values (get request_id_header)
    ] in
    if beq rid [] then fresh else rid

-- `set_header` is `grpc.SetHeader`, whose error is dropped.
unfoldable pub unary_request_id_interceptor :
    {S A : Type 0}
    → (Bytes → Bytes → S → S)
    → Option (Bytes → List Bytes)
    → Bytes
    → (Context → S → A)
    → Context
    → S
    → A
unary_request_id_interceptor set_header incoming fresh handler ctx s =
    let rid = chosen_id incoming fresh in
    handler (with_request_id ctx rid) (set_header request_id_header rid s)

-- the loop-free part of `withCtx`: the fields of a log line
abbrev pub field : {A : Type 0} → Bytes → (A → Value) → A × Bool → List (Bytes × Value)
field name f (v, found) = if found then (name, f v) ∷ [] else []

unfoldable pub fields : Context → List (Bytes × Value)
fields ctx =
    field (codes "request_id") text (request_id ctx)
    ++ field (codes "user_id") number (user_id ctx)
    ++ field (codes "trace_id") text (trace_id ctx)

-- `default` is `slog.Default()`, and `with` is the method `With`; the logger and the context are
-- pointers that may be nil.
unfoldable pub with_ctx :
    {L : Type 0} → L → (L → List (Bytes × Value) → L) → Option L → Option Context → L
with_ctx default with none ctx = default
with_ctx default with (some l) none = l
with_ctx default with (some l) (some ctx) = elim (fields ctx) [ [] ↦ l | f ∷ fs ↦ with l (f ∷ fs) ]

pub chosen_id_some :
    (incoming : Option (Bytes → List Bytes)) (fresh : Bytes)
    → beq fresh [] ≡ false
    → beq (chosen_id incoming fresh) [] ≡ false
unfolding chosen_id beq
chosen_id_some none fresh h = h
chosen_id_some (some get) fresh h = ground arith

-- If the fresh id is not empty: the interceptor calls the handler with a context that has the id of
-- the header of the request, or the fresh one if the header is missing or empty, and else what it
-- had, after it has set that id in the header of the reply; a log line with that context names the
-- id first.
pub handled_with_id :
    {S A : Type 0} (set_header : Bytes → Bytes → S → S) (incoming : Option (Bytes → List Bytes))
    (fresh : Bytes) (handler : Context → Exec S A) (ctx : Context) (s : S)
    → beq fresh [] ≡ false
    → let ctx' = with_request_id ctx (chosen_id incoming fresh) in
      (unary_request_id_interceptor set_header incoming fresh handler ctx s
        ≡ handler ctx' (set_header request_id_header (chosen_id incoming fresh) s))
      × (request_id ctx' ≡ (chosen_id incoming fresh, true))
      × (user_id ctx' ≡ user_id ctx)
      × (trace_id ctx' ≡ trace_id ctx)
      × (fields ctx'
          ≡ (codes "request_id", text (chosen_id incoming fresh))
              ∷ field (codes "user_id") number (user_id ctx)
            ++ field (codes "trace_id") text (trace_id ctx))
unfolding unary_request_id_interceptor fields request_id user_id trace_id value
handled_with_id set_header incoming fresh handler ctx s h = (
  refl,
  rw (chosen_id_some incoming fresh h) refl,
  refl,
  refl,
  rw (chosen_id_some incoming fresh h) refl,
)
