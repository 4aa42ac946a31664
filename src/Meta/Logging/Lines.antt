-- ===== src/Meta/Logging/Lines.antt =====
-- The line that the interceptor of internal/delivery/grpc/interceptors/logging.go writes.
use otus_anti_bruteforce.Base.{
  Bool, true, false, List, [], ◌∷◌, ◌++◌, Option, none, some, Result, ok, err, Error, Exec, ◌≡◌,
  refl, ap, ◌∙◌, is_ok, if◌then◌else◌,
}
use otus_anti_bruteforce.Base.Text.{Bytes, codes, beq}
use otus_anti_bruteforce.Meta.{Context, Value, text, number, with_request_id, user_id, trace_id}
use otus_anti_bruteforce.Base.Int.{ℤ}
use mathlib.Core.Option
use otus_anti_bruteforce.Meta.Interceptor.{
  with_ctx, field, fields, chosen_id, handled_with_id, unary_request_id_interceptor,
  request_id_header,
}
use otus_anti_bruteforce.Meta.Logging.{
  Level, level_info, level_error, Slog, write_context, returned, CallInfo, call_fields, log_call,
  unary_logging_interceptor, chained,
}

abbrev level_of : {A : Type 0} → Result A → Level
level_of (ok a) = level_info
level_of (err e) = level_error

abbrev message_of : {A : Type 0} → Result A → Bytes
message_of (ok a) = codes "gRPC request handled"
message_of (err e) = codes "gRPC request failed"

abbrev details_of : {A : Type 0} → CallInfo → Bytes → Result A → List (Bytes × Value)
details_of info address (ok a) = call_fields info none address
details_of info address (err e) =
    call_fields info (some e) address ++ (codes "error", text (info.error_text e)) ∷ []

-- The value under a name among the fields of a line.
abbrev pub named : Bytes → List (Bytes × Value) → Option Value
named name [] = none
named name ((n, v) ∷ fs) = if beq n name then some v else named name fs

abbrev pub if_found : {A : Type 0} → (A → Value) → A × Bool → Option Value
if_found f (v, found) = if found then some (f v) else none

abbrev pub error_of : {A : Type 0} → Result A → Option Error
error_of (ok a) = none
error_of (err e) = some e

level_of-is_ok :
    {A : Type 0} (r : Result A) → level_of r ≡ (if is_ok r then level_info else level_error)
level_of-is_ok (ok a) = refl
level_of-is_ok (err e) = refl

module _ (id : Bytes) (user : ℤ × Bool) (trace : Bytes × Bool) where
  abbrev shown_fields : List (Bytes × Value)
  shown_fields =
      (codes "request_id", text id) ∷ field (codes "user_id") number user
      ++ field (codes "trace_id") text trace

  named_request : named (codes "request_id") shown_fields ≡ some (text id)
  unfolding beq
  named_request = refl

  named_user : named (codes "user_id") shown_fields ≡ if_found number user
  unfolding beq
  named_user = split user trace
    where
      split :
          (u : ℤ × Bool) (t : Bytes × Bool)
          → named
              (codes "user_id")
              (field (codes "user_id") number u ++ field (codes "trace_id") text t)
            ≡ if_found number u
      split (v, true) t = refl
      split (v, false) (w, true) = refl
      split (v, false) (w, false) = refl

  named_trace : named (codes "trace_id") shown_fields ≡ if_found text trace
  unfolding beq
  named_trace = split user trace
    where
      split :
          (u : ℤ × Bool) (t : Bytes × Bool)
          → named
              (codes "trace_id")
              (field (codes "user_id") number u ++ field (codes "trace_id") text t)
            ≡ if_found text t
      split (v, true) (w, true) = refl
      split (v, true) (w, false) = refl
      split (v, false) (w, true) = refl
      split (v, false) (w, false) = refl

module _ {A : Type 0} (info : CallInfo) (address : Bytes) where
  details-method :
      (r : Result A)
      → named (codes "method") (details_of info address r) ≡ some (text info.full_method)
  unfolding beq
  details-method (ok a) = refl
  details-method (err e) = refl

  details-code :
      (r : Result A)
      → named (codes "grpc_code") (details_of info address r)
        ≡ some (text (info.grpc_code (error_of r)))
  unfolding beq
  details-code (ok a) = refl
  details-code (err e) = refl

  details-error :
      (r : Result A)
      → named (codes "error") (details_of info address r)
        ≡ Option.map (λ e. text (info.error_text e)) (error_of r)
  unfolding beq
  details-error (ok a) = refl
  details-error (err e) = refl

with_ctx-fields :
    {L W S : Type 0} (slog : Slog L W S) (l : L) (ctx : Context) (f : Bytes × Value)
    (fs : List (Bytes × Value))
    → fields ctx ≡ f ∷ fs
    → with_ctx slog.default_logger slog.with_fields (some l) (some ctx)
      ≡ slog.with_fields l (fields ctx)
unfolding with_ctx
with_ctx-fields slog l ctx f fs e = rw (with_ctx, e) refl

module _ {L W S A : Type 0} (slog : Slog L W S) (l : L) (info : CallInfo) where
  log_call_lem :
      (ctx : Context) (r : Result A) (address : Bytes) (s : S)
      → log_call slog (some l) info ctx r address s
        ≡ write_context slog (level_of r) (some l) ctx (message_of r) (details_of info address r) s
  unfolding log_call
  log_call_lem ctx (ok a) address s = refl
  log_call_lem ctx (err e) address s = refl

  logged :
      (handler : Context → Exec S A) (ctx : Context) (s : S) (address : Bytes) (f : Bytes × Value)
      (fs : List (Bytes × Value))
      → info.peer_address ≡ some address
      → fields ctx ≡ f ∷ fs
      → let (r, s') = handler ctx s in
        unary_logging_interceptor slog (some l) info handler ctx s ≡ (
          returned r,
          slog.write
              (slog.with_fields l (fields ctx))
              (level_of r)
              (message_of r)
              (details_of info address r)
              s',
        )
  unfolding unary_logging_interceptor write_context
  logged handler ctx s address f fs peer e =
      rw (unary_logging_interceptor, peer, log_call_lem)
        (rw (write_context, with_ctx-fields slog l ctx f fs e) refl)

  -- If the fresh id is not empty and the peer of the call is known: the chain of the two
  -- interceptors returns what the handler returned for the context with the id, and writes one line
  -- after it, at the level error just if the handler failed and otherwise at the level info. The
  -- logger of the line names the id as `request_id`, the user and the trace as `user_id` and
  -- `trace_id` if the context has them and else not; the line names the method, the code of the
  -- error or of its absence as `grpc_code`, and the text of the error as `error` just if the
  -- handler failed.
  pub chained-returned :
      (set_header : Bytes → Bytes → S → S) (incoming : Option (Bytes → List Bytes)) (fresh : Bytes)
      (handler : Context → Exec S A) (ctx : Context) (s : S) (address : Bytes)
      → beq fresh [] ≡ false
      → info.peer_address ≡ some address
      → let id = chosen_id incoming fresh in
        let (r, s') = handler (with_request_id ctx id) (set_header request_id_header id s) in
        (names : List (Bytes × Value)) × (msg : Bytes) × (details : List (Bytes × Value)) × (chained
            set_header incoming fresh slog
            (some l)
            info
            handler
            ctx
            s
          ≡ (
            returned r,
            slog.write
                (slog.with_fields l names)
                (if is_ok r then level_info else level_error)
                msg
                details
                s',
          ))
        × (named (codes "request_id") names ≡ some (text id))
        × (named (codes "user_id") names ≡ if_found number (user_id ctx))
        × (named (codes "trace_id") names ≡ if_found text (trace_id ctx))
        × (named (codes "method") details ≡ some (text info.full_method))
        × (named (codes "grpc_code") details ≡ some (text (info.grpc_code (error_of r))))
        × (named (codes "error") details ≡ Option.map (λ e. text (info.error_text e)) (error_of r))
  unfolding unary_request_id_interceptor
  chained-returned set_header incoming fresh handler ctx s address not_empty peer =
      let (_, _, _, _, shown) = handled_with_id set_header incoming fresh handler ctx s not_empty in
      let id = chosen_id incoming fresh in
      let result = (handler (with_request_id ctx id) (set_header request_id_header id s)).0 in
      (
        fields (with_request_id ctx id),
        message_of result,
        details_of info address result,
        logged handler _ _ address _ _ peer shown ∙ rw (level_of-is_ok result) refl,
        ap (named (codes "request_id")) shown ∙ named_request id (user_id ctx) (trace_id ctx),
        ap (named (codes "user_id")) shown ∙ named_user id (user_id ctx) (trace_id ctx),
        ap (named (codes "trace_id")) shown ∙ named_trace id (user_id ctx) (trace_id ctx),
        details-method info address result,
        details-code info address result,
        details-error info address result,
      )
