-- ===== src/Meta/Logging.antt =====
-- internal/logger/logger.go, how a logger is made and how it writes, and
-- internal/delivery/grpc/interceptors/logging.go. The package slog is a parameter.
pub mod Lines
use otus_anti_bruteforce.Base.{
  Bool, true, false, List, [], ◌∷◌, ◌++◌, Option, none, some, Result, ok, err, Error, Exec, ◌≡◌,
  refl, ap, ◌∙◌, any, is_ok, if◌then◌else◌,
}
use otus_anti_bruteforce.Base.Text.{Bytes, codes, beq}
use otus_anti_bruteforce.Config.{LoggerConfig}
use otus_anti_bruteforce.Meta.{Context, Value, text, number, with_request_id, user_id, trace_id}
use otus_anti_bruteforce.Base.Int.{ℤ}
use mathlib.Core.Option
use otus_anti_bruteforce.Meta.Interceptor.{
  with_ctx, field, fields, chosen_id, handled_with_id, unary_request_id_interceptor,
  request_id_header,
}

-- slog's levels
pub data Level : Type 0 where
  level_debug level_info level_warn level_error : Level

-- slog with its loggers `L` that write to a `W`: a text handler with a level, `With`, and the
-- methods that write a line.
pub record Slog (L W S : Type 0) : Type 0 where
  pub new_text_logger : W → Level → L
  pub default_logger : L
  pub with_fields : L → List (Bytes × Value) → L
  pub write : L → Level → Bytes → List (Bytes × Value) → S → S

-- `clean` is `strings.TrimSpace` followed by `strings.ToLower`.
unfoldable pub parse_level : (Bytes → Bytes) → Bytes → Level
parse_level clean s =
    let level = clean s in
    if beq level (codes "debug")
    then level_debug
    else if any (beq level) (codes "info" ∷ [] ∷ [])
    then level_info
    else if any (beq level) (codes "warn" ∷ codes "warning" ∷ [])
    then level_warn
    else if beq level (codes "error")
    then level_error
    else level_info

module _ {L W S : Type 0} (slog : Slog L W S) where
  unfoldable pub new_logger : W → (Bytes → Bytes) → LoggerConfig → L
  unfolding parse_level
  new_logger stdout clean cfg = slog.new_text_logger stdout (parse_level clean cfg.level)

  -- A writer that is nil gives way to the standard output.
  unfoldable pub new_with_writer : W → (Bytes → Bytes) → Option W → LoggerConfig → L
  unfolding parse_level
  new_with_writer stdout clean none cfg = slog.new_text_logger stdout (parse_level clean cfg.level)
  new_with_writer stdout clean (some w) cfg = slog.new_text_logger w (parse_level clean cfg.level)

  -- `InfoContext` and its like, on a logger that may be nil
  unfoldable pub write_context : Level → Option L → Context → Bytes → List (Bytes × Value) → S → S
  write_context level log ctx msg v =
      slog.write (with_ctx slog.default_logger slog.with_fields log (some ctx)) level msg v

-- How a call of the interceptor ends.
pub data Ending (A : Type 0) : Type 0 where
  returned : Result A → Ending A
  -- a nil pointer is dereferenced
  panicked : Ending A

-- What the interceptor reads besides: the name of the method, the time that the handler took, the
-- code of an error, `peer.FromContext` with the address as a text, and the text of an error.
pub record CallInfo : Type 0 where
  pub full_method : Bytes
  pub elapsed : Bytes
  pub grpc_code : Option Error → Bytes
  pub peer_address : Option Bytes
  pub error_text : Error → Bytes

abbrev pub call_fields : CallInfo → Option Error → Bytes → List (Bytes × Value)
call_fields info e address =
    (codes "method", text info.full_method)
    ∷ (codes "duration", text info.elapsed)
    ∷ (codes "grpc_code", text (info.grpc_code e))
    ∷ (codes "remote_addr", text address)
    ∷ []

module _ {L W S A : Type 0} (slog : Slog L W S) (log : Option L) (info : CallInfo) where
  -- the line that is written after the handler
  unfoldable pub log_call : Context → Result A → Bytes → S → S
  log_call ctx (ok a) address =
      write_context slog level_info log ctx (codes "gRPC request handled")
        (call_fields info none address)
  log_call ctx (err e) address =
      write_context slog level_error log ctx (codes "gRPC request failed")
        (call_fields info (some e) address ++ (codes "error", text (info.error_text e)) ∷ [])

  unfoldable pub unary_logging_interceptor : (Context → Exec S A) → Context → S → Ending A × S
  unfolding log_call
  unary_logging_interceptor handler ctx s =
      let (r, s') = handler ctx s in
      elim info.peer_address [
        | none ↦ (panicked, s')
        | some address ↦ (returned r, log_call ctx r address s')
      ]

-- `run` of cmd/anti-bruteforce/main.go: the id first, the log inside it.
abbrev pub chained :
    {L W S A : Type 0}
    → (Bytes → Bytes → S → S)
    → Option (Bytes → List Bytes)
    → Bytes
    → Slog L W S
    → Option L
    → CallInfo
    → (Context → Exec S A)
    → Context
    → S
    → Ending A × S
chained set_header incoming fresh slog log info handler =
    unary_request_id_interceptor set_header incoming fresh
      (unary_logging_interceptor slog log info handler)
