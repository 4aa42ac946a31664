-- ===== src/Tests/Logs.antt =====
-- A request that is logged, a subscriber that ends, and a full timeline.
use otus_anti_bruteforce.Base.{
  ℕ, ◌+◌, ◌*◌, ◌≤◌, false, List, [], ◌∷◌, ◌++◌, none, some, ok, err, foreign, Exec, length, ◌≡◌,
  refl,
}
use otus_anti_bruteforce.Base.Int.{ℤ, pos}
use otus_anti_bruteforce.Base.Text.{Bytes, codes, beq}
use otus_anti_bruteforce.Base.Time.{nanos_per_milli}
use otus_anti_bruteforce.Memory.Buckets.Defs.{new_buckets_db}
use otus_anti_bruteforce.Memory.Buckets.Timelines.{times_of}
use otus_anti_bruteforce.Memory.Buckets.Window.{Call, attempt, run}
use otus_anti_bruteforce.Memory.Buckets.Size.{length-times_of_le_limit}
use otus_anti_bruteforce.Adapters.Redis.{message, closed, start, is_waiting, start-ends}
use otus_anti_bruteforce.Meta.{Context, Value, text, number, with_user_id, user_id, trace_id}
use otus_anti_bruteforce.Meta.Interceptor.{chosen_id}
use otus_anti_bruteforce.Meta.Logging.{Level, level_error, Slog, CallInfo, returned, chained}
use otus_anti_bruteforce.Meta.Logging.Lines.{named, if_found, chained-returned}

-- A line: the fields of the logger, the level, the message and the fields of the call.
abbrev Line : Type 0
Line = List (Bytes × Value) × Level × Bytes × List (Bytes × Value)

abbrev slog : Slog (List (Bytes × Value)) (Unit {0}) (List Line)
slog = record {
  new_text_logger = λ w level. [];
  default_logger = [];
  with_fields = λ l v. l ++ v;
  write = λ l level msg v lines. (l, level, msg, v) ∷ lines;
}

abbrev info : CallInfo
info = record {
  full_method = codes "/CheckAttempt";
  elapsed = codes "1ms";
  grpc_code = λ e. codes "Unknown";
  peer_address = some (codes "10.0.0.1:5000");
  error_text = λ e. codes "failed";
}

abbrev failing : Context → Exec (List Line) (Unit {0})
failing ctx lines = (err (foreign 1), lines)

-- the request of a user
abbrev asked : Context
asked = with_user_id [] (pos 7)

chained-returned_example :
    (names : List (Bytes × Value)) × (msg : Bytes) × (details : List (Bytes × Value)) × (chained
        (λ k v lines. lines)
        none
        (codes "id-1")
        slog
        (some [])
        info
        failing
        asked
        []
      ≡ (returned (err (foreign 1)), (names, level_error, msg, details) ∷ []))
    × (named (codes "request_id") names ≡ some (text (chosen_id none (codes "id-1"))))
    × (named (codes "user_id") names ≡ if_found number (user_id asked))
    × (named (codes "trace_id") names ≡ if_found text (trace_id asked))
    × (named (codes "method") details ≡ some (text (codes "/CheckAttempt")))
    × (named (codes "grpc_code") details ≡ some (text (codes "Unknown")))
    × (named (codes "error") details ≡ some (text (codes "failed")))
unfolding beq
chained-returned_example =
    chained-returned slog [] info (λ k v lines. lines) none (codes "id-1") failing asked []
      (codes "10.0.0.1:5000") refl refl

abbrev counting : Exec ℕ (Unit {0})
counting n = (ok tt, n + 1)

start-ends_example :
    (is_waiting (start counting (message ∷ closed ∷ []) 0).0 ≡ false)
    × (start counting ((message ∷ closed ∷ []) ++ message ∷ []) 0
        ≡ start counting (message ∷ closed ∷ []) 0)
start-ends_example = start-ends counting (message ∷ closed ∷ []) (message ∷ []) 0 refl

abbrev minute : Bytes → ℤ
minute key = pos (60000 * nanos_per_milli)

abbrev three_attempts : List Call
three_attempts =
    attempt (codes "ip:1") (pos 2) (pos 0)
    ∷ attempt (codes "ip:1") (pos 2) (pos 1)
    ∷ attempt (codes "ip:1") (pos 2) (pos 2)
    ∷ []

length-times_of_le_limit_example :
    length (times_of (run minute three_attempts new_buckets_db).1 (codes "ip:1")) ≤ 2
length-times_of_le_limit_example =
    length-times_of_le_limit minute (codes "ip:1") 2 three_attempts
      (λ e. refl, (λ e. refl, (λ e. refl, tt)))
