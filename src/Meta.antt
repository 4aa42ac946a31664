-- ===== src/Meta.antt =====
-- internal/ctxmeta/ctxmeta.go: the values that a context carries. Of a Go context only its values
-- are kept, the last one first, so that `ctx.Value(k)` is the first value under `k`.
pub mod Interceptor
pub mod Logging
use otus_anti_bruteforce.Base.{
  Bool, true, false, not, ◌&&◌, List, [], ◌∷◌, Option, none, some, if◌then◌else◌,
}
use otus_anti_bruteforce.Base.Int.{ℤ, pos, leb_ℤ}
use otus_anti_bruteforce.Base.Text.{Bytes, beq}

pub data Key : Type 0 where
  key_request_id key_user_id key_trace_id : Key

-- The values are of any type; those that the program stores are texts and numbers.
pub data Value : Type 0 where
  text : Bytes → Value
  number : ℤ → Value

abbrev pub Context : Type 0
Context = List (Key × Value)

abbrev same_key : Key → Key → Bool
same_key key_request_id key_request_id = true
same_key key_user_id key_user_id = true
same_key key_trace_id key_trace_id = true
same_key _ _ = false

unfoldable pub value : Key → Context → Option Value
value k [] = none
value k ((j, v) ∷ ctx) = if same_key j k then some v else value k ctx

-- `v, ok := ctx.Value(k).(string)`, and the zero value if it is no text
abbrev as_text : Option Value → Bytes × Bool
as_text (some (text v)) = (v, true)
as_text (some (number n)) = ([], false)
as_text none = ([], false)

abbrev as_number : Option Value → ℤ × Bool
as_number (some (number n)) = (n, true)
as_number (some (text v)) = (pos 0, false)
as_number none = (pos 0, false)

abbrev pub with_request_id : Context → Bytes → Context
with_request_id ctx id = (key_request_id, text id) ∷ ctx

-- An empty id counts as none.
unfoldable pub request_id : Context → Bytes × Bool
request_id ctx = let (v, found) = as_text (value key_request_id ctx) in (v, found && not (beq v []))

abbrev pub with_user_id : Context → ℤ → Context
with_user_id ctx id = (key_user_id, number id) ∷ ctx

unfoldable pub user_id : Context → ℤ × Bool
user_id ctx =
    let (v, found) = as_number (value key_user_id ctx) in
    (v, found && not (leb_ℤ v (pos 0) && leb_ℤ (pos 0) v))

abbrev pub with_trace_id : Context → Bytes → Context
with_trace_id ctx id = (key_trace_id, text id) ∷ ctx

unfoldable pub trace_id : Context → Bytes × Bool
trace_id ctx = let (v, found) = as_text (value key_trace_id ctx) in (v, found && not (beq v []))
