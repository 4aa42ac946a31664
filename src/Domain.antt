-- ===== src/Domain.antt =====
-- internal/domain/types.go. Both `ListType` and `LimitType` are strings in Go, and any string is a
-- key of the maps that they index.
use otus_anti_bruteforce.Base.Text.{Bytes, codes}

abbrev pub ListType : Type 0
ListType = Bytes

abbrev pub whitelist : ListType
whitelist = codes "whitelist"

abbrev pub blacklist : ListType
blacklist = codes "blacklist"

abbrev pub LimitType : Type 0
LimitType = Bytes

abbrev pub login_limit : LimitType
login_limit = codes "login"

abbrev pub password_limit : LimitType
password_limit = codes "password"

abbrev pub ip_limit : LimitType
ip_limit = codes "ip"

pub data PolicyDecision : Type 0 where
  decision_continue decision_deny decision_allow : PolicyDecision
