-- ===== src/RateLimit/Keys.antt =====
-- The keys of buckets, and the limiter that the checker finds for each type.
use mathlib.Core.List.Perm
use otus_anti_bruteforce.Base.{false, [], ◌∷◌, ◌++◌, Option, none, some, ◌≡◌, refl, ◌∙◌, arith}
use otus_anti_bruteforce.Base.Text.{Bytes, codes, beq, beq_iff, beq_append_cancel}
use otus_anti_bruteforce.Base.GoMap.{
  GoMap, lookup, insert, HasDistinctKeys, lookup-insert, lookup-perm, Visits,
}
use otus_anti_bruteforce.Domain.{LimitType, login_limit, password_limit, ip_limit}
use otus_anti_bruteforce.Ports.{LimiterRepo}
use otus_anti_bruteforce.RateLimit.Limiter
use otus_anti_bruteforce.RateLimit.Checker
use otus_anti_bruteforce.RateLimit.Limiter.{Rule, Limiter, new_limiter, bucket_key}
use otus_anti_bruteforce.RateLimit.Checker.{Limits, fill_limiters, new_limit_checker}

-- Two attempts share a bucket just if both the type of limit and the key are the same.
module _ (a b : Bytes) where
  pub beq-bucket_key :
      (limit_type : Bytes) → beq (bucket_key limit_type a) (bucket_key limit_type b) ≡ beq a b
  beq-bucket_key limit_type = beq_append_cancel (limit_type ++ codes ":") a b

  pub login-password : beq (bucket_key login_limit a) (bucket_key password_limit b) ≡ false
  unfolding beq
  login-password = refl

  pub login-ip : beq (bucket_key login_limit a) (bucket_key ip_limit b) ≡ false
  unfolding beq
  login-ip = refl

  pub password-ip : beq (bucket_key password_limit a) (bucket_key ip_limit b) ≡ false
  unfolding beq
  password-ip = refl

module _ {S : Type 0} (storage : LimiterRepo S) where
  abbrev limiter_for : LimitType → Option Rule → Option (Limiter S)
  limiter_for lt none = none
  limiter_for lt (some rule) = some (new_limiter storage lt rule)

  abbrev or_else {ℓ} : {A : Type ℓ} → Option A → Option A → Option A
  or_else none b = b
  or_else (some a) b = some a

  lookup-fill_limiters :
      (lt : LimitType) (limits : Limits) (acc : GoMap (Limiter S))
      → HasDistinctKeys limits
      → lookup lt (fill_limiters storage limits acc)
        ≡ or_else (limiter_for lt (lookup lt limits)) (lookup lt acc)
  unfolding fill_limiters lookup
  lookup-fill_limiters lt [] acc d = refl
  lookup-fill_limiters lt ((k, rule) ∷ limits) acc (fresh, d) = ground (
    arith,
    beq_iff k lt,
    lookup-insert k lt (new_limiter storage k rule) acc,
    lookup-fill_limiters lt limits (insert k (new_limiter storage k rule) acc) d,
  )

  Rule-set : IsSet Rule
  Rule-set = hlevel

  -- Whatever the order of the loop over the limits, whose types are distinct, the checker has a
  -- limiter for just the types that have a rule, with that rule and under the name of the type.
  pub lookup-new_limit_checker :
      (order : Limits → Limits) (limits : Limits) (lt : LimitType)
      → Visits order
      → HasDistinctKeys limits
      → lookup lt (new_limit_checker storage order limits).limiters
        ≡ limiter_for lt (lookup lt limits)
  unfolding new_limit_checker
  lookup-new_limit_checker order limits lt v d =
      let (d', same) = lookup-perm Rule-set (Perm.symm (v limits)) d in
      lookup-fill_limiters lt (order limits) [] d' ∙ (unfold lookup in ground (arith, same lt))

  module _ (order : Limits → Limits) (limits : Limits) (v : Visits order)
      (d : HasDistinctKeys limits) (lt : LimitType) (rule : Rule)
      (found : lookup lt limits ≡ some rule) where
    -- A type that has a rule calls the store with the rule's numbers, under the key of its bucket.
    pub allow-new_limit_checker :
        (key : Bytes) (s : S)
        → Checker.allow (new_limit_checker storage order limits) lt key s
          ≡ storage.allow (bucket_key lt key) rule.limit rule.window s
    unfolding Checker.allow Limiter.allow
    allow-new_limit_checker key s =
        rw (lookup-new_limit_checker order limits lt v d, found, Checker.allow)

    pub reset-new_limit_checker :
        (key : Bytes) (s : S)
        → Checker.reset (new_limit_checker storage order limits) lt key s
          ≡ storage.reset (bucket_key lt key) s
    unfolding Checker.reset Limiter.reset
    reset-new_limit_checker key s =
        rw (lookup-new_limit_checker order limits lt v d, found, Checker.reset)
