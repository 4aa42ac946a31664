-- ===== src/Adapters/Redis.antt =====
-- internal/adapters/redissubscriber/subscriber.go and the Redis publisher of
-- internal/adapters/subnetupdatepublisher: the news of a change, in the external mode.
use otus_anti_bruteforce.Base.{
  Bool, true, false, ◌&&◌, ◌++◌, ◌∙◌, ap, sym, List, [], ◌∷◌, Option, none, some, ok, err, Error,
  new, wrap, Exec, ◌≡◌, refl, any, all, is_ok, Result-cases, inl, inr, if◌then◌else◌, arith,
}
use otus_anti_bruteforce.Base.Text.{Bytes, codes}
use otus_anti_bruteforce.Base.GoMap.{GoMap, Visits}
use otus_anti_bruteforce.Domain.{whitelist, blacklist}
use otus_anti_bruteforce.Net.{NetPackage}
use otus_anti_bruteforce.Ports.{SubnetRepo, SubnetUpdatesPublisher}
use otus_anti_bruteforce.Subnet.List.Defs.{contains}
use otus_anti_bruteforce.Subnet.List.Loading.{loaded}
use otus_anti_bruteforce.Subnet.List.Coverage.{covers, is_network}
use otus_anti_bruteforce.Subnet.Policer.Defs.{SubnetPolicer, check, reload_subnets}
use otus_anti_bruteforce.Subnet.Policer.Reload.{policy, IsWired, is_ok-reload, check-reload}

-- `publish channel message` is `rdb.Publish(…).Err()`.
unfoldable pub redis_publish :
    {S : Type 0} → (Bytes → Bytes → Exec S (Unit {0})) → Bytes → Exec S (Unit {0})
redis_publish publish channel = publish channel (codes "reload")

abbrev pub new_redis_publisher :
    {S : Type 0} → (Bytes → Bytes → Exec S (Unit {0})) → Bytes → SubnetUpdatesPublisher S
new_redis_publisher publish channel = record {
  publish_subnet_updated = redis_publish publish channel;
}

-- What the `select` of the loop receives: the end of the context with its error, a message, or the
-- end of the channel.
pub data Event : Type 0 where
  done : Error → Event
  message closed : Event

abbrev pub err_closed : Error
err_closed = new (codes "redis pubsub channel closed")

-- The loop of `Start` over the events as they come: the error it returns, or none while it waits
-- for more.
unfoldable pub start : {S : Type 0} → Exec S (Unit {0}) → List Event → S → Option Error × S
start reload [] s = (none, s)
start reload (done e ∷ events) s = (some e, s)
start reload (closed ∷ events) s = (some err_closed, s)
start reload (message ∷ events) s =
    let (r, s') = reload s in
    let rest = start reload events s' in
    elim r [ ok _ ↦ rest | err e ↦ (some (wrap (codes "reload subnet policy") e), s') ]

abbrev pub is_waiting : Option Error → Bool
is_waiting none = true
is_waiting (some e) = false

module _ {S : Type 0} (reload : Exec S (Unit {0})) where
  start_reloaded :
      (events : List Event) (s : S)
      → (reload s).0 ≡ ok tt
      → start reload (message ∷ events) s ≡ start reload events (reload s).1
  unfolding start
  start_reloaded events s fine = rw (start, fine)

  start_failed :
      (events : List Event) (s : S) (e : Error)
      → (reload s).0 ≡ err e
      → start reload (message ∷ events) s
        ≡ (some (wrap (codes "reload subnet policy") e), (reload s).1)
  unfolding start
  start_failed events s e broken = rw (start, broken)

  start_one :
      (s : S)
      → (is_waiting (start reload (message ∷ []) s).0 ≡ is_ok (reload s).0)
        × ((start reload (message ∷ []) s).1 ≡ (reload s).1)
  start_one s = elim (Result-cases (reload s).0) [
    | inl (tt, fine) ↦
        rw (start_reloaded [] s fine, fine) (unfold start in refl, unfold start in refl)
    | inr (e, broken) ↦ rw (start_failed [] s e broken, broken) (refl, refl)
  ]

  -- The loop goes on unless it has returned.
  abbrev pub resumed : List Event → Option Error × S → Option Error × S
  resumed later (none, s) = start reload later s
  resumed later (some e, s) = (some e, s)

  -- Events that come later are handled from where the earlier ones left the loop, unless they
  -- ended it.
  pub start-append :
      (events later : List Event) (s : S)
      → start reload (events ++ later) s ≡ resumed later (start reload events s)
  start-append [] later s = unfold start in refl
  start-append (done e ∷ events) later s = unfold start in refl
  start-append (closed ∷ events) later s = unfold start in refl
  start-append (message ∷ events) later s = elim (Result-cases (reload s).0) [
    | inl (tt, fine) ↦
        start_reloaded (events ++ later) s fine
        ∙ start-append events later (reload s).1
        ∙ ap (resumed later) (sym (start_reloaded events s fine))
    | inr (e, broken) ↦
        start_failed (events ++ later) s e broken
        ∙ ap (resumed later) (sym (start_failed events s e broken))
  ]

-- For a policer with its two lists wired as `NewSubnetPolicer` does, over a repository that answers
-- both reads, a message while the subscriber waits: it goes on just if every text of both lists is
-- a network, and stops with an error otherwise; afterwards `Check` decides by the texts of the
-- repository as far as they were read, and by the old blacklist if the whitelist is broken.
pub start_message :
    (net : NetPackage) {R : Type 0} (repo : SubnetRepo R) (sp : SubnetPolicer net.IpNet)
    (wired : IsWired net sp) (r r' r'' : R) (ws bs : List Bytes)
    (order : GoMap net.IpNet → GoMap net.IpNet) (ip : net.Ip)
    → repo.get_subnet_lists whitelist r ≡ (ok ws, r')
    → repo.get_subnet_lists blacklist r' ≡ (ok bs, r'')
    → Visits order
    → let (stopped, s) = start (reload_subnets net repo) (message ∷ []) (sp, r) in
      (is_waiting stopped ≡ (all (is_network net) ws && all (is_network net) bs))
      × (check net order ip s.0 ≡ (
          if all (is_network net) ws
          then policy (any (covers net ip) ws) (any (covers net ip) (loaded net bs))
          else policy (any (covers net ip) (loaded net ws)) (contains net order ip wired.black)))
start_message net repo sp wired r r' r'' ws bs order ip got_ws got_bs v = (
  (start_one (reload_subnets net repo) (sp, r)).0
      ∙ is_ok-reload net repo sp wired r r' r'' ws bs got_ws got_bs,
  rw (start_one (reload_subnets net repo) (sp, r)).1
      (check-reload net repo sp wired r r' r'' ws bs got_ws got_bs order ip v),
)

abbrev pub is_last : Event → Bool
is_last (done e) = true
is_last closed = true
is_last message = false

start-stopped :
    {S : Type 0} (reload : Exec S (Unit {0})) (events : List Event) (s : S)
    → any is_last events ≡ true
    → is_waiting (start reload events s).0 ≡ false
start-stopped reload [] s h = ground arith
start-stopped reload (done e ∷ events) s h = unfold start in refl
start-stopped reload (closed ∷ events) s h = unfold start in refl
start-stopped reload (message ∷ events) s h = elim (Result-cases (reload s).0) [
  | inl (tt, fine) ↦
      rw (start_reloaded reload events s fine) (start-stopped reload events (reload s).1 h)
  | inr (e, broken) ↦ rw (start_failed reload events s e broken) refl
]

resumed_stopped :
    {S : Type 0} (reload : Exec S (Unit {0})) (later : List Event) (x : Option Error × S)
    → is_waiting x.0 ≡ false
    → resumed reload later x ≡ x
resumed_stopped reload later (none, s) h = ground arith
resumed_stopped reload later (some e, s) h = refl

-- Once the end of the context or of the channel is among the events, the loop of the subscriber has
-- returned, whatever the reloads did, and events that come later change nothing.
pub start-ends :
    {S : Type 0} (reload : Exec S (Unit {0})) (events later : List Event) (s : S)
    → any is_last events ≡ true
    → (is_waiting (start reload events s).0 ≡ false)
      × (start reload (events ++ later) s ≡ start reload events s)
start-ends reload events later s h = (
  start-stopped reload events s h,
  start-append reload events later s
      ∙ resumed_stopped reload later (start reload events s) (start-stopped reload events s h),
)
