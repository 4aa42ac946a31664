-- ===== src/Redis/Server.antt =====
-- What Redis documents of the commands of the store: sorted sets of members with scores, each with
-- a time at which its key is dropped.
use otus_anti_bruteforce.Base.{
  ℕ, ◌-◌, ◌*◌, ◌<◌, ◌&&◌, Option, none, some, List, [], ◌∷◌, ok, ◌≡◌, length, if◌then◌else◌,
}
use otus_anti_bruteforce.Base.Int.{ℤ, pos, ◌+ℤ◌, ◌≤ℤ◌, leb_ℤ}
use otus_anti_bruteforce.Base.Text.{Bytes, beq}
use otus_anti_bruteforce.Base.GoMap.{GoMap, lookup, insert}
use otus_anti_bruteforce.Base.Time.{nanos_per_milli}
use otus_anti_bruteforce.Redis.{Command, z_add, z_rem_range_by_score, z_card, expire, Client}

-- The members of a sorted set with their scores, and the deadline of its key.
pub record Stored : Type 0 where
  pub members : GoMap ℤ
  pub deadline : Option ℤ

abbrev pub no_set : Stored
no_set = record { members = []; deadline = none }

abbrev pub Sets : Type 0
Sets = Bytes → Stored

abbrev pub put : Bytes → Stored → Sets → Sets
put key st sets k = if beq key k then st else sets k

-- A key whose deadline has come is gone.
abbrev pub alive_by : ℤ → Stored → Option ℤ → Stored
alive_by now st none = st
alive_by now st (some d) = if leb_ℤ d now then no_set else st

abbrev pub alive : ℤ → Stored → Stored
alive now st = alive_by now st st.deadline

-- A set without members has no key.
abbrev pub tidy_by : Stored → GoMap ℤ → Stored
tidy_by st [] = no_set
tidy_by st (e ∷ ms) = st

abbrev pub tidy : Stored → Stored
tidy st = tidy_by st st.members

unfoldable pub without_range : ℤ → ℤ → GoMap ℤ → GoMap ℤ
without_range lo hi [] = []
without_range lo hi ((m, score) ∷ ms) =
    let rest = without_range lo hi ms in
    if leb_ℤ lo score && leb_ℤ score hi then rest else (m, score) ∷ rest

-- `EXPIRE` on a key that is not there does nothing.
abbrev pub expire_at : ℤ → Stored → GoMap ℤ → Stored
expire_at d st [] = st
expire_at d st (e ∷ ms) = record st { deadline = some d }

-- `ttl` is the time in milliseconds that the client makes of a duration.
module _ (ttl : ℤ → ℤ) (now : ℤ) where
  unfoldable pub serve_one : Command → Sets → ℤ × Sets
  unfolding without_range
  serve_one (z_add key score m) sets =
      let st = alive now (sets key) in
      (
        elim (lookup m st.members) [ none ↦ pos 1 | some _ ↦ pos 0 ],
        put key (record st { members = insert m score st.members }) sets,
      )
  serve_one (z_rem_range_by_score key lo hi) sets =
      let st = alive now (sets key) in
      let kept = without_range lo hi st.members in
      (pos (length st.members - length kept), put key (tidy (record st { members = kept })) sets)
  serve_one (z_card key) sets = (pos (length (alive now (sets key)).members), sets)
  serve_one (expire key d) sets =
      let st = alive now (sets key) in
      (
        elim st.members [ [] ↦ pos 0 | _ ∷ _ ↦ pos 1 ],
        put key (expire_at (now +ℤ ttl d) st st.members) sets,
      )

  unfoldable pub serve : List Command → Sets → List ℤ × Sets
  unfolding serve_one
  serve [] sets = ([], sets)
  serve (c ∷ cs) sets =
      let (reply, sets') = serve_one c sets in
      let (replies, sets'') = serve cs sets' in (reply ∷ replies, sets'')

-- A Redis that is up: a transaction runs as a whole, and a key lives at least half of the duration
-- that it was given, although the client rounds it to seconds.
pub record Serves {R : Type 0} (client : Client R) (ttl : ℤ → ℤ) (view : R → Sets) : Type 0 where
  pub exec_ok :
      (now : ℤ) (cs : List Command) (r : R)
      → (client.exec now cs r).0 ≡ ok (serve ttl now cs (view r)).0
  pub exec_view :
      (now : ℤ) (cs : List Command) (r : R) (k : Bytes)
      → view (client.exec now cs r).1 k ≡ (serve ttl now cs (view r)).1 k
  pub del_ok : (key : Bytes) (r : R) → (client.del key r).0 ≡ ok tt
  pub del_view :
      (key : Bytes) (r : R) (k : Bytes) → view (client.del key r).1 k ≡ put key no_set (view r) k
  pub ttl_long :
      (w : ℕ) → 0 < w → pos w ≤ℤ ttl (pos (w * nanos_per_milli) +ℤ pos (w * nanos_per_milli))
