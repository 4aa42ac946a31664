-- ===== src/Redis/Refinement.antt =====
-- buckets_repo.go over Redis implements the window of Window.antt: what Redis drops, by range or by
-- deadline, is never missed.
use otus_anti_bruteforce.Base.{
  ℕ, ◌*◌, ◌<◌, false, List, [], ◌∷◌, ok, ◌≡◌, refl, ap, All_map, length, Bool-cases, inl, inr,
  if◌then◌else◌, arith,
}
use otus_anti_bruteforce.Base.Int.{ℤ, pos, ◌+ℤ◌, ◌-ℤ◌, ◌≤ℤ◌, leb_ℤ, +ℤ_parts}
use otus_anti_bruteforce.Base.Text.{Bytes, beq, beq_iff}
use otus_anti_bruteforce.Base.GoMap.{GoMap, insert}
use otus_anti_bruteforce.Base.Time.{
  unix_milli, unix_milli_mono, unix_milli_epoch, milliseconds-whole, nanos_per_milli,
}
use otus_anti_bruteforce.Memory.Buckets.Window.{Ledger, set}
use otus_anti_bruteforce.Redis
use otus_anti_bruteforce.Redis.{Command, Client, member, transaction, count_of, allow}
use otus_anti_bruteforce.Redis.Server.{Stored, without_range, Sets, no_set, alive, Serves}
use otus_anti_bruteforce.Redis.Window.{
  Call, attempt, reset, IsChronological, is_used, IsFresh, record_attempt, run_redis, strict_ledger,
}
use otus_anti_bruteforce.Redis.Transaction.{with_deadline, serve-transaction}
use otus_anti_bruteforce.Redis.Keeps.{
  Keeps, Keeps-none, Keeps-later, Keeps-alive, Keeps-attempt, length-attempt,
}

-- Every set of Redis keeps to the attempts on its key.
pub record Tracks (w : Bytes → ℕ) (clock : ℤ) (used : List (Bytes × Bytes)) (sets : Sets)
    (h : Ledger) : Type 0 where
  pub at_key : (key : Bytes) → Keeps (w key) clock used key (sets key) (h key)

-- A member that is in use stays in use.
Keeps-used :
    (w : ℕ) (clock : ℤ) (e : Bytes × Bytes) (used : List (Bytes × Bytes)) (key : Bytes)
    {st : Stored} {h : List ℤ}
    → Keeps w clock used key st h
    → Keeps w clock (e ∷ used) key st h
Keeps-used w clock e used key k = record {
  same = k.same;
  low = k.low;
  named = All_map (λ m u. ground arith) _ k.named;
  past = k.past;
  life = k.life;
}

module _ {R : Type 0} (client : Client R) (ttl : ℤ → ℤ) (view : R → Sets)
    (s : Serves client ttl view) where
  module _ (key : Bytes) (limit now : ℤ) (sfx : ℕ) (w : ℕ) (r : R) where
    abbrev kept : GoMap ℤ
    kept = without_range (pos 0) (unix_milli now -ℤ pos w) (
        insert (member (unix_milli now) sfx) (unix_milli now)
          (alive (unix_milli now) (view r key)).members)

    abbrev window : ℤ
    window = pos (w * nanos_per_milli)

    abbrev commands : List Command
    commands = transaction (unix_milli now) sfx key window

    reply-allow :
        (allow client now (ok sfx) key limit window r).0 ≡ ok (leb_ℤ (pos (length kept)) limit)
    unfolding allow
    reply-allow =
        rw (allow, s.exec_ok (unix_milli now) commands r)
          (rw
            (
              (serve-transaction ttl (unix_milli now) sfx key window (view r)).0,
              milliseconds-whole w,
            )
            refl)

    view-allow :
        (k : Bytes)
        → view (allow client now (ok sfx) key limit window r).1 k ≡ (
            if beq key k
            then with_deadline (unix_milli now +ℤ ttl (window +ℤ window)) kept
            else view r k)
    unfolding allow
    view-allow k =
        rw
          (
            allow,
            s.exec_ok (unix_milli now) commands r,
            s.exec_view (unix_milli now) commands r k,
            (serve-transaction ttl (unix_milli now) sfx key window (view r)).1 k,
            milliseconds-whole w,
          )
          refl

  module _ (w : Bytes → ℕ) (positive : (key : Bytes) → 0 < w key) where
    module _ (clock now : ℤ) (key : Bytes) {used : List (Bytes × Bytes)} (r : R) (h : Ledger)
        (later : clock ≤ℤ now) (t : Tracks w (unix_milli clock) used (view r) h) where
      Keeps-now : (k : Bytes) → Keeps (w k) (unix_milli now) used k (view r k) (h k)
      Keeps-now k =
          Keeps-later (w k) k (unix_milli clock) (unix_milli now) (view r k)
            (unix_milli_mono clock now later) (t.at_key k)

      Keeps-before :
          Keeps (w key) (unix_milli now) used key (alive (unix_milli now) (view r key)) (h key)
      Keeps-before = Keeps-alive (w key) key (unix_milli now) (view r key) (Keeps-now key)

    Tracks-attempt :
        (clock now limit : ℤ) (sfx : ℕ) (key : Bytes) {used : List (Bytes × Bytes)} (r : R)
        (h : Ledger)
        → pos 0 ≤ℤ now
        → clock ≤ℤ now
        → is_used key (member (unix_milli now) sfx) used ≡ false
        → Tracks w (unix_milli clock) used (view r) h
        → Tracks w
            (unix_milli now)
            ((key, member (unix_milli now) sfx) ∷ used)
            (view (allow client now (ok sfx) key limit (pos (w key * nanos_per_milli)) r).1)
            (set h key (record_attempt limit (w key) (unix_milli now) (h key)).1)
    unfolding record_attempt
    Tracks-attempt clock now limit sfx key {used} r h epoch later fresh t = record {
      at_key = λ k. rw (view-allow key limit now sfx (w key) r k) (elim (Bool-cases (beq key k)) [
        | inl same ↦
            rw (same, ← (beq_iff key k).0 same)
              (Keeps-attempt (w key) key (unix_milli now) sfx _ _ (unix_milli_epoch now epoch)
                (omega (
                  arith,
                  s.ttl_long (w key) (positive key),
                  +ℤ_parts (unix_milli now) (pos (w key)),
                  +ℤ_parts (unix_milli now)
                      (ttl (pos (w key * nanos_per_milli) +ℤ pos (w key * nanos_per_milli))),
                ))
                fresh (Keeps-before clock now key r h later t))
        | inr other ↦ rw other (
            Keeps-used (w k) (unix_milli now) (key, member (unix_milli now) sfx) used k
              (Keeps-now clock now key r h later t k))
      ]);
    }

    Tracks-reset :
        (clock : ℤ) (key : Bytes) (used : List (Bytes × Bytes)) (r : R) (h : Ledger)
        → Tracks w clock used (view r) h
        → Tracks w clock used (view (Redis.reset client key r).1) (set h key [])
    unfolding Redis.reset
    Tracks-reset clock key used r h t = record {
      at_key = λ k.
          rw (Redis.reset, s.del_view key r k)
            (elim (Bool-cases (beq key k)) [
              | inl same ↦ rw same (Keeps-none (w k) k clock used)
              | inr other ↦ rw other (t.at_key k)
            ]);
    }

    run-replies :
        (calls : List Call) (clock : ℤ) (used : List (Bytes × Bytes)) (r : R) (h : Ledger)
        → IsChronological clock calls
        → IsFresh used calls
        → Tracks w (unix_milli clock) used (view r) h
        → (run_redis w client calls r).0 ≡ (strict_ledger w calls h).0
    unfolding run_redis strict_ledger record_attempt
    run-replies [] clock used r h c f t = refl
    run-replies (attempt key limit now sfx ∷ calls) clock used r h (epoch, later, c) (fresh, f) t =
        rw
          (
            reply-allow key limit now sfx (w key) r,
            length-attempt (w key) key (unix_milli now) sfx (alive (unix_milli now) (view r key))
                (unix_milli_epoch now epoch) fresh (Keeps-before clock now key r h later t),
            record_attempt,
          )
          (ap (◌∷◌ (ok (record_attempt limit (w key) (unix_milli now) (h key)).0)) (
            run-replies calls now _ _ _ c f
              (Tracks-attempt clock now limit sfx key r h epoch later fresh t)))
    run-replies (reset key ∷ calls) clock used r h c f t =
        run-replies calls clock used _ _ c f (Tracks-reset (unix_milli clock) key used r h t)

    -- Over a Redis that is up and starts empty, with a window of whole positive milliseconds for
    -- each key: for any calls of `Allow` and `Reset` on any keys, in order of time and not before
    -- 1970, where no two attempts on a key get the same member, which spells the millisecond and
    -- the random number, the store gives the replies of a ledger that keeps every attempt since the
    -- last reset, the refused ones too, and counts those inside the window.
    pub run_redis-strict_ledger :
        (calls : List Call) (clock : ℤ) (r : R)
        → ((key : Bytes) → view r key ≡ no_set)
        → IsChronological clock calls
        → IsFresh [] calls
        → (run_redis w client calls r).0 ≡ (strict_ledger w calls (λ key. [])).0
    run_redis-strict_ledger calls clock r empty c f =
        run-replies calls clock [] r _ c f
          (record { at_key = λ key. rw (empty key) (Keeps-none (w key) key (unix_milli clock) []) })
