-- ===== src/Memory/Buckets/Refinement.antt =====
-- bucketsdb.go implements the sliding window of Window.antt: what it prunes is never missed.
use otus_anti_bruteforce.Base.{
  List, [], ◌∷◌, ◌++◌, ◌≡◌, refl, ap, ok, All, All-append, length, Bool-cases, inl, inr, arith,
}
use mathlib.Core.List.{append_assoc}
use otus_anti_bruteforce.Base.Int.{ℤ, pos, ◌≤ℤ◌, ◌-ℤ◌, leb_ℤ, -ℤ_parts}
use otus_anti_bruteforce.Base.Text.{Bytes, beq, beq_iff}
use otus_anti_bruteforce.Base.Time.{unix_milli, unix_milli_mono}
use otus_anti_bruteforce.Memory.Buckets.Defs.{BucketsDb, new_buckets_db, prune, admit, allow}
use otus_anti_bruteforce.Memory.Buckets.Defs
use otus_anti_bruteforce.Memory.Buckets.Pruning.{
  IsSorted, count_after, count_after-append, count_after_stale, prune_split, length-prune,
  All-prune, prune-IsSorted, append-IsSorted,
}
use otus_anti_bruteforce.Memory.Buckets.Timelines
use otus_anti_bruteforce.Memory.Buckets.Timelines.{
  times_of, times_of_new, reply-allow, times_of-allow, times_of-reset,
}
use otus_anti_bruteforce.Memory.Buckets.Window.{
  Call, attempt, reset, IsChronological, Ledger, set, judge, run, run_ledger,
}

-- The timeline is in order, not ahead of the clock, and a suffix of the ledger; what it lacks is
-- older than the window.
pub record IsSuffix (window clock : ℤ) (ts h : List ℤ) : Type 0 where
  pub old : List ℤ
  pub split : h ≡ old ++ ts
  pub stale : All (λ t. t ≤ℤ unix_milli (clock -ℤ window)) old
  pub sorted : IsSorted ts
  pub past : All (λ t. t ≤ℤ unix_milli clock) ts

All_le_mono : (a b : ℤ) (ts : List ℤ) → a ≤ℤ b → All (λ t. t ≤ℤ a) ts → All (λ t. t ≤ℤ b) ts
All_le_mono a b [] h k = tt
All_le_mono a b (t ∷ ts) h (k, ks) = (omega arith, All_le_mono a b ts h ks)

sub_mono : (a b w : ℤ) → a ≤ℤ b → a -ℤ w ≤ℤ b -ℤ w
sub_mono a b w h = omega (arith, -ℤ_parts)

IsSuffix-later :
    (window clock now : ℤ) {ts h : List ℤ}
    → clock ≤ℤ now
    → IsSuffix window clock ts h
    → IsSuffix window now ts h
IsSuffix-later window clock now later s = record {
  old = s.old;
  split = s.split;
  stale = All_le_mono _ _ s.old (unix_milli_mono _ _ (sub_mono clock now window later)) s.stale;
  sorted = s.sorted;
  past = All_le_mono _ _ _ (unix_milli_mono clock now later) s.past;
}

append-IsSuffix :
    (window now : ℤ) {ts h : List ℤ}
    → IsSuffix window now ts h
    → IsSuffix window now (ts ++ unix_milli now ∷ []) (h ++ unix_milli now ∷ [])
append-IsSuffix window now {ts} s = record {
  old = s.old;
  split = rw (s.split, append_assoc) refl;
  stale = s.stale;
  sorted = append-IsSorted ts (unix_milli now) s.sorted s.past;
  past = All-append _ ts _ s.past (omega arith, tt);
}

module _ (window now : ℤ) {ts h : List ℤ} (s : IsSuffix window now ts h) where
  count_after-eq-length-prune :
      count_after (unix_milli (now -ℤ window)) h ≡ length (prune (unix_milli (now -ℤ window)) ts)
  count_after-eq-length-prune = rw s.split (
      omega (
        arith,
        count_after-append (unix_milli (now -ℤ window)) s.old ts,
        count_after_stale (unix_milli (now -ℤ window)) s.old s.stale,
        length-prune (unix_milli (now -ℤ window)) ts s.sorted,
      ))

  prune-IsSuffix : IsSuffix window now (prune (unix_milli (now -ℤ window)) ts) h
  prune-IsSuffix =
      let cut = unix_milli (now -ℤ window) in
      let (dropped, split, are_old) = prune_split cut ts in
      record {
        old = s.old ++ dropped;
        split = rw (s.split, append_assoc) (ap (λ (r : List ℤ). s.old ++ r) split);
        stale = All-append _ s.old dropped s.stale are_old;
        sorted = prune-IsSorted cut ts s.sorted;
        past = All-prune _ cut ts s.past;
      }

  verdict-judge :
      (limit : ℤ) → (Timelines.attempt limit window now ts).0 ≡ (judge limit window now h).0
  unfolding Timelines.attempt admit judge
  verdict-judge limit = ground (arith, count_after-eq-length-prune)

  attempt-IsSuffix :
      (limit : ℤ)
      → IsSuffix window now (Timelines.attempt limit window now ts).1 (judge limit window now h).1
  unfolding Timelines.attempt admit judge
  attempt-IsSuffix limit = elim (Bool-cases (leb_ℤ limit (pos 0))) [
    | inl shut ↦ rw shut s
    | inr open_limit ↦ elim (Bool-cases (leb_ℤ window (pos 0))) [
      | inl unlimited ↦ rw (open_limit, unlimited) s
      | inr limited ↦
          elim (Bool-cases (leb_ℤ limit (pos (length (prune (unix_milli (now -ℤ window)) ts))))) [
            | inl full ↦ rw (open_limit, limited, count_after-eq-length-prune, full) prune-IsSuffix
            | inr room ↦
                rw (open_limit, limited, count_after-eq-length-prune, room)
                  (append-IsSuffix window now prune-IsSuffix)
          ]
    ]
  ]

-- Every timeline of the store is such a suffix of its ledger.
pub record Tracks (window : Bytes → ℤ) (clock : ℤ) (l : BucketsDb) (h : Ledger) : Type 0 where
  pub at_key : (key : Bytes) → IsSuffix (window key) clock (times_of l key) (h key)

module _ (window : Bytes → ℤ) where
  Tracks-allow :
      (clock now limit : ℤ) (key : Bytes) (l : BucketsDb) (h : Ledger)
      → clock ≤ℤ now
      → Tracks window clock l h
      → Tracks window now
          (allow now key limit (window key) l).1
          (set h key (judge limit (window key) now (h key)).1)
  Tracks-allow clock now limit key l h later t = record {
    at_key = λ k. rw times_of-allow (elim (Bool-cases (beq key k)) [
      | inl same ↦
          rw (same, ← (beq_iff key k).0 same)
            (attempt-IsSuffix (window key) now
              (IsSuffix-later (window key) clock now later (t.at_key key)) limit)
      | inr other ↦ rw other (IsSuffix-later (window k) clock now later (t.at_key k))
    ]);
  }

  Tracks-reset :
      (clock : ℤ) (key : Bytes) (l : BucketsDb) (h : Ledger)
      → Tracks window clock l h
      → Tracks window clock (Defs.reset key l).1 (set h key [])
  Tracks-reset clock key l h t = record {
    at_key = λ k. rw times_of-reset (elim (Bool-cases (beq key k)) [
      | inl same ↦ rw same (record { old = []; split = refl; stale = tt; sorted = tt; past = tt })
      | inr other ↦ rw other (t.at_key k)
    ]);
  }

  Tracks-new : (clock : ℤ) → Tracks window clock new_buckets_db (λ key. [])
  Tracks-new clock = record {
    at_key = λ k.
        rw times_of_new (record { old = []; split = refl; stale = tt; sorted = tt; past = tt });
  }

  run-replies :
      (calls : List Call) (clock : ℤ) (l : BucketsDb) (h : Ledger)
      → IsChronological clock calls
      → Tracks window clock l h
      → (run window calls l).0 ≡ (run_ledger window calls h).0
  unfolding run run_ledger
  run-replies [] clock l h c t = refl
  run-replies (attempt key limit now ∷ calls) clock l h (later, c) t =
      rw
        (
          reply-allow,
          verdict-judge (window key) now
              (IsSuffix-later (window key) clock now later (t.at_key key)) limit,
        )
        (ap (◌∷◌ (ok (judge limit (window key) now (h key)).0))
          (run-replies calls now _ _ c (Tracks-allow clock now limit key l h later t)))
  run-replies (reset key ∷ calls) clock l h c t =
      run-replies calls clock _ _ c (Tracks-reset clock key l h t)

  -- For any calls of `Allow` and `Reset` on any keys, in order of time, with one window for each
  -- key, the store that prunes its timelines gives the replies of the ledger that keeps every
  -- accepted attempt since the last reset and counts those inside the window.
  pub run-run_ledger :
      (calls : List Call) (clock : ℤ)
      → IsChronological clock calls
      → (run window calls new_buckets_db).0 ≡ (run_ledger window calls (λ key. [])).0
  run-run_ledger calls clock c = run-replies calls clock _ _ c (Tracks-new clock)
