-- ===== src/Redis/Keeps.antt =====
-- What a sorted set of Redis has to do with the attempts on its key.
use otus_anti_bruteforce.Base.{
  ℕ, true, false, List, [], ◌∷◌, ◌++◌, Option, none, some, ◌≡◌, refl, sym, ap, All, All_map,
  All-append, length, Bool-cases, inl, inr, arith,
}
use otus_anti_bruteforce.Base.Int.{ℤ, pos, ◌+ℤ◌, ◌-ℤ◌, ◌≤ℤ◌, leb_ℤ}
use otus_anti_bruteforce.Base.Text.{Bytes, beq_refl}
use otus_anti_bruteforce.Base.GoMap.{GoMap, insert}
use otus_anti_bruteforce.Memory.Buckets.Pruning.{count_after}
use otus_anti_bruteforce.Redis.{member}
use otus_anti_bruteforce.Redis.Window.{is_used}
use otus_anti_bruteforce.Redis.Members.{
  scores_after, scores_after-insert, scores_after-without_range, length-without_range, All-insert,
  All-without_range, lookup_unused,
}
use otus_anti_bruteforce.Redis.Server.{Stored, no_set, alive, alive_by, without_range}
use otus_anti_bruteforce.Redis.Transaction.{with_deadline}
use otus_anti_bruteforce.Base.Int.{pos_part, neg_part, leb_ℤ→le, -ℤ_parts, +ℤ_parts}
use otus_anti_bruteforce.Memory.Buckets.Pruning.{count_after-append, count_after_stale}

-- A set with the attempts on its key, at a time in milliseconds: what it lacks is older than the
-- window, and its deadline is not before the end of the window of any attempt.
pub record Keeps (w : ℕ) (clock : ℤ) (used : List (Bytes × Bytes)) (key : Bytes) (st : Stored)
    (h : List ℤ) : Type 0 where
  pub same : (cut : ℤ) → clock -ℤ pos w ≤ℤ cut → scores_after cut st.members ≡ count_after cut h
  pub low : All (λ e. pos 0 ≤ℤ e.1) st.members
  pub named : All (λ e. is_used key e.0 used ≡ true) st.members
  pub past : All (λ t. t ≤ℤ clock) h
  pub life : (d : ℤ) → st.deadline ≡ some d → All (λ t. t +ℤ pos w ≤ℤ d) h

module _ (w : ℕ) (key : Bytes) where
  pub Keeps-none : (clock : ℤ) (used : List (Bytes × Bytes)) → Keeps w clock used key no_set []
  Keeps-none clock used = record {
    same = λ cut h. refl;
    low = tt;
    named = tt;
    past = tt;
    life = λ d h. tt;
  }

  pub Keeps-later :
      (clock now : ℤ) {used : List (Bytes × Bytes)} (st : Stored) {h : List ℤ}
      → clock ≤ℤ now
      → Keeps w clock used key st h
      → Keeps w now used key st h
  Keeps-later clock now st later k = record {
    same = λ cut h. k.same cut (omega (arith, -ℤ_parts clock (pos w), -ℤ_parts now (pos w)));
    low = k.low;
    named = k.named;
    past = All_map (λ t h. omega arith) _ k.past;
    life = k.life;
  }

  Keeps-expired :
      (now d : ℤ) {used : List (Bytes × Bytes)} (st : Stored) {h : List ℤ}
      → d ≤ℤ now
      → st.deadline ≡ some d
      → Keeps w now used key st h
      → Keeps w now used key no_set h
  Keeps-expired now d st due e k = record {
    same = λ cut after. sym (
        count_after_stale cut _ (
          All_map (λ t h. omega (arith, -ℤ_parts now (pos w), +ℤ_parts t (pos w))) _ (k.life d e)));
    low = tt;
    named = tt;
    past = k.past;
    life = λ d' none_some. ground arith;
  }

  Keeps-alive_by :
      (now : ℤ) {used : List (Bytes × Bytes)} (st : Stored) (o : Option ℤ) {h : List ℤ}
      → st.deadline ≡ o
      → Keeps w now used key st h
      → Keeps w now used key (alive_by now st o) h
  Keeps-alive_by now st none e k = k
  Keeps-alive_by now st (some d) e k = elim (Bool-cases (leb_ℤ d now)) [
    | inl due ↦ rw due (Keeps-expired now d st (leb_ℤ→le d now due) e k)
    | inr early ↦ rw early k
  ]

  pub Keeps-alive :
      (now : ℤ) {used : List (Bytes × Bytes)} (st : Stored) {h : List ℤ}
      → Keeps w now used key st h
      → Keeps w now used key (alive now st) h
  Keeps-alive now st k = Keeps-alive_by now st st.deadline refl k

  -- A set without members has no deadline, and else it has the one given.
  Keeps-with_deadline :
      (now d : ℤ) (used : List (Bytes × Bytes)) (ms : GoMap ℤ) (h : List ℤ)
      → ((cut : ℤ) → now -ℤ pos w ≤ℤ cut → scores_after cut ms ≡ count_after cut h)
      → All (λ e. pos 0 ≤ℤ e.1) ms
      → All (λ e. is_used key e.0 used ≡ true) ms
      → All (λ t. t ≤ℤ now) h
      → now +ℤ pos w ≤ℤ d
      → Keeps w now used key (with_deadline d ms) h
  Keeps-with_deadline now d used [] h same low named past long = record {
    same = same;
    low = low;
    named = named;
    past = past;
    life = λ d' none_some. ground arith;
  }
  Keeps-with_deadline now d used (e ∷ ms) h same low named past long = record {
    same = same;
    low = low;
    named = named;
    past = past;
    life = λ d' that.
        let at : d ≡ d' = cc in
        All_map
          (λ t before.
            omega (arith, +ℤ_parts t (pos w), +ℤ_parts now (pos w), ap pos_part at, ap neg_part at))
          _ past;
  }

  pub Keeps-attempt :
      (now : ℤ) {used : List (Bytes × Bytes)} (sfx : ℕ) (d : ℤ) (st : Stored) {h : List ℤ}
      → pos 0 ≤ℤ now
      → now +ℤ pos w ≤ℤ d
      → is_used key (member now sfx) used ≡ false
      → Keeps w now used key st h
      → Keeps w now
          ((key, member now sfx) ∷ used)
          key
          (with_deadline d
            (without_range (pos 0) (now -ℤ pos w) (insert (member now sfx) now st.members)))
          (h ++ now ∷ [])
  Keeps-attempt now {used} sfx d st {h} epoch long fresh k =
      let m = member now sfx in
      Keeps-with_deadline now d ((key, m) ∷ used) _ _
        (λ cut after. rw (scores_after-without_range (pos 0) (now -ℤ pos w) cut _ after) (
          omega (
            arith,
            scores_after-insert cut now m st.members (lookup_unused key m used _ k.named fresh),
            count_after-append cut h (now ∷ []),
            k.same cut after,
          )))
        (All-without_range _ _ _ _ (All-insert _ m now st.members epoch k.low))
        (All-without_range _ _ _ _ (
          All-insert _ m now st.members (rw (beq_refl key, beq_refl m) refl)
            (All_map (λ e u. ground arith) _ k.named)))
        (All-append _ h _ k.past (omega arith, tt)) long

  pub length-attempt :
      (now : ℤ) {used : List (Bytes × Bytes)} (sfx : ℕ) (st : Stored) {h : List ℤ}
      → pos 0 ≤ℤ now
      → is_used key (member now sfx) used ≡ false
      → Keeps w now used key st h
      → length (without_range (pos 0) (now -ℤ pos w) (insert (member now sfx) now st.members))
        ≡ count_after (now -ℤ pos w) (h ++ now ∷ [])
  length-attempt now sfx st {h = h} epoch fresh k =
      let m = member now sfx in
      let cut = now -ℤ pos w in
      rw (length-without_range (pos 0) cut _ (All-insert _ m now st.members epoch k.low)) (
        omega (
          arith,
          scores_after-insert cut now m st.members (lookup_unused key m _ _ k.named fresh),
          count_after-append cut h (now ∷ []),
          k.same cut (omega arith),
        ))
