-- ===== src/Redis/Transaction.antt =====
-- The transaction of `Allow` as Redis runs it: what it answers and what it leaves.
use otus_anti_bruteforce.Base.{
  ℕ, [], ◌∷◌, Option, none, some, ◌≡◌, ◌⊎◌, refl, length, Bool-cases, inl, inr, if◌then◌else◌,
}
use otus_anti_bruteforce.Base.Int.{ℤ, pos, ◌+ℤ◌, ◌-ℤ◌, leb_ℤ}
use otus_anti_bruteforce.Base.Text.{Bytes, beq, beq_refl}
use otus_anti_bruteforce.Base.GoMap.{GoMap, insert}
use otus_anti_bruteforce.Base.Time.{milliseconds}
use otus_anti_bruteforce.Redis.{member, transaction, count_of}
use otus_anti_bruteforce.Redis.Server.{
  Stored, Sets, no_set, alive, alive_by, without_range, serve_one, serve,
}

-- What a transaction leaves of the set of its key.
abbrev pub kept_members : ℤ → Bytes → ℤ → Stored → GoMap ℤ
kept_members now m window st =
    without_range (pos 0) (now -ℤ milliseconds window) (insert m now (alive now st).members)

abbrev pub with_deadline : ℤ → GoMap ℤ → Stored
with_deadline d [] = no_set
with_deadline d (e ∷ ms) = record { members = e ∷ ms; deadline = some d }

-- A key that is there now still is there.
still_alive :
    (now : ℤ) (d : Option ℤ) (st new : Stored)
    → st.deadline ≡ d
    → alive_by now new (alive_by now st d).deadline ≡ new
still_alive now none st new h = rw h refl
still_alive now (some d) st new h = elim (Bool-cases (leb_ℤ d now)) [
  | inl gone ↦ rw gone refl
  | inr there ↦ rw (there, h, there) refl
]

list_cases : (ms : GoMap ℤ) → (ms ≡ []) ⊎ ((e : Bytes × ℤ) × (rest : GoMap ℤ) × (ms ≡ e ∷ rest))
list_cases [] = inl refl
list_cases (e ∷ ms) = inr (e, ms, refl)

module _ (ttl : ℤ → ℤ) (now : ℤ) (sfx : ℕ) (key : Bytes) (window : ℤ) where
  abbrev pub stored_after : Stored → Stored
  stored_after st =
      with_deadline (now +ℤ ttl (window +ℤ window)) (kept_members now (member now sfx) window st)

  pub serve-transaction :
      (sets : Sets)
      → (count_of (serve ttl now (transaction now sfx key window) sets).0
          ≡ pos (length (kept_members now (member now sfx) window (sets key))))
        × ((k : Bytes)
            → (serve ttl now (transaction now sfx key window) sets).1 k
              ≡ (if beq key k then stored_after (sets key) else sets k))
  unfolding serve transaction
  serve-transaction sets =
      let m = member now sfx in
      let st = sets key in
      rw (serve_one, beq_refl key)
        (rw
          (still_alive now st.deadline st
            (record {
              members = insert m now (alive now st).members;
              deadline = (alive now st).deadline;
            })
            refl)
          (elim (list_cases (kept_members now m window st)) [
            | inl none_left ↦ rw none_left (
              refl,
              λ k. elim (Bool-cases (beq key k)) [
                | inl same ↦ rw same refl
                | inr other ↦ rw (serve_one, other) refl
              ],
            )
            | inr (e, ms, kept) ↦ rw (kept) (
                rw
                  (still_alive now st.deadline st
                    (record { members = e ∷ ms; deadline = (alive now st).deadline }) refl)
                  (
                    refl,
                    λ k. elim (Bool-cases (beq key k)) [
                      | inl same ↦ rw same refl
                      | inr other ↦ rw (serve_one, other) refl
                    ],
                  ))
          ]))
