-- ===== src/Engine/Executions/Held.antt =====
-- The reports that a correlation holds back.
use ibkr_go.Prelude.{
  ℕ, ◌+◌, ◌≤◌, String, ◌≡◌, refl, ap, subst, ◌⊎◌, inl, inr, false, none, some, List, [], ◌∷◌, ◌++◌,
  arith, Bool-cases, if_both, length, All, str_eq, eq_iff,
}
use ibkr_go.Engine.Executions.Correlations.{
  Entry, new_entry, find_entry, write_entry, unseen_reports, seen_entries,
}

abbrev pub held : List (String × Entry) → ℕ
held [] = 0
held ((key, e) ∷ es) = length e.pending + held es

-- An entry whose execution was seen holds nothing back.
abbrev pub Delivered : String × Entry → Type 0
Delivered (key, e) = (e.execution_seen ≡ false) ⊎ (e.pending ≡ [])

same_entry : {k e : Entry} → some k ≡ some e → k ≡ e
same_entry {k} {e} h = cc

same_length : {k e : Entry} → some k ≡ some e → length k.pending ≡ length e.pending
same_length h = ap (λ (q : Entry). length q.pending) (same_entry h)

pub held-write :
    (id : String) (new e : Entry) (es : List (String × Entry))
    → find_entry id es ≡ some e
    → held (write_entry id new es) + length e.pending ≡ held es + length new.pending
unfolding find_entry write_entry
held-write id new e [] h = cc
held-write id new e ((key, k) ∷ es) h = elim (Bool-cases (str_eq id key)) [
  | inl c ↦ let h' = rw c at h in rw c (omega (arith, same_length h'))
  | inr c ↦ let h' = rw c at h in rw c (omega (arith, held-write id new e es h'))
]

pub length-write :
    (id : String) (new : Entry) (es : List (String × Entry))
    → length (write_entry id new es) ≡ length es
unfolding write_entry
length-write id new [] = refl
length-write id new ((key, k) ∷ es) = ground (arith, length-write id new es)

pub held-append :
    (id : String) (es : List (String × Entry)) → held (es ++ ((id, new_entry) ∷ [])) ≡ held es
held-append id [] = refl
held-append id ((key, k) ∷ es) = omega (arith, held-append id es)

pub held-seen : (es : List (String × Entry)) → held (seen_entries es) + unseen_reports es ≡ held es
unfolding seen_entries unseen_reports
held-seen [] = refl
held-seen ((key, e) ∷ es) = ground (arith, held-seen es)

pub length-seen : (es : List (String × Entry)) → length (seen_entries es) ≤ length es
unfolding seen_entries
length-seen [] = omega arith
length-seen ((key, e) ∷ es) = ground (arith, length-seen es)

pub write-Delivered :
    (id : String) (new : Entry) (es : List (String × Entry))
    → ((key : String) → Delivered (key, new))
    → All Delivered es
    → All Delivered (write_entry id new es)
unfolding write_entry
write-Delivered id new [] d h = tt
write-Delivered id new ((key, k) ∷ es) d h =
    if_both (All Delivered) (str_eq id key) (d key, h.1) (h.0, write-Delivered id new es d h.1)

pub append-Delivered :
    (id : String) (es : List (String × Entry))
    → All Delivered es
    → All Delivered (es ++ ((id, new_entry) ∷ []))
append-Delivered id [] h = (inl refl, tt)
append-Delivered id (e ∷ es) h = (h.0, append-Delivered id es h.1)

pub seen-Delivered :
    (es : List (String × Entry)) → All Delivered es → All Delivered (seen_entries es)
unfolding seen_entries
seen-Delivered [] h = tt
seen-Delivered ((key, e) ∷ es) h =
    if_both (All Delivered) e.execution_seen (h.0, seen-Delivered es h.1) (seen-Delivered es h.1)

pub find-Delivered :
    (id : String) (e : Entry) (es : List (String × Entry))
    → find_entry id es ≡ some e
    → All Delivered es
    → Delivered (id, e)
unfolding find_entry
find-Delivered id e [] h d = cc
find-Delivered id e ((key, k) ∷ es) h d = elim (Bool-cases (str_eq id key)) [
  | inl c ↦ let h' = rw c at h in subst (λ q. Delivered (id, q)) (same_entry h') d.0
  | inr c ↦ let h' = rw c at h in find-Delivered id e es h' d.1
]

pub find-write :
    (id : String) (new e : Entry) (es : List (String × Entry))
    → find_entry id es ≡ some e
    → find_entry id (write_entry id new es) ≡ some new
unfolding find_entry write_entry
find-write id new e [] h = cc
find-write id new e ((key, k) ∷ es) h = elim (Bool-cases (str_eq id key)) [
  | inl c ↦ rw c (rw c refl)
  | inr c ↦ let h' = rw c at h in rw c (rw c (find-write id new e es h'))
]

pub write-write :
    (id : String) (a b : Entry) (es : List (String × Entry))
    → write_entry id b (write_entry id a es) ≡ write_entry id b es
unfolding write_entry
write-write id a b [] = refl
write-write id a b ((key, k) ∷ es) = elim (Bool-cases (str_eq id key)) [
  | inl c ↦ rw c (rw c refl)
  | inr c ↦ rw c (rw c (ap (◌∷◌ (key, k)) (write-write id a b es)))
]

pub find-append :
    (id : String) (es : List (String × Entry))
    → find_entry id es ≡ none
    → find_entry id (es ++ ((id, new_entry) ∷ [])) ≡ some new_entry
unfolding find_entry
find-append id [] h = rw ((eq_iff id id).1 refl) refl
find-append id ((key, k) ∷ es) h = elim (Bool-cases (str_eq id key)) [
  | inl c ↦ let h' = rw c at h in cc
  | inr c ↦ let h' = rw c at h in rw c (find-append id es h')
]
