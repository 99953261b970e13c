-- ===== src/Engine/Executions/Flush.antt =====
-- An execution lets the fee reports that were held back for it go.
use ibkr_go.Prelude.{
  or_else_cases, ℕ, ◌+◌, ◌-◌, String, ◌≡◌, refl, sym, ap, ◌∙◌, subst, inl, inr, true, false, not,
  Option, some, List, [], ◌∷◌, arith, leb, if_both, if_cases, length, All,
}
use ibkr_go.Errors.Tree.{Err}
use ibkr_go.Engine.Executions.Correlations.{
  CommissionReport, Entry, Correlation, find_entry, write_entry, overflow, take_pending,
}
use ibkr_go.Engine.Executions.{
  Execution, Executions, was_delivered, emit_fee, emit_fees, flush, mark_seen, seen_execution,
}
use ibkr_go.Engine.Executions.Held.{
  held, Delivered, held-write, length-write, write-Delivered, find-write, write-write,
}
use ibkr_go.Engine.Executions.Emission.{
  Bounded, Inv, terminate-Inv, Sent, emit_execution-Sent, FeeSent, write-Bounded,
  deliver_fee-FeeSent,
}

module _ {X : Type 0} (admission : Option Err) (execution_error : Execution X → Option Err)
    (fee_error : CommissionReport → Option Err) where
  pub emit_fee-FeeSent :
      {n : ℕ} (id : String) (en : Entry) (report : CommissionReport) (s : Executions X)
      → find_entry id s.correlation.by_exec_id ≡ some en
      → Inv n s
      → s.sub.is_owned ≡ true
      → FeeSent n (emit_fee admission execution_error fee_error id en report s)
  unfolding emit_fee FeeSent
  emit_fee-FeeSent {n} id en report s found i owned =
      let deliver =
        deliver_fee-FeeSent admission execution_error fee_error (fee_error report) id en report in
      if_both (FeeSent n) (was_delivered admission execution_error fee_error report en.delivered)
        (i, inr owned)
        (if_both (FeeSent n) (not s.sub.collect_snapshot) (deliver s found i owned) (
          if_both (FeeSent n) (leb s.collect_limit s.collected_fees)
            (terminate-Inv admission execution_error fee_error overflow s i.bounded owned, inl refl)
            (deliver (record s { collected_fees = s.collected_fees + 1 }) found
              (record { bounded = i.bounded; delivered = i.delivered; live = i.live }) owned)))

  emit_fees-Inv :
      {n : ℕ} (id : String) (reports : List CommissionReport) (s : Executions X)
      → Inv n s
      → s.sub.is_owned ≡ true
      → Inv n (emit_fees admission execution_error fee_error id reports s)
  unfolding emit_fees FeeSent
  emit_fees-Inv id [] s i owned = i
  emit_fees-Inv {n} id (report ∷ reports) s i owned =
      or_else_cases (Inv n) (find_entry id s.correlation.by_exec_id)
        (λ en found.
          let sent = emit_fee admission execution_error fee_error id en report s in
          let (k, still) = emit_fee-FeeSent id en report s found i owned in
          if_cases (Inv n) sent.1
            (λ passed.
              emit_fees-Inv id reports sent.0 k
                (elim still [ inl unsent ↦ ground (arith, unsent, passed) | inr o ↦ o ]))
            (λ failed. k))
        (λ missing. i)

  -- The reports of an execution that is marked as seen are taken out before any is sent.
  flush-Inv :
      {n : ℕ} (id : String) (en : Entry) (es : List (String × Entry)) (s : Executions X)
      → find_entry id es ≡ some en
      → All Delivered es
      → s.correlation.by_exec_id ≡ write_entry id (record en { execution_seen = true }) es
      → Bounded n s.correlation
      → s.sub.is_owned ≡ true
      → s.sub.is_done ≡ false
      → Inv n (flush admission execution_error fee_error id s)
  unfolding flush take_pending
  flush-Inv {n} id en es s found d marked b owned open_sub =
      let seen : Entry = record en { execution_seen = true } in
      let there = ap (find_entry id) marked ∙ find-write id seen en es found in
      or_else_cases (Inv n) (find_entry id s.correlation.by_exec_id)
        (λ k now.
          let taken = write_entry id (record k { pending = [] }) s.correlation.by_exec_id in
          let held_left : held taken + length k.pending ≡ held s.correlation.by_exec_id + 0 =
            held-write id (record k { pending = [] }) k s.correlation.by_exec_id now in
          emit_fees-Inv id k.pending
            (record s {
              correlation = record (s.correlation) {
                by_exec_id = taken;
                pending_reports = s.correlation.pending_reports - length k.pending;
              };
            })
            (record {
              bounded = record {
                limit_is = b.limit_is;
                pending_is = b.pending_is;
                counted = omega (arith, b.counted, held_left);
                reports = omega (arith, b.reports);
                ids = omega (
                  arith,
                  b.ids,
                  length-write id (record k { pending = [] }) s.correlation.by_exec_id,
                );
              };
              delivered =
                  subst (All Delivered)
                    (sym (
                      ap (write_entry id (record k { pending = [] })) marked
                      ∙ write-write id seen (record k { pending = [] }) es))
                    (write-Delivered id (record k { pending = [] }) es (λ key. inr refl) d);
              live = λ o. open_sub;
            })
            owned)
        (λ missing. ground (arith, missing, there))

  pub seen_execution-Inv :
      {n : ℕ} (x : Execution X) (en : Entry) (s : Executions X)
      → find_entry x.exec_id s.correlation.by_exec_id ≡ some en
      → Inv n s
      → s.sub.is_owned ≡ true
      → Inv n (seen_execution admission execution_error fee_error x en s)
  unfolding seen_execution Sent
  seen_execution-Inv {n} x en s found i owned =
      let marked = mark_seen admission execution_error fee_error x.exec_id en s in
      let b : Bounded n marked.correlation =
        write-Bounded x.exec_id (record en { execution_seen = true }) en found refl i.bounded in
      elim (emit_execution-Sent admission execution_error fee_error x marked b owned
        (i.live owned)) [
          | inl (sent, same, still, open_sub) ↦ rw sent (
              flush-Inv x.exec_id en s.correlation.by_exec_id _ found i.delivered
                (ap (λ (c : Correlation). c.by_exec_id) same) (subst (Bounded n) (sym same) b) still
                open_sub)
          | inr (failed, k) ↦ rw failed k
        ]
