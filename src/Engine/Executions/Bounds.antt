-- ===== src/Engine/Executions/Bounds.antt =====
-- What a stream of executions holds back, over every sequence of messages.
use ibkr_go.Prelude.{
  or_else_cases, ℕ, ◌≤◌, ℤ, String, ◌≡◌, refl, inl, Bool, true, false, not, Option, none, some,
  List, [], ◌∷◌, ◌++◌, arith, leb, if_both, if_cases, length, length-append, All, Result, ok, err,
}
use ibkr_go.Errors.Tree.{Err}
use ibkr_go.Streams.Subscription.{started, snapshot_complete, new_subscription, expect_snapshot}
use ibkr_go.Engine.Executions.Correlations.{
  CommissionReport, Entry, Correlation, new_execution_correlation, new_entry, find_entry, overflow,
  entry, queue_pending, complete_snapshot, clear, ends_with,
}
use ibkr_go.Engine.Executions.{
  Execution, Executions, ExecutionMessage, commission_report, execution_detail, executions_end,
  cancelled, read, after_cancel, queued, commission_at, commission_new, handle_commission,
  execution_at, execution_new, handle_execution, end_executions, act, act_all, new_executions,
  start_stream,
}
use ibkr_go.Engine.Executions.Held.{
  held, Delivered, held-write, length-write, held-append, held-seen, length-seen, write-Delivered,
  append-Delivered, seen-Delivered, find-append,
}
use ibkr_go.Engine.Executions.Emission.{
  Inv, terminate-Inv, FeeSent, emit_state-Live, cancel-Live, clear-Bounded,
}
use ibkr_go.Engine.Executions.Flush.{emit_fee-FeeSent, seen_execution-Inv}

-- An entry that is there or was made.
Found : {X : Type 0} → ℕ → String → Executions X → Result Err Entry × Correlation → Type 0
Found n id s (err e, c) = Inv n (record s { correlation = c })
Found n id s (ok en, c) =
    Inv n (record s { correlation = c }) × (find_entry id c.by_exec_id ≡ some en)

entry-Found :
    {X : Type 0} {n : ℕ} (id : String) (s : Executions X)
    → Inv n s
    → Found n id s (entry id s.correlation)
unfolding entry Found
entry-Found {X} {n} id s i =
    let c = s.correlation in
    or_else_cases (Found n id s) (find_entry id c.by_exec_id)
      (λ en found. (record { bounded = i.bounded; delivered = i.delivered; live = i.live }, found))
      (λ missing.
        if_cases (Found n id s) (leb c.limit (length c.by_exec_id))
          (λ full. record { bounded = i.bounded; delivered = i.delivered; live = i.live })
          (λ room. (
            record {
              bounded = record {
                limit_is = i.bounded.limit_is;
                pending_is = i.bounded.pending_is;
                counted = omega (arith, i.bounded.counted, held-append id c.by_exec_id);
                reports = i.bounded.reports;
                ids = ground (
                  arith,
                  room,
                  i.bounded.limit_is,
                  length-append c.by_exec_id ((id, new_entry) ∷ []),
                );
              };
              delivered = append-Delivered id c.by_exec_id i.delivered;
              live = i.live;
            },
            find-append id c.by_exec_id missing,
          )))

module _ {X : Type 0} (admission : Option Err) (execution_error : Execution X → Option Err)
    (fee_error : CommissionReport → Option Err) where
  after_cancel-Inv :
      {n : ℕ} (s : Executions X)
      → Inv n s
      → Inv n (after_cancel admission execution_error fee_error s)
  unfolding after_cancel clear
  after_cancel-Inv {n} s i =
      if_both (Inv n) s.sub.is_owned i
        (record { bounded = clear-Bounded i.bounded; delivered = tt; live = i.live })

  queue-Inv :
      {n : ℕ} (en : Entry) (report : CommissionReport) (s : Executions X)
      → find_entry report.exec_id s.correlation.by_exec_id ≡ some en
      → en.execution_seen ≡ false
      → Inv n s
      → s.sub.is_owned ≡ true
      → Inv n (
          queued admission execution_error fee_error
            (queue_pending report.exec_id en report s.correlation)
            s)
  unfolding queue_pending
  queue-Inv {n} en report s found unseen i owned =
      let c = s.correlation in
      let new : Entry = record en { pending = en.pending ++ (report ∷ []) } in
      let Queued =
        λ (p : Option Err × Correlation). Inv n (queued admission execution_error fee_error p s) in
      if_both Queued (ends_with report en.pending)
        (record { bounded = i.bounded; delivered = i.delivered; live = i.live })
        (if_cases Queued (leb c.pending_limit c.pending_reports)
          (λ full. terminate-Inv admission execution_error fee_error overflow s i.bounded owned)
          (λ room. record {
            bounded = record {
              limit_is = i.bounded.limit_is;
              pending_is = i.bounded.pending_is;
              counted = omega (
                arith,
                i.bounded.counted,
                held-write report.exec_id new en c.by_exec_id found,
                length-append en.pending (report ∷ []),
              );
              reports = ground (arith, room, i.bounded.pending_is);
              ids = omega (arith, i.bounded.ids, length-write report.exec_id new c.by_exec_id);
            };
            delivered =
                write-Delivered report.exec_id new c.by_exec_id (λ key. inl unseen) i.delivered;
            live = i.live;
          }))

  commission_at-Inv :
      {n : ℕ} (en : Entry) (report : CommissionReport) (s : Executions X)
      → find_entry report.exec_id s.correlation.by_exec_id ≡ some en
      → Inv n s
      → s.sub.is_owned ≡ true
      → Inv n (commission_at admission execution_error fee_error en report s)
  unfolding commission_at FeeSent
  commission_at-Inv {n} en report s found i owned =
      if_cases (Inv n) (not en.execution_seen)
        (λ unseen. queue-Inv en report s found (ground (arith, unseen)) i owned)
        (λ seen.
          (emit_fee-FeeSent admission execution_error fee_error report.exec_id en report s found i
            owned).0)

  commission_new-Inv :
      {n : ℕ} (p : Result Err Entry × Correlation) (report : CommissionReport) (s : Executions X)
      → Found n report.exec_id s p
      → s.sub.is_owned ≡ true
      → Inv n (commission_new admission execution_error fee_error p report s)
  unfolding Found
  commission_new-Inv (err e, c) report s i owned =
      terminate-Inv admission execution_error fee_error e (record s { correlation = c }) i.bounded
        owned
  commission_new-Inv (ok en, c) report s (i, found) owned =
      commission_at-Inv en report (record s { correlation = c }) found i owned

  handle_commission-Inv :
      {n : ℕ} (report : CommissionReport) (s : Executions X)
      → Inv n s
      → s.sub.is_owned ≡ true
      → Inv n (handle_commission admission execution_error fee_error report s)
  unfolding handle_commission
  handle_commission-Inv {n} report s i owned =
      or_else_cases (Inv n) (find_entry report.exec_id s.correlation.by_exec_id)
        (λ en found. commission_at-Inv en report s found i owned)
        (λ missing. if_both (Inv n) s.correlation.is_complete i (
          commission_new-Inv (entry report.exec_id s.correlation) report s
            (entry-Found report.exec_id s i) owned))

  execution_at-Inv :
      {n : ℕ} (e : Option Err) (x : Execution X) (en : Entry) (s : Executions X)
      → find_entry x.exec_id s.correlation.by_exec_id ≡ some en
      → Inv n s
      → s.sub.is_owned ≡ true
      → Inv n (execution_at admission execution_error fee_error e x en s)
  execution_at-Inv (some e) x en s found i owned =
      terminate-Inv admission execution_error fee_error e s i.bounded owned
  execution_at-Inv none x en s found i owned =
      seen_execution-Inv admission execution_error fee_error x en s found i owned

  execution_new-Inv :
      {n : ℕ} (p : Result Err Entry × Correlation) (x : Execution X) (s : Executions X)
      → Found n x.exec_id s p
      → s.sub.is_owned ≡ true
      → Inv n (execution_new admission execution_error fee_error p x s)
  unfolding Found
  execution_new-Inv (err e, c) x s i owned =
      terminate-Inv admission execution_error fee_error e (record s { correlation = c }) i.bounded
        owned
  execution_new-Inv (ok en, c) x s (i, found) owned =
      execution_at-Inv (execution_error x) x en (record s { correlation = c }) found i owned

  end_executions-Inv :
      {n : ℕ} (seq : ℕ) (s : Executions X)
      → Inv n s
      → Inv n (end_executions admission execution_error fee_error seq s)
  unfolding end_executions complete_snapshot
  end_executions-Inv {n} seq s i =
      let es = s.correlation.by_exec_id in
      after_cancel-Inv _ (record {
        bounded = record {
          limit_is = i.bounded.limit_is;
          pending_is = i.bounded.pending_is;
          counted = omega (arith, i.bounded.counted, held-seen es);
          reports = omega (arith, i.bounded.reports);
          ids = omega (arith, i.bounded.ids, length-seen es);
        };
        delivered = seen-Delivered es i.delivered;
        live = emit_state-Live admission snapshot_complete seq s.sub i.live;
      })

  act-Inv :
      {n : ℕ} (m : ExecutionMessage X) (s : Executions X)
      → Inv n s
      → Inv n (act admission execution_error fee_error m s)
  unfolding act handle_execution
  act-Inv {n} (commission_report report) s i =
      if_cases (Inv n) s.sub.is_owned (λ owned. handle_commission-Inv report s i owned) (λ gone. i)
  act-Inv {n} (execution_detail x) s i =
      if_cases (Inv n) s.sub.is_owned
        (λ owned.
          execution_new-Inv (entry x.exec_id s.correlation) x s (entry-Found x.exec_id s i) owned)
        (λ gone. i)
  act-Inv {n} (executions_end seq) s i =
      if_both (Inv n) s.sub.is_owned (end_executions-Inv seq s i) i
  act-Inv (cancelled e) s i = after_cancel-Inv _ (record {
    bounded = i.bounded;
    delivered = i.delivered;
    live = cancel-Live admission e s.sub;
  })
  act-Inv read s i = record { bounded = i.bounded; delivered = i.delivered; live = i.live }

  act_all-Inv :
      {n : ℕ} (ms : List (ExecutionMessage X)) (s : Executions X)
      → Inv n s
      → Inv n (act_all admission execution_error fee_error ms s)
  unfolding act_all
  act_all-Inv [] s i = i
  act_all-Inv (m ∷ ms) s i =
      act_all-Inv ms (act admission execution_error fee_error m s) (act-Inv m s i)

  -- Whatever messages and cancellations a stream of executions handles, and whatever the
  -- conversions refuse: it holds at most as many execution IDs, and at most as many fee reports
  -- in all, as its limit; its counter of held reports is their number; and no report is held
  -- back for an execution that was seen.
  pub act_all-bounded :
      (buffer : ℤ) (collects : Bool) (limit seq : ℕ) (ms : List (ExecutionMessage X))
      → let c =
          (act_all admission execution_error fee_error ms
            (start_stream seq (new_executions buffer collects limit))).correlation in
        (length c.by_exec_id ≤ limit)
        × (held c.by_exec_id ≤ limit)
        × (c.pending_reports ≡ held c.by_exec_id)
        × All Delivered c.by_exec_id
  unfolding new_executions new_execution_correlation new_subscription expect_snapshot start_stream
  act_all-bounded buffer collects limit seq ms =
      let i =
        act_all-Inv {n = limit} ms (start_stream seq (new_executions buffer collects limit))
          (record {
            bounded = record {
              limit_is = refl;
              pending_is = refl;
              counted = refl;
              reports = omega arith;
              ids = omega arith;
            };
            delivered = tt;
            live =
                emit_state-Live none started seq
                  (expect_snapshot (new_subscription buffer collects)) (λ o. refl);
          }) in
      (
        i.bounded.ids,
        omega (arith, i.bounded.counted, i.bounded.reports),
        i.bounded.counted,
        i.delivered,
      )
