-- ===== src/Engine/Executions.antt =====
-- engine_orders.go: the handlers of subscribeExecutions, which send an execution's fee reports after it.
pub mod Correlations
pub mod Held
pub mod Emission
pub mod Flush
pub mod Bounds
use ibkr_go.Prelude.{
  ℕ, zero, suc, ◌+◌, ◌-◌, ◌*◌, ◌/◌, ◌%◌, ◌^◌, ◌≤◌, ◌<◌, max, ℤ, pos, negsuc, ltz, is_negative,
  int_eq, int_eq-eq, String, string_append, ◌≡◌, refl, sym, ap, fun_ext, ◌∙◌, subst, ◌≢◌, ◌↔◌, ◌⊎◌,
  inl, inr, Bool, true, false, not, ◌&&◌, ◌||◌, Option, none, some, List, [], ◌∷◌, ◌++◌, map,
  append_assoc, append-nil, arith, ltb, leb, ◌==◌, if◌then◌else◌, ltb→lt, lt→ltb, le→ltb, ==_iff,
  Bool-cases, Option-cases, if_both, if_cases, or_else_both, Memᴰ, any-mem, all-mem, length, take,
  drop, length-append, take-append-drop, length-take, length-drop, take-append_left,
  drop-append_left, all, any, All, Result, ok, err, ◌>>◌, reject, is_space, trim_space, is_empty,
  is_blank, is_one_of, is_blank-is_empty, is_one_of-mem, str_eq, eq_iff,
}
use ibkr_go.Errors.Tree.{Err, Sentinel, sentinel}
use ibkr_go.Streams.Subscription.{
  Subscription, started, snapshot_complete, new_subscription, expect_snapshot, cancel_from_actor,
  emit, emit_state,
}
use ibkr_go.Engine.Executions.Correlations.{
  CommissionReport, same_report, Entry, Correlation, new_execution_correlation, new_entry,
  find_entry, write_entry, overflow, entry, ends_with, queue_pending, take_pending, unseen_reports,
  seen_entries, complete_snapshot, clear,
}

pub record Execution (X : Type 0) : Type 0 where
  pub exec_id : String
  pub detail : X

pub data ExecutionUpdate (X : Type 0) : Type 0 where
  execution_update : Execution X → ExecutionUpdate X
  fee_update : CommissionReport → ExecutionUpdate X

-- What the closures of subscribeExecutions share. `collect_limit` is cfg.executionCorrelationLimit.
pub record Executions (X : Type 0) : Type 0 where
  pub sub : Subscription (ExecutionUpdate X)
  pub correlation : Correlation
  pub collect_limit : ℕ
  pub collected_executions : ℕ
  pub collected_fees : ℕ

pub data ExecutionMessage (X : Type 0) : Type 0 where
  commission_report : CommissionReport → ExecutionMessage X
  execution_detail : Execution X → ExecutionMessage X
  executions_end : ℕ → ExecutionMessage X
  cancelled : Option Err → ExecutionMessage X
  read : ExecutionMessage X

-- `admission` is the answer to a cancellation, `execution_error` and `fee_error` what fromCodecExecution
-- and fromCodecCommission refuse.
module _ {X : Type 0} (admission : Option Err) (execution_error : Execution X → Option Err)
    (fee_error : CommissionReport → Option Err) where
  -- deleteKeyedRoute runs the route's cleanup, which is clear.
  unfoldable pub after_cancel : Executions X → Executions X
  unfolding clear
  after_cancel s = if s.sub.is_owned then s else record s { correlation = clear s.correlation }

  unfoldable pub terminate : Err → Executions X → Executions X
  unfolding after_cancel
  terminate e s =
      if s.sub.is_owned
      then after_cancel (record s { sub = cancel_from_actor admission (some e) s.sub })
      else s

  abbrev pub emitted : Subscription (ExecutionUpdate X) × Bool → Executions X → Executions X × Bool
  emitted (sub, sent) s = (after_cancel (record s { sub = sub }), sent)

  unfoldable pub emit_update : ExecutionUpdate X → Executions X → Executions X × Bool
  unfolding after_cancel
  emit_update u s = emitted (emit admission u s.sub) s

  unfoldable pub emit_execution : Execution X → Executions X → Executions X × Bool
  unfolding emit_update terminate
  emit_execution x s =
      if not s.sub.collect_snapshot
      then emit_update (execution_update x) s
      else (if leb s.collect_limit s.collected_executions
          then (terminate overflow s, false)
          else emit_update (execution_update x)
              (record s { collected_executions = s.collected_executions + 1 }))

  abbrev pub was_delivered : CommissionReport → Option CommissionReport → Bool
  was_delivered report none = false
  was_delivered report (some d) = same_report d report

  abbrev pub deliver_fee :
      Option Err → String → Entry → CommissionReport → Executions X → Executions X × Bool
  deliver_fee (some e) id en report s = (terminate e s, false)
  deliver_fee none id en report s = emit_update (fee_update report) (record s {
    correlation = record (s.correlation) {
      by_exec_id = write_entry id (record en { delivered = some report }) s.correlation.by_exec_id;
    };
  })

  unfoldable pub emit_fee : String → Entry → CommissionReport → Executions X → Executions X × Bool
  unfolding emit_update terminate write_entry
  emit_fee id en report s =
      if was_delivered report en.delivered
      then (s, true)
      else (if not s.sub.collect_snapshot
          then deliver_fee (fee_error report) id en report s
          else (if leb s.collect_limit s.collected_fees
              then (terminate overflow s, false)
              else deliver_fee (fee_error report) id en report
                  (record s { collected_fees = s.collected_fees + 1 })))

  -- The loop over the reports that were held back; it ends at an emission that fails.
  unfoldable pub emit_fees : String → List CommissionReport → Executions X → Executions X
  unfolding find_entry emit_fee
  emit_fees id [] s = s
  emit_fees id (report ∷ reports) s = elim (find_entry id s.correlation.by_exec_id) [
    | none ↦ s
    | some en ↦
        let sent = emit_fee id en report s in
        let rest = emit_fees id reports sent.0 in if sent.1 then rest else sent.0
  ]

  unfoldable pub flush : String → Executions X → Executions X
  unfolding find_entry take_pending emit_fees
  flush id s = elim (find_entry id s.correlation.by_exec_id) [
    | none ↦ s
    | some en ↦
        let taken = take_pending id en s.correlation in
        emit_fees id taken.0 (record s { correlation = taken.1 })
  ]

  abbrev pub queued : Option Err × Correlation → Executions X → Executions X
  queued (none, c) s = record s { correlation = c }
  queued (some e, c) s = terminate e (record s { correlation = c })

  unfoldable pub commission_at : Entry → CommissionReport → Executions X → Executions X
  unfolding terminate queue_pending emit_fee
  commission_at en report s =
      if not en.execution_seen
      then queued (queue_pending report.exec_id en report s.correlation) s
      else (emit_fee report.exec_id en report s).0

  abbrev pub commission_new :
      Result Err Entry × Correlation → CommissionReport → Executions X → Executions X
  commission_new (err e, c) report s = terminate e (record s { correlation = c })
  commission_new (ok en, c) report s = commission_at en report (record s { correlation = c })

  unfoldable pub handle_commission : CommissionReport → Executions X → Executions X
  unfolding commission_at terminate find_entry entry
  handle_commission report s = elim (find_entry report.exec_id s.correlation.by_exec_id) [
    | some en ↦ commission_at en report s
    | none ↦
        if s.correlation.is_complete
        then s
        else commission_new (entry report.exec_id s.correlation) report s
  ]

  -- entry.executionSeen = true
  abbrev pub mark_seen : String → Entry → Executions X → Executions X
  mark_seen id en s = record s {
    correlation = record (s.correlation) {
      by_exec_id = write_entry id (record en { execution_seen = true }) s.correlation.by_exec_id;
    };
  }

  unfoldable pub seen_execution : Execution X → Entry → Executions X → Executions X
  unfolding write_entry emit_execution flush
  seen_execution x en s =
      let sent = emit_execution x (mark_seen x.exec_id en s) in
      if sent.1 then flush x.exec_id sent.0 else sent.0

  abbrev pub execution_at : Option Err → Execution X → Entry → Executions X → Executions X
  execution_at (some e) x en s = terminate e s
  execution_at none x en s = seen_execution x en s

  abbrev pub execution_new :
      Result Err Entry × Correlation → Execution X → Executions X → Executions X
  execution_new (err e, c) x s = terminate e (record s { correlation = c })
  execution_new (ok en, c) x s =
      execution_at (execution_error x) x en (record s { correlation = c })

  unfoldable pub handle_execution : Execution X → Executions X → Executions X
  unfolding entry terminate seen_execution
  handle_execution x s = execution_new (entry x.exec_id s.correlation) x s

  unfoldable pub end_executions : ℕ → Executions X → Executions X
  unfolding complete_snapshot after_cancel
  end_executions seq s = after_cancel (record s {
    correlation = complete_snapshot s.correlation;
    sub = emit_state admission snapshot_complete seq none s.sub;
  })

  abbrev pub drop_first : {A : Type 0} → List A → List A
  drop_first [] = []
  drop_first (x ∷ xs) = xs

  -- A message reaches the handlers while the route is in e.keyed; the reader reads at any time.
  unfoldable pub act : ExecutionMessage X → Executions X → Executions X
  unfolding handle_commission handle_execution end_executions after_cancel
  act (commission_report report) s = if s.sub.is_owned then handle_commission report s else s
  act (execution_detail x) s = if s.sub.is_owned then handle_execution x s else s
  act (executions_end seq) s = if s.sub.is_owned then end_executions seq s else s
  act (cancelled e) s = after_cancel (record s { sub = cancel_from_actor admission e s.sub })
  act read s = record s { sub = record (s.sub) { events = drop_first s.sub.events } }

  unfoldable pub act_all : List (ExecutionMessage X) → Executions X → Executions X
  unfolding act
  act_all [] s = s
  act_all (m ∷ ms) s = act_all ms (act m s)

unfoldable pub new_executions : {X : Type 0} → ℤ → Bool → ℕ → Executions X
unfolding new_execution_correlation new_subscription expect_snapshot
new_executions buffer collects limit = record {
  sub = expect_snapshot (new_subscription buffer collects);
  correlation = new_execution_correlation limit;
  collect_limit = limit;
  collected_executions = 0;
  collected_fees = 0;
}

-- sub.emitState(StreamStarted, ...), for which a new queue has room
unfoldable pub start_stream : {X : Type 0} → ℕ → Executions X → Executions X
unfolding emit_state
start_stream seq s = record s { sub = emit_state none started seq none s.sub }
