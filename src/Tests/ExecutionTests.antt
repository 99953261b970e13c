-- ===== src/Tests/ExecutionTests.antt =====
-- Fee reports that come in front of their execution.
use ibkr_go.Prelude.{
  ℕ, pos, ◌≤◌, ◌≡◌, refl, false, none, String, Option, List, [], ◌∷◌, length, All,
}
use ibkr_go.Errors.Tree.{Err}
use ibkr_go.Streams.Subscription.{
  started, lifecycle_event, emit_state, note_state, data_event, new_subscription, expect_snapshot,
  emit, send_event, buffer_size,
}
use ibkr_go.Engine.Executions.Correlations.{
  CommissionReport, new_execution_correlation, entry, find_entry, write_entry, queue_pending,
  take_pending, ends_with,
}
use ibkr_go.Engine.Executions.{
  Execution, execution_update, fee_update, ExecutionMessage, commission_report, execution_detail,
  act, act_all, new_executions, start_stream, handle_commission, handle_execution, commission_at,
  seen_execution, emit_update, emit_execution, emit_fee, emit_fees, flush, after_cancel,
}
use ibkr_go.Engine.Executions.Held.{held, Delivered}
use ibkr_go.Engine.Executions.Bounds.{act_all-bounded}

abbrev no_execution_error : Execution ℕ → Option Err
no_execution_error x = none

abbrev no_fee_error : CommissionReport → Option Err
no_fee_error r = none

abbrev fee : String → String → CommissionReport
fee id amount = record {
  exec_id = id;
  commission = amount;
  currency = "USD";
  realized_pnl = "";
  yield = "";
  yield_redemption_date = "";
}

abbrev fill : String → Execution ℕ
fill id = record { exec_id = id; detail = 100 }

-- The second report of a repeats the first, and b has no execution.
abbrev early_fees : List (ExecutionMessage ℕ)
early_fees =
    commission_report (fee "a" "1.00")
    ∷ commission_report (fee "a" "1.00")
    ∷ commission_report (fee "b" "2.00")
    ∷ execution_detail (fill "a")
    ∷ commission_report (fee "a" "1.00")
    ∷ commission_report (fee "a" "1.50")
    ∷ []

act_all-bounded_example :
    let c =
      (act_all none no_execution_error no_fee_error early_fees
        (start_stream 1 (new_executions (pos 16) false 4))).correlation in
    (length c.by_exec_id ≤ 4)
    × (held c.by_exec_id ≤ 4)
    × (c.pending_reports ≡ held c.by_exec_id)
    × All Delivered c.by_exec_id
act_all-bounded_example =
    act_all-bounded none no_execution_error no_fee_error (pos 16) false 4 1 early_fees

-- The fee of a follows its execution once, and its correction is sent on.
fees_follow :
    (act_all none no_execution_error no_fee_error early_fees
      (start_stream 1 (new_executions (pos 16) false 4))).sub.events
    ≡ lifecycle_event started 1 none
      ∷ data_event (execution_update (fill "a")) 1
      ∷ data_event (fee_update (fee "a" "1.00")) 1
      ∷ data_event (fee_update (fee "a" "1.50")) 1
      ∷ []
unfolding start_stream emit_state note_state act_all act new_executions new_execution_correlation
    new_subscription buffer_size expect_snapshot handle_commission handle_execution commission_at
    seen_execution entry find_entry write_entry queue_pending take_pending ends_with emit_update
    emit_execution emit_fee emit_fees flush after_cancel emit send_event
fees_follow = refl
