-- ===== src/Engine/Executions/Correlations.antt =====
-- engine_orders.go: executionCorrelation, which holds fee reports back until their execution was
-- seen. The map is a list of its entries, of which the first with a key counts. A pointer to an entry
-- is its key: an entry is not used once the map is cleared.
use ibkr_go.Prelude.{
  ℕ, ◌+◌, ◌-◌, String, Bool, true, false, ◌&&◌, Option, none, some, List, [], ◌∷◌, ◌++◌, leb,
  if◌then◌else◌, length, Result, ok, err, str_eq,
}
use ibkr_go.Errors.Tree.{Err, Sentinel, sentinel}

pub record CommissionReport : Type 0 where
  pub exec_id : String
  pub commission : String
  pub currency : String
  pub realized_pnl : String
  pub yield : String
  pub yield_redemption_date : String

-- a == b
abbrev pub same_report : CommissionReport → CommissionReport → Bool
same_report a b =
    str_eq a.exec_id b.exec_id
    && (str_eq a.commission b.commission
        && (str_eq a.currency b.currency
            && (str_eq a.realized_pnl b.realized_pnl
                && (str_eq a.yield b.yield
                    && str_eq a.yield_redemption_date b.yield_redemption_date))))

-- `delivered` is none while hasDelivered is false.
pub record Entry : Type 0 where
  pub execution_seen : Bool
  pub pending : List CommissionReport
  pub delivered : Option CommissionReport

pub record Correlation : Type 0 where
  pub limit : ℕ
  pub pending_limit : ℕ
  pub by_exec_id : List (String × Entry)
  pub pending_reports : ℕ
  pub is_complete : Bool

unfoldable pub new_execution_correlation : ℕ → Correlation
new_execution_correlation limit = record {
  limit = limit;
  pending_limit = limit;
  by_exec_id = [];
  pending_reports = 0;
  is_complete = false;
}

abbrev pub new_entry : Entry
new_entry = record { execution_seen = false; pending = []; delivered = none }

unfoldable pub find_entry : String → List (String × Entry) → Option Entry
find_entry id [] = none
find_entry id ((key, e) ∷ es) = if str_eq id key then some e else find_entry id es

-- A write through the pointer to an entry.
unfoldable pub write_entry : String → Entry → List (String × Entry) → List (String × Entry)
write_entry id new [] = []
write_entry id new ((key, e) ∷ es) =
    if str_eq id key then (key, new) ∷ es else (key, e) ∷ write_entry id new es

-- executionCorrelationOverflow, whose text names the resource
abbrev pub overflow : Err
overflow = sentinel Sentinel.execution_correlation_overflow

unfoldable pub entry : String → Correlation → Result Err Entry × Correlation
unfolding find_entry
entry id c = elim (find_entry id c.by_exec_id) [
  | some e ↦ (ok e, c)
  | none ↦
      if leb c.limit (length c.by_exec_id)
      then (err overflow, c)
      else (ok new_entry, record c { by_exec_id = c.by_exec_id ++ ((id, new_entry) ∷ []) })
]

-- entry.pending[len(entry.pending)-1] == report, of a list that is not empty
unfoldable pub ends_with : CommissionReport → List CommissionReport → Bool
ends_with r [] = false
ends_with r (x ∷ []) = same_report x r
ends_with r (x ∷ y ∷ xs) = ends_with r (y ∷ xs)

unfoldable pub queue_pending :
    String → Entry → CommissionReport → Correlation → Option Err × Correlation
unfolding ends_with write_entry
queue_pending id e report c =
    if ends_with report e.pending
    then (none, c)
    else (if leb c.pending_limit c.pending_reports then (some overflow, c) else (
      none,
      record c {
        by_exec_id =
            write_entry id (record e { pending = e.pending ++ (report ∷ []) }) c.by_exec_id;
        pending_reports = c.pending_reports + 1;
      },
    ))

-- The count never falls below the reports of one entry, so the difference is that of integers.
unfoldable pub take_pending : String → Entry → Correlation → List CommissionReport × Correlation
unfolding write_entry
take_pending id e c = (
  e.pending,
  record c {
    by_exec_id = write_entry id (record e { pending = [] }) c.by_exec_id;
    pending_reports = c.pending_reports - length e.pending;
  },
)

-- The loop of completeSnapshot: the entries that stay, and the number of reports of the others.
unfoldable pub unseen_reports : List (String × Entry) → ℕ
unseen_reports [] = 0
unseen_reports ((key, e) ∷ es) =
    if e.execution_seen then unseen_reports es else length e.pending + unseen_reports es

unfoldable pub seen_entries : List (String × Entry) → List (String × Entry)
seen_entries [] = []
seen_entries ((key, e) ∷ es) =
    if e.execution_seen then (key, e) ∷ seen_entries es else seen_entries es

unfoldable pub complete_snapshot : Correlation → Correlation
unfolding unseen_reports seen_entries
complete_snapshot c = record c {
  by_exec_id = seen_entries c.by_exec_id;
  pending_reports = c.pending_reports - unseen_reports c.by_exec_id;
  is_complete = true;
}

unfoldable pub clear : Correlation → Correlation
clear c = record c { by_exec_id = []; pending_reports = 0; is_complete = false }
