-- ===== src/RecentLogs.antt =====
-- web/src/components/RecentLogs.tsx: the table of the latest requests. `number_text` is the text that a
-- number is shown as, `date_text` the local form of a date.
pub mod View
use uni_llm.Prelude.{List, String, [], if◌then◌else◌, map, ◌<+>◌, ◌===◌, ◌∷◌}
use uni_llm.I18n.Shape.{Messages}
use uni_llm.Double.{Double}
use uni_llm.Dashboard.{LogEntry}

pub record LogRow : Type 0 where
  pub time : String
  pub model_name : String
  pub tokens : String
  pub cost : String
  pub latency : String
  pub status : String
  pub color : String

pub data LogTable : Type 0 where
  notice : String → LogTable
  table : (columns : List String) → (rows : List LogRow) → LogTable

module _ (d : Double) (number_text : d.Number → String) (date_text : String → String) where
  unfoldable pub log_row : LogEntry d.Number → LogRow
  log_row log = record {
    time = date_text log.created_at;
    model_name = log.model_name;
    tokens = number_text log.total_tokens;
    cost = "$" <+> d.to_fixed 6 log.cost;
    latency = number_text log.latency_ms <+> "ms";
    status = log.status;
    color = if log.status === "ok" then "var(--success)" else "var(--danger)";
  }

  unfoldable pub recent_logs : Messages → List (LogEntry d.Number) → LogTable
  recent_logs t [] = notice t.logs.no_requests
  recent_logs t (log ∷ others) =
      table
        (t.logs.col_time ∷ t.logs.col_model ∷ t.logs.col_tokens ∷ t.logs.col_cost
          ∷ t.logs.col_latency ∷ t.logs.col_status ∷ [])
        (map log_row (log ∷ others))
