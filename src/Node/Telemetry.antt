-- ===== src/Node/Telemetry.antt =====
-- node_server/node/telemetry.go, and the reports of `SendWithRetry` and `SendWithRetrySuper` in
-- node_server/node/send.go and super_send.go: what a sender tells the dashboard about a message. A
-- report that cannot be posted is lost.
pub mod Route
use dor.Base.{ℕ, suc, ◌+◌, List, [], ◌∷◌, Bytes, Result, ok, panic}
use dor.Strings.{codes}
use dor.Streams.Dashboard.{Event}

pub record TelEvent : Type 0 where
  pub from : Bytes
  pub to : Bytes
  pub type : Bytes
  pub msg : Bytes
  pub ex_id : Bytes
  pub hop : ℕ

-- What the dashboard decodes from a report whose texts are UTF-8, before it is stamped: it has no
-- field for the hop.
abbrev pub decoded_event : TelEvent → Event
decoded_event e = record {
  from = e.from;
  to = e.to;
  type = e.type;
  msg = e.msg;
  ex_id = e.ex_id;
  ts = 0;
}

-- `Telemetry(r[i], r[i+1], "RELAY", "", exid, i+2)` for each two neighbours of the route.
unfoldable pub relay_reports : Bytes → ℕ → List Bytes → List TelEvent
relay_reports ex_id i [] = []
relay_reports ex_id i (a ∷ []) = []
relay_reports ex_id i (a ∷ b ∷ route) =
    record { from = a; to = b; type = codes "RELAY"; msg = []; ex_id = ex_id; hop = i + 2 }
    ∷ relay_reports ex_id (suc i) (b ∷ route)

-- The goroutine of the way out; the type is SEND, or SSEND with the first address of each group. An
-- empty route panics.
unfoldable pub forward_reports : Bytes → Bytes → Bytes → Bytes → List Bytes → Result (List TelEvent)
unfolding relay_reports
forward_reports type node_addr message ex_id [] = panic
forward_reports type node_addr message ex_id (a ∷ route) = ok (
    record { from = node_addr; to = a; type = type; msg = message; ex_id = ex_id; hop = 1 }
    ∷ relay_reports ex_id 0 (a ∷ route))

-- What comes of a message: an ACK, a NACK, or nothing for 8 seconds.
pub data Reply : Type 0 where
  acked : Reply
  nacked : Reply
  timed_out : Reply

unfoldable pub reply_report : Bytes → Bytes → Bytes → Bytes → Reply → TelEvent
reply_report dest_addr first_hop node_addr ex_id acked = record {
  from = dest_addr;
  to = node_addr;
  type = codes "ACK";
  msg = [];
  ex_id = ex_id;
  hop = 1;
}
reply_report dest_addr first_hop node_addr ex_id nacked = record {
  from = first_hop;
  to = node_addr;
  type = codes "NACK";
  msg = [];
  ex_id = ex_id;
  hop = 1;
}
reply_report dest_addr first_hop node_addr ex_id timed_out = record {
  from = first_hop;
  to = node_addr;
  type = codes "NACK";
  msg = codes "timeout";
  ex_id = ex_id;
  hop = 1;
}
