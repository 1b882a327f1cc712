-- ===== src/Checks/Stored.antt =====
-- The in-memory store at concrete inputs.
use agentbridge.Base.{ℕ, String, true, false, some, List, [], ◌∷◌}
use agentbridge.Store.{AuditEntry, approved, pending}
use agentbridge.Audit.Table.{genesis}
use agentbridge.Memory.Calls.{
  StoreCall, read_budget, put_approval, decide_approval, use_approval, append_entry, read_head,
  Answer, nothing, flag, budget, entry, head,
}
use agentbridge.Checks.Sample.{grant, purse}

abbrev link : ℕ → String → AuditEntry
link n prev = record {
  payload = record {
    seq = n;
    timestamp = 1000;
    actor = "ann";
    action = "pay";
    source_protocol = "a2a";
    target_protocol = "mcp";
    capability = "pay";
    decision = "allow";
    reason = "ok";
    cost = 7;
    prev_hash = prev;
  };
  entry_hash = "e0";
}

-- A new request is approved, used once and refused the second time; then an entry is appended.
abbrev calls : List StoreCall
calls =
    put_approval "g2" (record grant { status = pending })
    ∷ decide_approval "g2" approved
    ∷ use_approval "g2"
    ∷ use_approval "g2"
    ∷ read_budget "ann"
    ∷ append_entry link
    ∷ read_head
    ∷ []

abbrev answers : List Answer
answers =
    nothing
    ∷ flag true
    ∷ flag true
    ∷ flag false
    ∷ budget (some purse)
    ∷ entry (link 0 genesis)
    ∷ head (some (link 0 genesis))
    ∷ []
