-- ===== src/Tests/Requests.antt =====
-- Whole calls of run_scraper, against the service in memory.
use lobstr_mcp.Prelude.{false, [], ◌∷◌, none, some, ◌≡◌}
use lobstr_mcp.Prelude.Int.{pos}
use lobstr_mcp.Execution.Submit.{Started}
use lobstr_mcp.Errors.{created}
use lobstr_mcp.Execution.Request.{Request}
use lobstr_mcp.Execution.Request.Gate.{Reads}
use lobstr_mcp.Tests.Service.{service, Store, crawler}
use lobstr_mcp.Tests.Saving.{row, filled}

abbrev request : Request
request = record {
  key = "me:k";
  key_ttl = some 120;
  scraper = "maps";
  crawler = crawler;
  levels = ("url", some "task") ∷ [];
  wire_names = [];
  input = row "a";
  squid_id = "";
  existing_squid = none;
  account_id = none;
  replace_tasks = false;
  confirm = false;
  run_confirm_threshold = pos 100;
}

-- The store of the service is as it was.
abbrev pub Untouched : Store → Type 0
Untouched s = s ≡ filled

abbrev pub untouched_reads : Reads service Untouched
untouched_reads = record {
  list_tasks-Keeps = λ q s p. p;
  get_account-Keeps = λ id s p. p;
  list_accounts-Keeps = λ type s p. p;
}

abbrev pub started : Started
started = record {
  run_id = "run";
  squid_id = "squid";
  written = record { action = created; task_count = some 1; replaced_count = 0 };
}
