-- ===== src/Errors.antt =====
-- errors.py: what a tool answers when the API refuses a request or no answer comes back.
-- The prose of an answer (`message`, `hint`) is left out; every other key is a field.
pub mod Codes
use Prim.Native.Nat.{compare, Ordering}
use lobstr_mcp.Prelude.{
  ℕ, String, Bool, true, false, not, ◌||◌, List, [], ◌∷◌, Option, none, some, if◌then◌else◌, ◌==◌,
  leb, or_else,
}
use lobstr_mcp.Prelude.Dict.{Dict, lookup}
use lobstr_mcp.Prelude.Result.{Result, ok, err}
use lobstr_mcp.Json.{Json}

-- `LobstrAPIError`: a response that is not a 2xx.
pub record ApiError : Type 0 where
  pub status : ℕ
  pub error_type : Option String
  pub message : String

-- The classes of `httpx.TransportError`.
pub data TransportKind : Type 0 where
  connect_error connect_timeout pool_timeout proxy_error unsupported_protocol : TransportKind
  local_protocol_error remote_protocol_error read_timeout write_timeout : TransportKind
  read_error write_error close_error : TransportKind

pub record TransportError : Type 0 where
  pub kind : TransportKind
  pub detail : String

-- What a call of the client raises. `other` is any exception that no handler names.
pub data Exn : Type 0 where
  api : ApiError → Exn
  transport : TransportError → Exn
  other : String → Exn

pub data RequestState : Type 0 where
  not_sent unknown : RequestState

-- What a call did to the saved input rows of a squid.
pub data TasksAction : Type 0 where
  unchanged created added replaced : TasksAction

-- The structured error of a tool. A field that is `none` is a key that the dict does not have.
pub record ErrorDict : Type 0 where
  pub error_code : String
  pub upstream_status : Option ℕ
  pub upstream_type : Option String
  pub transport_error : Option String
  pub request_state : Option RequestState
  pub retry_safe : Option Bool
  pub squid_id : Option String
  pub scraper : Option String
  pub deleted : Option Bool
  pub tasks_lost : Option Bool
  pub tasks_restored : Option ℕ
  pub lost_tasks : Option (List (Dict Json))
  pub existing_task_count : Option ℕ
  pub new_task : Option (Dict Json)
  pub cost_multiplier_if_added : Option ℕ
  pub tasks_action : Option TasksAction
  pub task_count : Option (Option ℕ)

-- An error dict with nothing but its code.
abbrev pub error_with : String → ErrorDict
error_with code = record {
  error_code = code;
  upstream_status = none;
  upstream_type = none;
  transport_error = none;
  request_state = none;
  retry_safe = none;
  squid_id = none;
  scraper = none;
  deleted = none;
  tasks_lost = none;
  tasks_restored = none;
  lost_tasks = none;
  existing_task_count = none;
  new_task = none;
  cost_multiplier_if_added = none;
  tasks_action = none;
  task_count = none;
}

-- `_TYPE_CODES`, without the hints.
abbrev pub type_codes : Dict String
type_codes =
    ("SquidNotReady", "scraper_not_ready")
    ∷ ("SquidDoesNotExist", "scraper_not_found")
    ∷ ("HTTPNotFound", "not_found")
    ∷ ("InvalidGrant", "unauthorized")
    ∷ ("NotEnoughCredits", "insufficient_credits")
    ∷ ("SlotsLimitExceeded", "slots_limit_exceeded")
    ∷ ("SquidsLimitExceeded", "squids_limit_exceeded")
    ∷ []

-- `_STATUS_CODES`
abbrev pub status_codes : List (ℕ × String)
status_codes =
    (400, "upstream_rejected")
    ∷ (401, "unauthorized")
    ∷ (403, "forbidden")
    ∷ (404, "not_found")
    ∷ (409, "conflict")
    ∷ (422, "validation_error")
    ∷ (429, "rate_limited")
    ∷ []

lookup_status : ℕ → List (ℕ × String) → Option String
lookup_status n [] = none
lookup_status n ((m, code) ∷ rest) = elim (compare m n) [
  | Ordering.eq ↦ some code
  | _ ↦ lookup_status n rest
]

code_of_status : ℕ → String
code_of_status n =
    or_else (lookup_status n status_codes)
      (if leb 500 n then "upstream_unavailable" else "upstream_error")

-- An optional text of which an empty one counts as none.
abbrev pub nonempty : Option String → Option String
nonempty none = none
nonempty (some t) = if t == "" then none else some t

error_code_of : ApiError → String
error_code_of exc =
    or_else (lookup (or_else exc.error_type "") type_codes) (code_of_status exc.status)

unfoldable pub to_error_dict : ApiError → ErrorDict
unfolding error_code_of code_of_status lookup_status
to_error_dict exc = record (error_with (error_code_of exc)) {
  upstream_status = some exc.status;
  upstream_type = nonempty exc.error_type;
}

-- `_NEVER_SENT`
unfoldable pub never_sent : TransportKind → Bool
never_sent connect_error = true
never_sent connect_timeout = true
never_sent pool_timeout = true
never_sent proxy_error = true
never_sent unsupported_protocol = true
never_sent local_protocol_error = true
never_sent _ = false

-- `writes` is `verify_with is not None`. The key `upstream_status` is there with the value None.
unfoldable pub transport_error_dict : TransportError → Bool → ErrorDict
unfolding never_sent
transport_error_dict exc writes = record (error_with "upstream_unavailable") {
  transport_error = some exc.detail;
  request_state = some (if never_sent exc.kind then not_sent else unknown);
  retry_safe = some (never_sent exc.kind || not writes);
}

-- What a wrapped tool returns: its own answer or the error contract.
pub data Reply {ℓ} (A : Type ℓ) : Type ℓ where
  answer : A → Reply A
  failed : ErrorDict → Reply A

-- `structured`; an exception that is neither kind goes through.
unfoldable pub structured {ℓ} : {A : Type ℓ} → Bool → Result Exn A → Result Exn (Reply A)
unfolding to_error_dict transport_error_dict
structured writes (ok a) = ok (answer a)
structured writes (err (api exc)) = ok (failed (to_error_dict exc))
structured writes (err (transport exc)) = ok (failed (transport_error_dict exc writes))
structured writes (err (other e)) = err (other e)
