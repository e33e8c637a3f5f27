-- ===== src/Auth/Provider/State.antt =====
-- The data that the provider keeps, and the bookkeeping of pending requests.
use Prim.Native.Nat.{◌/◌}
use lobstr_mcp.Prelude.{
  ℕ, ◌*◌, String, Bool, List, [], ◌∷◌, Option, if◌then◌else◌, ltb, contains, is_empty, keep_if,
  length, or_else,
}
use lobstr_mcp.Prelude.Dict.{Dict}
use lobstr_mcp.Prelude.Result.{Result, ok, err}
use lobstr_mcp.Auth.TokenStore.{TokenLink, Tokens}

-- `_PENDING_TTL`, `_AUTH_CODE_TTL`, `_ACCESS_TTL` and `_REFRESH_TTL`, in seconds.
abbrev pub pending_ttl : ℕ
pending_ttl = 600

abbrev pub auth_code_ttl : ℕ
auth_code_ttl = 600

abbrev pub access_ttl : ℕ
access_ttl = 3600

abbrev pub refresh_ttl : ℕ
refresh_ttl = 30 * (24 * 3600)

-- `int(t)`, for an instant t; and the instant at a whole second.
abbrev pub seconds : ℕ → ℕ
seconds t = t / 1000000

abbrev pub at_second : ℕ → ℕ
at_second n = n * 1000000

-- A DCR client, as far as the provider reads it.
pub record ClientInfo : Type 0 where
  pub client_id : String
  pub client_name : Option String
  pub redirect_uris : List String

pub record AuthorizationParams : Type 0 where
  pub state : Option String
  pub scopes : Option (List String)
  pub code_challenge : String
  pub redirect_uri : String
  pub redirect_uri_provided_explicitly : Bool
  pub resource : Option String

pub record AuthorizationCode : Type 0 where
  pub code : String
  pub scopes : List String
  pub expires_at : ℕ
  pub client_id : String
  pub code_challenge : String
  pub redirect_uri : String
  pub redirect_uri_provided_explicitly : Bool
  pub resource : Option String
  pub subject : String

pub record RefreshToken : Type 0 where
  pub token : String
  pub client_id : String
  pub scopes : List String
  pub expires_at : Option ℕ

pub record OauthToken : Type 0 where
  pub access_token : String
  pub token_type : String
  pub expires_in : ℕ
  -- The source joins them with a blank.
  pub scope : List String
  pub refresh_token : String

pub record AccessToken : Type 0 where
  pub token : String
  pub client_id : String
  pub scopes : List String
  pub expires_at : Option ℕ
  pub subject : String
  pub lobstr_token : String
  pub lobstr_user_id : String

pub record Pending : Type 0 where
  pub client_id : String
  pub params : AuthorizationParams
  pub exp : ℕ

pub record Provider : Type 0 where
  pub clients : Dict ClientInfo
  pub refreshes : Dict (RefreshToken × TokenLink)
  pub tokens : Tokens
  pub codes : Dict AuthorizationCode
  pub code_identity : Dict TokenLink
  pub pending : Dict Pending

-- What a method raises: `InvalidGrantError`, or what the delegation client raised.
pub data Raised : Type 0 where
  invalid_grant : String → Raised
  delegation : String → Raised

unfoldable pub prune : ℕ → Dict Pending → Dict Pending
prune now [] = []
prune now ((rid, p) ∷ rest) =
    let kept = prune now rest in if ltb p.exp (seconds now) then kept else (rid, p) ∷ kept

unfoldable pub prune_pending : Provider → ℕ → Provider
unfolding prune
prune_pending s now = record s { pending = prune now s.pending }

unfoldable pub pending_count : Provider → ℕ → ℕ × Provider
unfolding prune_pending
pending_count s now = let s' = prune_pending s now in (length s'.pending, s')

-- The last part of `_effective_scopes`, for two lists that are not empty.
unfoldable pub narrowed : List String → Result Raised (List String)
narrowed scopes =
    if is_empty scopes
    then err (invalid_grant "none of the requested scopes were granted by the user")
    else ok scopes

unfoldable pub effective_scopes :
    Option (List String) → Option (List String) → Result Raised (List String)
unfolding narrowed
effective_scopes requested granted =
    let requested' = or_else requested [] in
    let granted' = or_else granted [] in
    if is_empty granted'
    then ok requested'
    else if is_empty requested'
    then ok granted'
    else narrowed (keep_if (λ s. contains s granted') requested')
