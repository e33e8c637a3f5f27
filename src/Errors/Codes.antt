-- ===== src/Errors/Codes.antt =====
-- What the error contract promises a caller.
use lobstr_mcp.Prelude.{Bool, true, ◌≡◌, refl, ◌⊎◌, inl, inr, some, arith}
use lobstr_mcp.Prelude.Result.{Result, ok, err}
use lobstr_mcp.Errors.{
  TransportError, TransportKind, Exn, api, transport, other, ErrorDict, not_sent, unknown,
  connect_error, connect_timeout, pool_timeout, proxy_error, unsupported_protocol,
  local_protocol_error, transport_error_dict, failed, structured,
}

-- The failures in which the request provably never reached the API.
pub data NeverSent : TransportKind → Type 0 where
  refused : NeverSent connect_error
  connecting : NeverSent connect_timeout
  pooled : NeverSent pool_timeout
  proxied : NeverSent proxy_error
  unsupported : NeverSent unsupported_protocol
  malformed : NeverSent local_protocol_error

classify :
    (exc : TransportError) (writes : Bool) (k : TransportKind)
    → exc.kind ≡ k
    → ((transport_error_dict exc writes).request_state ≡ some not_sent) × NeverSent k
      ⊎ ((transport_error_dict exc writes).request_state ≡ some unknown)
unfolding transport_error_dict
classify exc writes connect_error h = inl (ground arith, refused)
classify exc writes connect_timeout h = inl (ground arith, connecting)
classify exc writes pool_timeout h = inl (ground arith, pooled)
classify exc writes proxy_error h = inl (ground arith, proxied)
classify exc writes unsupported_protocol h = inl (ground arith, unsupported)
classify exc writes local_protocol_error h = inl (ground arith, malformed)
classify exc writes _ h = inr (ground arith)

retry_safe_writes :
    (exc : TransportError)
    → (transport_error_dict exc true).retry_safe ≡ some true
    → (transport_error_dict exc true).request_state ≡ some not_sent
unfolding transport_error_dict
retry_safe_writes exc h = ground arith

safe_kind :
    (exc : TransportError)
    → (transport_error_dict exc true).retry_safe ≡ some true
    → NeverSent exc.kind
safe_kind exc h = elim (classify exc true exc.kind refl) [
  | inl (_, sent) ↦ sent
  | inr e ↦ absurd (cc (retry_safe_writes exc h, e))
]

-- A tool that writes answers that a retry is safe only if what was raised is a transport failure
-- in which the request never reached the API.
pub structured_retry_safe :
    (r : Result Exn (Unit {0})) (d : ErrorDict)
    → structured true r ≡ ok (failed d)
    → d.retry_safe ≡ some true
    → (exc : TransportError) × (r ≡ err (transport exc)) × NeverSent exc.kind
unfolding structured
structured_retry_safe (ok a) d h safe = absurd (cc)
structured_retry_safe (err (api exc)) d h safe = absurd (ground arith)
structured_retry_safe (err (transport exc)) d h safe = (exc, refl, safe_kind exc (ground arith))
structured_retry_safe (err (other e)) d h safe = absurd (cc)
