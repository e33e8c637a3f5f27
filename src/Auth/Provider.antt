-- ===== src/Auth/Provider.antt =====
-- auth/oauth_provider.py: `LobstrOAuthProvider`, over the in-memory registries of persistence.py.
-- A method takes the provider's state, the clock reading in microseconds and the random tokens that
-- it draws, and returns what the source returns or raises, with the new state.
pub mod State
pub mod Consent
pub mod Exchange
pub mod Grants
pub mod Lifecycle
pub mod Flow
