-- ===== src/Server/Pipeline.antt =====
-- crates/gamestore-datanode/src/server.rs: requests that arrive one behind the other.
use game_store.Prelude.{
  ℕ, zero, suc, ◌<◌, Bool-cases, inl, inr, some, List, [], ◌∷◌, ◌++◌, ◌≡◌, refl, sym, ap, ◌∙◌,
  subst, arith, All, length, if◌then◌else◌,
}
use game_store.Bytes.{Bytes}
use game_store.Protocol.Error.{ProtocolError}
use game_store.Protocol.Text.{FloatText}
use game_store.Protocol.Frame.{RespVersion, array}
use game_store.Protocol.Encode.{encode}
use game_store.Protocol.Command.{decode_command}
use game_store.Protocol.Requests.{bulks, IsRequest, decode_command-encode}
use game_store.Store.Base.{Host, Store}
use game_store.Commands.Registry.{CommandRegistry}
use game_store.Server.Session.{Connection, perform, handle_request, handle_item, handle_buffer}

module _ (floats : FloatText) (describe : ProtocolError → Bytes) where
  -- What a client sends for requests, each as an array of bulk strings.
  abbrev pub request_bytes : RespVersion → List (List Bytes) → Bytes
  request_bytes version [] = []
  request_bytes version (args ∷ requests) =
      encode floats version (array (bulks args)) ++ request_bytes version requests

  module _ ⦃h : Host⦄ (registry : CommandRegistry (Store h)) where
    -- Requests one after the other, until one closes the connection, and those that are left.
    unfoldable pub handle_requests :
        List (List Bytes) → Connection → Store h → List (List Bytes) × Connection × Store h
    unfolding handle_request
    handle_requests [] conn s = ([], conn, s)
    handle_requests (args ∷ requests) conn s =
        let r = handle_request floats describe registry args conn s in
        if r.0.is_open then handle_requests requests r.0 r.1 else (requests, r.0, r.1)

    limits-handle_request :
        (args : List Bytes) (conn : Connection) (s : Store h)
        → (handle_request floats describe registry args conn s).0.limits ≡ conn.limits
    unfolding handle_request perform
    limits-handle_request [] conn s = refl
    limits-handle_request (name ∷ args) conn s = refl

    -- Requests within the limits that arrive in one buffer are handled in their order, one after
    -- the other, up to the first that closes the connection; the bytes behind that one stay.
    pub handle_buffer-request_bytes :
        (version : RespVersion) (requests : List (List Bytes)) (fuel : ℕ) (conn : Connection)
        (s : Store h)
        → All (IsRequest conn.limits) requests
        → length requests < fuel
        → let r = handle_requests requests conn s in
          handle_buffer floats describe registry fuel (request_bytes version requests) conn s
          ≡ some (request_bytes version r.0, r.1, r.2)
    unfolding handle_buffer handle_item handle_requests decode_command
    handle_buffer-request_bytes version requests zero conn s within enough = absurd (omega arith)
    handle_buffer-request_bytes version [] (suc fuel) conn s within enough = refl
    handle_buffer-request_bytes version (args ∷ requests) (suc fuel) conn s within enough =
        let r = handle_request floats describe registry args conn s in
        let within' =
          subst (λ l. All (IsRequest l) requests) (sym (limits-handle_request args conn s))
            within.1 in
        ap
          (handle_item floats describe registry (handle_buffer floats describe registry fuel)
            (request_bytes version (args ∷ requests)) conn s)
          (decode_command-encode floats version conn.limits args (request_bytes version requests)
            within.0)
        ∙ elim (Bool-cases r.0.is_open) [
          | inl goes_on ↦
              rw goes_on
                (handle_buffer-request_bytes version requests fuel r.0 r.1 within' (omega arith))
          | inr closed ↦ rw closed refl
        ]
