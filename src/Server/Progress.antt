-- ===== src/Server/Progress.antt =====
-- crates/gamestore-datanode/src/server.rs: the loop of handle_connection ends.
use game_store.Prelude.{
  ℕ, zero, suc, ◌≤◌, ◌<◌, Bool-cases, inl, inr, some, List, [], ◌∷◌, ◌≡◌, refl, arith, length,
}
use game_store.Bytes.{Bytes}
use game_store.Protocol.Error.{ProtocolError}
use game_store.Protocol.Text.{FloatText}
use game_store.Protocol.Parser.{Parsed, done, incomplete, failed}
use game_store.Protocol.Command.{decode_command}
use game_store.Protocol.Shrinks.{Leaves, decode_command-Leaves}
use game_store.Store.Base.{Host, Store}
use game_store.Commands.Registry.{CommandRegistry}
use game_store.Server.Session.{Connection, Outcome, handle_request, handle_item, handle_buffer}

module _ (floats : FloatText) (describe : ProtocolError → Bytes) where
  module _ ⦃h : Host⦄ (registry : CommandRegistry (Store h)) where
    abbrev Ends : Outcome floats describe registry → Type 0
    Ends o = (r : Bytes × Connection × Store h) × (o ≡ some r)

    handle_item-Ends :
        (next : Bytes → Connection → Store h → Outcome floats describe registry) (n : ℕ)
        (buffer : Bytes) (conn : Connection) (s : Store h) (r : Parsed (List Bytes))
        → ((rest : Bytes) (c : Connection) (s' : Store h) → length rest ≤ n → Ends (next rest c s'))
        → Leaves n r
        → Ends (handle_item floats describe registry next buffer conn s r)
    unfolding handle_item
    handle_item-Ends next n buffer conn s incomplete ends l = (_, refl)
    handle_item-Ends next n buffer conn s (failed e) ends l = (_, refl)
    handle_item-Ends next n buffer conn s (done args rest) ends l =
        let r = handle_request floats describe registry args conn s in
        elim (Bool-cases r.0.is_open) [
          | inl goes_on ↦ rw goes_on (ends rest r.0 r.1 l)
          | inr closed ↦ rw closed (_, refl)
        ]

    -- The loop ends: with more fuel than there are bytes in the buffer it has an outcome.
    pub handle_buffer_ends :
        (fuel : ℕ) (buffer : Bytes) (conn : Connection) (s : Store h)
        → length buffer < fuel
        → (r : Bytes × Connection × Store h) × (handle_buffer floats describe registry fuel buffer
              conn s
            ≡ some r)
    unfolding handle_buffer handle_item decode_command
    handle_buffer_ends zero buffer conn s enough = absurd (omega arith)
    handle_buffer_ends (suc fuel) [] conn s enough = (([], conn, s), refl)
    handle_buffer_ends (suc fuel) (b ∷ buf) conn s enough =
        handle_item-Ends (handle_buffer floats describe registry fuel) (length buf) (b ∷ buf) conn s
          (decode_command conn.limits (b ∷ buf))
          (λ rest c s' le. handle_buffer_ends fuel rest c s' (omega arith))
          (decode_command-Leaves conn.limits b buf)
