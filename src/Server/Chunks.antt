-- ===== src/Server/Chunks.antt =====
-- crates/gamestore-datanode/src/server.rs: requests that arrive in pieces.
use game_store.Prelude.{
  ℕ, zero, suc, ◌+◌, ◌≤◌, length, true, Bool-cases, inl, inr, some, List, ◌++◌, ◌≡◌, sym, ap, ◌∙◌,
  subst, arith,
}
use game_store.Bytes.{Bytes}
use game_store.Protocol.Error.{ProtocolError}
use game_store.Protocol.Text.{FloatText}
use game_store.Protocol.Parser.{Parsed, done, incomplete, failed}
use game_store.Protocol.Command.{decode_command}
use game_store.Protocol.Stable.{Extended, decode_command-IsStable}
use game_store.Store.Base.{Host, Store}
use game_store.Commands.Registry.{CommandRegistry}
use game_store.Server.Progress.{handle_buffer_ends}
use game_store.Server.Session.{
  Connection, Outcome, refuse, handle_request, handle_item, handle_buffer,
}

module _ (floats : FloatText) (describe : ProtocolError → Bytes) where
  module _ ⦃h : Host⦄ (registry : CommandRegistry (Store h)) where
    abbrev Loop : Type 0
    Loop = Bytes → Connection → Store h → Outcome floats describe registry

    -- What one loop ends with, the other does too.
    abbrev Agrees : Loop → Loop → Type 0
    Agrees f g =
        (buffer : Bytes) (conn : Connection) (s : Store h) (r : Bytes × Connection × Store h)
        → f buffer conn s ≡ some r
        → g buffer conn s ≡ some r

    handle_item-Agrees :
        (f g : Loop) (buffer : Bytes) (conn : Connection) (s : Store h) (p : Parsed (List Bytes))
        (r : Bytes × Connection × Store h)
        → Agrees f g
        → handle_item floats describe registry f buffer conn s p ≡ some r
        → handle_item floats describe registry g buffer conn s p ≡ some r
    unfolding handle_item
    handle_item-Agrees f g buffer conn s incomplete r agrees e = e
    handle_item-Agrees f g buffer conn s (failed x) r agrees e = e
    handle_item-Agrees f g buffer conn s (done args rest) r agrees e =
        let q = handle_request floats describe registry args conn s in
        elim (Bool-cases q.0.is_open) [
          | inl goes_on ↦ rw goes_on (agrees rest q.0 q.1 r (rw goes_on at e))
          | inr closed ↦ rw closed (rw closed at e)
        ]

    -- More fuel changes nothing.
    handle_buffer-Agrees :
        (fuel more_fuel : ℕ)
        → fuel ≤ more_fuel
        → Agrees
            (handle_buffer floats describe registry fuel)
            (handle_buffer floats describe registry more_fuel)
    unfolding handle_buffer
    handle_buffer-Agrees zero more_fuel le buffer conn s r e = absurd (cc e)
    handle_buffer-Agrees (suc fuel) zero le buffer conn s r e = absurd (omega arith)
    handle_buffer-Agrees (suc fuel) (suc more_fuel) le buffer conn s r e =
        handle_item-Agrees (handle_buffer floats describe registry fuel)
          (handle_buffer floats describe registry more_fuel) buffer conn s
          (decode_command conn.limits buffer) r (handle_buffer-Agrees fuel more_fuel (omega arith))
          e

    some-injective {ℓ} : {A : Type ℓ} (x y : A) → some x ≡ some y → x ≡ y
    some-injective x y e = cc

    -- One round, without the later bytes and with them. `wait` is the case of an incomplete request.
    handle_item-Extended :
        (f g : Loop) (buffer more : Bytes) (conn : Connection) (s : Store h)
        (p p' : Parsed (List Bytes)) (r t : Bytes × Connection × Store h)
        → Extended more p p'
        → r.1.is_open ≡ true
        → handle_item floats describe registry f buffer conn s p ≡ some r
        → ((rest : Bytes) (c : Connection) (s' : Store h)
            → f rest c s' ≡ some r
            → g (rest ++ more) c s' ≡ some t)
        → ((buffer, conn, s) ≡ r
            → handle_item floats describe registry g (buffer ++ more) conn s p' ≡ some t)
        → handle_item floats describe registry g (buffer ++ more) conn s p' ≡ some t
    unfolding handle_item refuse
    handle_item-Extended f g buffer more conn s incomplete p' r t x is_open e next wait =
        wait (some-injective (buffer, conn, s) r e)
    handle_item-Extended f g buffer more conn s (failed y) p' r t x is_open e next wait =
        let same = some-injective (buffer, refuse floats describe y conn, s) r e in
        absurd (cc (ap (λ q. q.1.is_open) same, is_open))
    handle_item-Extended f g buffer more conn s (done args rest) p' r t x is_open e next wait =
        let q = handle_request floats describe registry args conn s in
        elim (Bool-cases q.0.is_open) [
          | inl goes_on ↦ rw (x, goes_on) (next rest q.0 q.1 (rw goes_on at e))
          | inr closed ↦
              let same = some-injective (rest, q.0, q.1) r (rw closed at e) in
              absurd (cc (ap (λ z. z.1.is_open) same, is_open, closed))
        ]

    handle_buffer-Extended :
        (m n total : ℕ) (buffer more : Bytes) (conn : Connection) (s : Store h)
        (r t : Bytes × Connection × Store h)
        → m + n ≤ total
        → r.1.is_open ≡ true
        → handle_buffer floats describe registry m buffer conn s ≡ some r
        → handle_buffer floats describe registry n (r.0 ++ more) r.1 r.2 ≡ some t
        → handle_buffer floats describe registry total (buffer ++ more) conn s ≡ some t
    unfolding handle_buffer
    handle_buffer-Extended zero n total buffer more conn s r t le is_open e later = absurd (cc e)
    handle_buffer-Extended (suc m) n zero buffer more conn s r t le is_open e later =
        absurd (omega arith)
    handle_buffer-Extended (suc m) n (suc total) buffer more conn s r t le is_open e later =
        handle_item-Extended (handle_buffer floats describe registry m)
          (handle_buffer floats describe registry total) buffer more conn s
          (decode_command conn.limits buffer) (decode_command conn.limits (buffer ++ more)) r t
          (decode_command-IsStable conn.limits buffer more) is_open e
          (λ rest c s' e'.
            handle_buffer-Extended m n total rest more c s' r t (omega arith) is_open e' later)
          (λ same. handle_buffer-Agrees n (suc total) (omega arith) (buffer ++ more) conn s t (
            subst (λ q. handle_buffer floats describe registry n (q.0 ++ more) q.1 q.2 ≡ some t)
              (sym same) later))

    -- All requests in a buffer, with as many rounds as the buffer can need.
    abbrev pub handle_all : Loop
    handle_all buffer = handle_buffer floats describe registry (suc (length buffer)) buffer

    -- If the requests in a buffer leave some bytes and an open connection, and these bytes with
    -- more behind them have an outcome, then the buffer with the same bytes behind it has that
    -- outcome.
    pub handle_all-append :
        (buffer more : Bytes) (conn : Connection) (s : Store h) (r t : Bytes × Connection × Store h)
        → handle_all buffer conn s ≡ some r
        → r.1.is_open ≡ true
        → handle_all (r.0 ++ more) r.1 r.2 ≡ some t
        → handle_all (buffer ++ more) conn s ≡ some t
    handle_all-append buffer more conn s r t first is_open later =
        let m = suc (length buffer) in
        let n = suc (length (r.0 ++ more)) in
        let k = suc (length (buffer ++ more)) in
        let total = (m + n) + k in
        let ends =
          handle_buffer_ends floats describe registry k (buffer ++ more) conn s (omega arith) in
        let whole =
          handle_buffer-Extended m n total buffer more conn s r t (omega arith) is_open first
            later in
        let same =
          handle_buffer-Agrees k total (omega arith) (buffer ++ more) conn s ends.0 ends.1 in
        ends.1 ∙ sym same ∙ whole
