-- ===== src/Server/Keeps.antt =====
-- crates/gamestore-datanode/src/server.rs: the requests of a connection and a consistent store.
use game_store.Prelude.{
  ℕ, zero, suc, Bool, true, false, ◌||◌, Bool-cases, inl, inr, none, some, List, [], ◌∷◌, ◌++◌, ◌≡◌,
  subst, arith, ◌==◌, length, if◌then◌else◌,
}
use game_store.Prelude.Int.{ℤ}
use game_store.Bytes.{Bytes, text, ◌==ᵇ◌}
use game_store.Engine.Interface.{IsReliable}
use game_store.Protocol.Error.{ProtocolError}
use game_store.Protocol.Text.{FloatText}
use game_store.Protocol.Frame.{RespVersion, error}
use game_store.Protocol.Parser.{Parsed, done, incomplete, failed}
use game_store.Protocol.Command.{decode_command}
use game_store.Store.Base.{Host, Store}
use game_store.Store.View.{IsConsistent}
use game_store.Store.Flush.{flush_all-IsConsistent}
use game_store.Commands.Text.{to_ascii_uppercase, from_utf8_lossy, eq_ignore_ascii_case}
use game_store.Commands.Base.{reply, arg, syntax_error}
use game_store.Commands.Registry
use game_store.Commands.Registry.{CommandRegistry, standard}
use game_store.Commands.Keeps.{Keeps, if-Keeps, reply-Keeps}
use game_store.Commands.Keeps.Registry.{TableKeeps, dispatch-Keeps, standard-Keeps}
use game_store.Server.Connection.{Action, flush, flush_store, dispatch, answered}
use game_store.Server.Session.{Connection, Outcome, handle_request, handle_item, handle_buffer}
use game_store.Server.Progress.{handle_buffer_ends}

module _ ⦃h : Host⦄ (laws : IsReliable h.engine) where
  flush_store-Keeps : Keeps laws flush_store
  flush_store-Keeps s c = flush_all-IsConsistent laws s

  flush-Keeps : (args : List Bytes) → Keeps laws (flush args)
  unfolding flush
  flush-Keeps args =
      let name =
        if eq_ignore_ascii_case (arg args 0) (text "FLUSHALL")
        then text "flushall"
        else text "flushdb" in
      let wrong =
        error (text "ERR wrong number of arguments for '" ++ (name ++ text "' command")) in
      if-Keeps laws (length args == 1) flush_store _ flush_store-Keeps (
        if-Keeps laws (length args == 2) _ (reply wrong)
          (if-Keeps laws
            (eq_ignore_ascii_case (arg args 1) (text "ASYNC")
              || eq_ignore_ascii_case (arg args 1) (text "SYNC"))
            flush_store (reply syntax_error) flush_store-Keeps (reply-Keeps laws syntax_error))
          (reply-Keeps laws wrong))

  abbrev ActionKeeps : (Store h → Action × Store h) → Type 0
  ActionKeeps m = (s : Store h) → IsConsistent laws s → IsConsistent laws (m s).1

  if-ActionKeeps :
      (b : Bool) (m n : Store h → Action × Store h)
      → ActionKeeps m
      → ActionKeeps n
      → ActionKeeps (if b then m else n)
  if-ActionKeeps true m n k l = k
  if-ActionKeeps false m n k l = l

  dispatch-ActionKeeps :
      (registry : CommandRegistry (Store h)) (args : List Bytes) (version : RespVersion)
      (conn_id : ℤ)
      → TableKeeps laws registry
      → ActionKeeps (dispatch registry args version conn_id)
  unfolding dispatch
  dispatch-ActionKeeps registry args version conn_id k =
      let name = to_ascii_uppercase (from_utf8_lossy (arg args 0)) in
      if-ActionKeeps (name ==ᵇ text "HELLO") _ _ (λ s c. c)
        (if-ActionKeeps (name ==ᵇ text "QUIT") _ _ (λ s c. c)
          (if-ActionKeeps (name ==ᵇ text "CLIENT") _ _ (λ s c. c)
            (if-ActionKeeps (name ==ᵇ text "SELECT") _ _ (λ s c. c)
              (if-ActionKeeps (name ==ᵇ text "COMMAND") _ _ (λ s c. c)
                (if-ActionKeeps ((name ==ᵇ text "FLUSHDB") || (name ==ᵇ text "FLUSHALL"))
                  (answered (flush args)) (answered (Registry.dispatch registry version args))
                  (flush-Keeps args) (dispatch-Keeps laws registry version args k))))))

  module _ (floats : FloatText) (describe : ProtocolError → Bytes) where
    abbrev session : CommandRegistry (Store h)
    session = standard floats

    handle_request-IsConsistent :
        (args : List Bytes) (conn : Connection) (s : Store h)
        → IsConsistent laws s
        → IsConsistent laws (handle_request floats describe session args conn s).1
    unfolding handle_request
    handle_request-IsConsistent [] conn s c = c
    handle_request-IsConsistent (name ∷ args) conn s c =
        dispatch-ActionKeeps session (name ∷ args) conn.version conn.conn_id
          (standard-Keeps laws floats) s c

    -- The store of an outcome, if there is one.
    abbrev OutcomeKeeps : Outcome floats describe session → Type 0
    OutcomeKeeps none = Unit
    OutcomeKeeps (some (rest, conn, s)) = IsConsistent laws s

    handle_item-OutcomeKeeps :
        (next : Bytes → Connection → Store h → Outcome floats describe session) (buffer : Bytes)
        (conn : Connection) (s : Store h) (r : Parsed (List Bytes))
        → ((rest : Bytes) (c : Connection) (s' : Store h)
            → IsConsistent laws s'
            → OutcomeKeeps (next rest c s'))
        → IsConsistent laws s
        → OutcomeKeeps (handle_item floats describe session next buffer conn s r)
    unfolding handle_item
    handle_item-OutcomeKeeps next buffer conn s incomplete k c = c
    handle_item-OutcomeKeeps next buffer conn s (failed e) k c = c
    handle_item-OutcomeKeeps next buffer conn s (done args rest) k c =
        let r = handle_request floats describe session args conn s in
        let c' = handle_request-IsConsistent args conn s c in
        elim (Bool-cases r.0.is_open) [
          | inl goes_on ↦ rw goes_on (k rest r.0 r.1 c')
          | inr closed ↦ rw closed c'
        ]

    handle_buffer-OutcomeKeeps :
        (fuel : ℕ) (buffer : Bytes) (conn : Connection) (s : Store h)
        → IsConsistent laws s
        → OutcomeKeeps (handle_buffer floats describe session fuel buffer conn s)
    unfolding handle_buffer
    handle_buffer-OutcomeKeeps zero buffer conn s c = tt
    handle_buffer-OutcomeKeeps (suc fuel) buffer conn s c =
        handle_item-OutcomeKeeps (handle_buffer floats describe session fuel) buffer conn s
          (decode_command conn.limits buffer) (handle_buffer-OutcomeKeeps fuel) c

    -- From a consistent store, the loop over any bytes, whatever requests, errors or fragments
    -- they are, has an outcome, and the store that it leaves is consistent: each metadata record
    -- can be read, and each composite key has in the version map the version of its metadata.
    pub handle_buffer-IsConsistent :
        (buffer : Bytes) (conn : Connection) (s : Store h)
        → IsConsistent laws s
        → (r : Bytes × Connection × Store h) × ((handle_buffer floats describe session
                (suc (length buffer))
                buffer
                conn
                s
              ≡ some r)
            × IsConsistent laws r.2)
    handle_buffer-IsConsistent buffer conn s c =
        let ends =
          handle_buffer_ends floats describe session (suc (length buffer)) buffer conn s
            (omega arith) in
        (
          ends.0,
          (
            ends.1,
            subst OutcomeKeeps ends.1
                (handle_buffer-OutcomeKeeps (suc (length buffer)) buffer conn s c),
          ),
        )
