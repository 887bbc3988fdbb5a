-- ===== src/Server/Connection.antt =====
-- crates/gamestore-datanode/src/server.rs: dispatch of one request, and the verbs that the connection
-- and the server answer themselves.
use game_store.Prelude.{
  Bool, true, false, ◌||◌, Option, none, some, List, [], ◌∷◌, ◌++◌, ◌==◌, if◌then◌else◌, length,
  get_elem?, map,
}
use game_store.Prelude.Int.{ℤ, pos, negsuc}
use game_store.Bytes.{Bytes, text, ◌==ᵇ◌}
use game_store.Protocol.Text.{is_utf8, i64_from_text}
use game_store.Protocol.Frame
use game_store.Protocol.Frame.{
  RespVersion, v2, v3, as_i64, from_i64, Frame, Frames, end, item, Pairs, end_pairs, pair, error,
  integer, bulk, array,
}
use game_store.Engine.Error.{Result, ok, err}
use game_store.Store.Base.{Host, Store}
use game_store.Store.Admin.{flush_all}
use game_store.Commands.Text.{to_ascii_uppercase, from_utf8_lossy, eq_ignore_ascii_case, trim}
use game_store.Commands.Base.{Reply, reply, arg, display, not_an_integer, syntax_error}
use game_store.Commands.Registry
use game_store.Commands.Registry.{CommandRegistry, contains}

pub record Action : Type 0 where
  pub reply : Frame
  pub close : Bool
  pub set_version : Option RespVersion

unfoldable pub action_reply : Frame → Action
action_reply f = record { reply = f; close = false; set_version = none }

unfoldable pub close_with : Frame → Action
close_with f = record { reply = f; close = true; set_version = none }

unfoldable pub is_among : List Bytes → Bytes → Bool
is_among [] name = false
is_among (verb ∷ verbs) name = (verb ==ᵇ name) || is_among verbs name

abbrev pub connection_verbs : List Bytes
connection_verbs =
    map text ("HELLO" ∷ "QUIT" ∷ "CLIENT" ∷ "SELECT" ∷ "COMMAND" ∷ "FLUSHDB" ∷ "FLUSHALL" ∷ [])

-- The label of a command in the metrics.
unfoldable pub command_label : {S : Type 0} → CommandRegistry S → Bytes → Bytes
unfolding is_among contains to_ascii_uppercase from_utf8_lossy
command_label registry raw =
    let name = to_ascii_uppercase (from_utf8_lossy raw) in
    if is_among connection_verbs name || contains raw registry then name else text "UNKNOWN"

unfoldable pub client_subcommand : ℤ → Bytes → Frame
unfolding is_among
client_subcommand conn_id sub =
    if is_among (map text ("SETINFO" ∷ "SETNAME" ∷ "NO-EVICT" ∷ "NO-TOUCH" ∷ [])) sub
    then Frame.ok
    else if sub ==ᵇ text "ID"
    then integer conn_id
    else if sub ==ᵇ text "GETNAME"
    then bulk []
    else error (
        text "ERR Unknown subcommand or wrong number of arguments for '"
        ++ (sub ++ text "'. Try CLIENT HELP."))

unfoldable pub client : List Bytes → ℤ → Frame
unfolding client_subcommand
client args conn_id = elim (get_elem? args 1) [
  | none ↦ error (text "ERR wrong number of arguments for 'client' command")
  | some sub ↦ client_subcommand conn_id (to_ascii_uppercase (from_utf8_lossy sub))
]

unfoldable pub select_index : Option ℤ → Frame
select_index none = not_an_integer
select_index (some (negsuc n)) = error (text "ERR DB index is out of range")
select_index (some (pos n)) =
    if n == 0 then Frame.ok else error (text "ERR DB index is out of range")

unfoldable pub select : List Bytes → Frame
unfolding select_index
select args =
    if length args == 2
    then select_index (if is_utf8 (arg args 1) then i64_from_text (arg args 1) else none)
    else error (text "ERR wrong number of arguments for 'select' command")

-- The fields of the reply to HELLO; the version is that of the package.
unfoldable pub hello_fields : RespVersion → ℤ → List (Frame × Frame)
unfolding as_i64
hello_fields version conn_id =
    (bulk (text "server"), bulk (text "gamestore"))
    ∷ (bulk (text "version"), bulk (text "0.1.0"))
    ∷ (bulk (text "proto"), integer (as_i64 version))
    ∷ (bulk (text "id"), integer conn_id)
    ∷ (bulk (text "mode"), bulk (text "standalone"))
    ∷ (bulk (text "role"), bulk (text "master"))
    ∷ (bulk (text "modules"), array end)
    ∷ []

unfoldable pub pairs_of : List (Frame × Frame) → Pairs
pairs_of [] = end_pairs
pairs_of ((k, v) ∷ fields) = pair k v (pairs_of fields)

unfoldable pub flattened : List (Frame × Frame) → Frames
flattened [] = end
flattened ((k, v) ∷ fields) = item k (item v (flattened fields))

unfoldable pub hello_reply : RespVersion → ℤ → Frame
unfolding hello_fields pairs_of flattened
hello_reply v3 conn_id = Frame.map (pairs_of (hello_fields v3 conn_id))
hello_reply v2 conn_id = array (flattened (hello_fields v2 conn_id))

-- The version that the argument of HELLO asks for.
unfoldable pub requested_version : Bytes → Option RespVersion
unfolding trim from_utf8_lossy i64_from_text from_i64
requested_version raw = elim (i64_from_text (trim (from_utf8_lossy raw))) [
  | none ↦ none
  | some n ↦ from_i64 n
]

unfoldable pub hello : List Bytes → RespVersion → ℤ → Action
unfolding requested_version hello_reply action_reply
hello args current conn_id = elim (get_elem? args 1) [
  | none ↦ record { reply = hello_reply current conn_id; close = false; set_version = none }
  | some raw ↦ elim (requested_version raw) [
    | none ↦ action_reply (error (text "NOPROTO unsupported protocol version"))
    | some v ↦ record { reply = hello_reply v conn_id; close = false; set_version = some v }
  ]
]

module _ ⦃h : Host⦄ where
  unfoldable pub flush_result : Result (Unit {0}) → Frame
  unfolding display
  flush_result (ok _) = Frame.ok
  flush_result (err e) = error (text "ERR " ++ display e)

  abbrev pub flush_store : Reply (Store h)
  flush_store s = (flush_result (flush_all s).0, (flush_all s).1)

  unfoldable pub flush : List Bytes → Reply (Store h)
  unfolding flush_all flush_result eq_ignore_ascii_case
  flush args =
      let name =
        if eq_ignore_ascii_case (arg args 0) (text "FLUSHALL")
        then text "flushall"
        else text "flushdb" in
      if length args == 1
      then flush_store
      else if length args == 2
      then (if eq_ignore_ascii_case (arg args 1) (text "ASYNC")
            || eq_ignore_ascii_case (arg args 1) (text "SYNC")
          then flush_store
          else reply syntax_error)
      else reply (error (text "ERR wrong number of arguments for '" ++ (name ++ text "' command")))

  -- `Action::reply` of a reply that the store gives.
  abbrev pub answered : Reply (Store h) → Store h → Action × Store h
  answered m s = (action_reply (m s).0, (m s).1)

  unfoldable pub dispatch :
      CommandRegistry (Store h) → List Bytes → RespVersion → ℤ → Store h → Action × Store h
  unfolding hello close_with client select flush Registry.dispatch action_reply
  dispatch registry args version conn_id =
      let name = to_ascii_uppercase (from_utf8_lossy (arg args 0)) in
      if name ==ᵇ text "HELLO"
      then (λ s. (hello args version conn_id, s))
      else if name ==ᵇ text "QUIT"
      then (λ s. (close_with Frame.ok, s))
      else if name ==ᵇ text "CLIENT"
      then answered (reply (client args conn_id))
      else if name ==ᵇ text "SELECT"
      then answered (reply (select args))
      else if name ==ᵇ text "COMMAND"
      then answered (reply (array end))
      else if (name ==ᵇ text "FLUSHDB") || (name ==ᵇ text "FLUSHALL")
      then answered (flush args)
      else answered (Registry.dispatch registry version args)
