-- ===== src/Server/Labels.antt =====
-- crates/gamestore-datanode/src/server.rs: command_label, on any input of a client.
use game_store.Prelude.{
  Bool, true, false, ◌||◌, Bool-cases, inl, inr, List, [], ◌∷◌, ◌++◌, ◌≡◌, refl, ap, ◌∙◌, arith,
}
use game_store.Bytes.{Bytes, text}
use game_store.Bytes.Order.{==ᵇ_refl}
use game_store.Store.Strings.{is_some}
use game_store.Commands.Text.{to_ascii_uppercase, from_utf8_lossy}
use game_store.Commands.Registry.{CommandRegistry, find, contains}
use game_store.Server.Connection.{is_among, connection_verbs, command_label}

is_among-append :
    (xs ys : List Bytes) (name : Bytes)
    → is_among (xs ++ ys) name ≡ (is_among xs name || is_among ys name)
unfolding is_among
is_among-append [] ys name = refl
is_among-append (x ∷ xs) ys name = ground (arith, is_among-append xs ys name)

among_later :
    (x : Bytes) (xs : List Bytes) (name : Bytes)
    → is_among xs name ≡ true
    → is_among (x ∷ xs) name ≡ true
unfolding is_among
among_later x xs name e = ground arith

module _ {S : Type 0} where
  -- The names of the commands of a table.
  abbrev pub names : CommandRegistry S → List Bytes
  names [] = []
  names ((name, spec) ∷ commands) = name ∷ names commands

  is_among-names :
      (name : Bytes) (commands : CommandRegistry S)
      → is_some (find name commands) ≡ true
      → is_among (names commands) name ≡ true
  unfolding find is_some is_among
  is_among-names name [] e = e
  is_among-names name ((key, spec) ∷ commands) e = ground (arith, is_among-names name commands)

  -- The labels that there can be.
  abbrev pub labels : CommandRegistry S → List Bytes
  labels commands = text "UNKNOWN" ∷ (connection_verbs ++ names commands)

  module _ (commands : CommandRegistry S) (raw : Bytes) where
    abbrev label_name : Bytes
    label_name = to_ascii_uppercase (from_utf8_lossy raw)

    abbrev is_known : Bool
    is_known = is_among connection_verbs label_name || contains raw commands

    known_label : is_known ≡ true → command_label commands raw ≡ label_name
    unfolding command_label
    known_label e = rw e refl

    unknown_label : is_known ≡ false → command_label commands raw ≡ text "UNKNOWN"
    unfolding command_label
    unknown_label e = rw e refl

    known_among : is_known ≡ true → is_among (connection_verbs ++ names commands) label_name ≡ true
    unfolding contains
    known_among e =
        is_among-append connection_verbs (names commands) label_name
        ∙ elim (Bool-cases (is_among connection_verbs label_name)) [
          | inl verb ↦ rw verb refl
          | inr other ↦ rw other (is_among-names label_name commands (rw other at e))
        ]

    -- Whatever name a client sends, the metric label of its command is a connection verb, the name
    -- of a registered command, or UNKNOWN.
    pub is_among-command_label : is_among (labels commands) (command_label commands raw) ≡ true
    unfolding is_among
    is_among-command_label = elim (Bool-cases is_known) [
      | inl e ↦
          ap (is_among (labels commands)) (known_label e)
          ∙ among_later (text "UNKNOWN") (connection_verbs ++ names commands) label_name
              (known_among e)
      | inr e ↦
          ap (is_among (labels commands)) (unknown_label e) ∙ rw (==ᵇ_refl (text "UNKNOWN")) refl
    ]
