-- ===== src/Commands/Base.antt =====
-- crates/gamestore-datamodel/src/registry.rs: what all commands share, the replies to their errors and
-- their calls of the store. A handler takes the version of `ExecCtx` and the arguments, and acts on
-- the store.
use game_store.Prelude.{
  ℕ, Bool, true, false, Option, none, List, [], ◌∷◌, ◌++◌, if◌then◌else◌, get_or,
}
use game_store.Prelude.Int.{ℤ, pos}
use game_store.Bytes.{Bytes, text}
use game_store.Engine.Error.{EngineError, backend, corruption, wrong_type, Result, ok, err}
use game_store.Protocol.Text.{is_utf8, i64_from_text}
use game_store.Protocol.Frame.{Frame, Frames, end, item, error}
use game_store.Store.Exec.{Exec}

-- The text of an engine error, of its `#[error]` attribute.
unfoldable pub display : EngineError → Bytes
display (backend msg) = text "engine backend error: " ++ msg
display (corruption msg) = text "engine corruption: " ++ msg
display wrong_type = text "WRONGTYPE Operation against a key holding the wrong kind of value"

unfoldable pub engine_error : EngineError → Frame
unfolding display
engine_error wrong_type = error (display wrong_type)
engine_error (backend msg) = error (text "ERR " ++ display (backend msg))
engine_error (corruption msg) = error (text "ERR " ++ display (corruption msg))

unfoldable pub wrong_args : Bytes → Frame
wrong_args name = error (text "ERR wrong number of arguments for '" ++ (name ++ text "' command"))

abbrev pub not_an_integer : Frame
not_an_integer = error (text "ERR value is not an integer or out of range")

abbrev pub syntax_error : Frame
syntax_error = error (text "ERR syntax error")

unfoldable pub parse_i64 : Bytes → Option ℤ
parse_i64 b = if is_utf8 b then i64_from_text b else none

-- `args[i]`; the registry has checked the number of arguments.
abbrev pub arg : List Bytes → ℕ → Bytes
arg args i = get_or args i []

-- `i64::from(b)`
abbrev pub from_bool : Bool → ℤ
from_bool false = pos 0
from_bool true = pos 1

-- `into_iter().map(f).collect()`
unfoldable pub frames_of {ℓ} : {A : Type ℓ} → (A → Frame) → List A → Frames
frames_of f [] = end
frames_of f (a ∷ rest) = item (f a) (frames_of f rest)

-- A computation on a store that ends in a reply.
abbrev pub Reply : Type 0 → Type 0
Reply S = S → Frame × S

abbrev pub reply : {S : Type 0} → Frame → Reply S
reply f s = (f, s)

module _ {ℓ} {S : Type 0} {A : Type ℓ} where
  -- `match r { Ok(a) => f(a), Err(e) => return engine_error(e) }`
  unfoldable pub on_result : Result A → (A → Reply S) → Reply S
  on_result (ok a) f s = f a s
  on_result (err e) f s = (engine_error e, s)

  abbrev pub on_ok : Exec S A → (A → Reply S) → Reply S
  on_ok m f s = on_result (m s).0 f (m s).1

  -- A reply that depends on the result alone.
  abbrev pub respond : Exec S A → (A → Frame) → Reply S
  respond m f = on_ok m (λ a s. (f a, s))
