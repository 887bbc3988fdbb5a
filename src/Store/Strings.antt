-- ===== src/Store/Strings.antt =====
-- crates/gamestore-engine/src/store.rs: the String operations and the generic ones.
pub mod Laws
pub mod Expiry
use Prim.Native.String.{String}
use game_store.Prelude.{ℕ, ◌-◌, Bool, true, false, Option, none, some, ◌==◌, if◌then◌else◌}
use game_store.Prelude.Int.{ℤ, pos, negsuc, signed64}
use game_store.Bytes.{Bytes, text}
use game_store.Encoding.Meta.{Meta, type_string, type_hash, type_set, type_zset, type_list}
use game_store.Engine.Error.{Result, ok, err, wrong_type}
use game_store.Store.Exec.{Exec, pure, lift, ◌>>=◌, ◌>>◌}
use game_store.Store.Base.{
  Host, Store, now_ms, next_version, versions_remove, put_meta, load_live_meta, logical_delete,
}

unfoldable pub string_value : Option Meta → Result (Option Bytes)
string_value none = ok none
string_value (some m) = if m.type_id == type_string then ok (some m.payload) else err wrong_type

unfoldable pub is_some {ℓ} : {A : Type ℓ} → Option A → Bool
is_some none = false
is_some (some a) = true

unfoldable pub type_name : Option Meta → Bytes
type_name none = text "none"
type_name (some m) =
    if m.type_id == type_string
    then text "string"
    else if m.type_id == type_hash
    then text "hash"
    else if m.type_id == type_set
    then text "set"
    else if m.type_id == type_zset
    then text "zset"
    else if m.type_id == type_list
    then text "list"
    else text "none"

module _ ⦃h : Host⦄ where
  unfoldable pub set : Bytes → Bytes → ℕ → Exec (Store h) (Unit {0})
  unfolding next_version put_meta
  set key value expire_ms = do
    versions_remove key
    version ← next_version
    put_meta key (record {
      type_id = type_string;
      version = version;
      expire_ms = expire_ms;
      payload = value;
    })

  unfoldable pub get : Bytes → Exec (Store h) (Option Bytes)
  unfolding load_live_meta string_value
  get key = do m ← load_live_meta key; lift (string_value m)

  unfoldable pub exists : Bytes → Exec (Store h) Bool
  unfolding load_live_meta is_some
  exists key = do m ← load_live_meta key; pure (is_some m)

  unfoldable pub type_of : Bytes → Exec (Store h) Bytes
  unfolding load_live_meta type_name
  type_of key = do m ← load_live_meta key; pure (type_name m)

  unfoldable pub del_loaded : Bytes → Option Meta → Exec (Store h) Bool
  unfolding logical_delete
  del_loaded key none = pure false
  del_loaded key (some m) = do logical_delete key; pure true

  unfoldable pub del : Bytes → Exec (Store h) Bool
  unfolding load_live_meta del_loaded
  del key = do m ← load_live_meta key; del_loaded key m

  unfoldable pub expire_loaded : Bytes → ℕ → Option Meta → Exec (Store h) Bool
  unfolding put_meta
  expire_loaded key expire_at_ms none = pure false
  expire_loaded key expire_at_ms (some m) = do
    put_meta key (record m { expire_ms = expire_at_ms })
    pure true

  unfoldable pub expire_at : Bytes → ℕ → Exec (Store h) Bool
  unfolding load_live_meta expire_loaded
  expire_at key expire_at_ms = do m ← load_live_meta key; expire_loaded key expire_at_ms m

  -- -2 if no key, -1 if no expiry; the clock is read again after the key was found live.
  unfoldable pub remaining : Option Meta → Exec (Store h) ℤ
  unfolding now_ms
  remaining none = pure (negsuc 1)
  remaining (some m) =
      if m.expire_ms == 0
      then pure (negsuc 0)
      else do now ← now_ms; pure (signed64 (m.expire_ms - now))

  unfoldable pub pttl : Bytes → Exec (Store h) ℤ
  unfolding load_live_meta remaining
  pttl key = do m ← load_live_meta key; remaining m
