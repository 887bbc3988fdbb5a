-- ===== src/Commands/Strings.antt =====
-- crates/gamestore-datamodel/src/commands/string.rs.
use game_store.Prelude.{
  ℕ, ◌+◌, ◌%◌, ◌^◌, Bool, Option, none, some, List, [], ◌∷◌, ◌++◌, ◌==◌, if◌then◌else◌, drop,
}
use game_store.Prelude.Int.{ℤ, pos, negsuc, lebℤ, maxℤ, signed64}
use game_store.Bytes.{Bytes, text}
use game_store.Engine.Error.{Result}
use game_store.Protocol.Frame
use game_store.Protocol.Frame.{RespVersion, Frame, simple, error, integer, bulk, null}
use game_store.Store.Base.{Host, Store, now_ms}
use game_store.Store.Strings
use game_store.Commands.Text.{eq_ignore_ascii_case}
use game_store.Commands.Arith.{checked_mul, checked_add, saturating_add, to_u64, quotient}
use game_store.Commands.Base.{
  Reply, reply, on_ok, respond, arg, from_bool, parse_i64, not_an_integer, syntax_error,
}

unfoldable pub invalid_expire : Bytes → Frame
invalid_expire cmd = error (text "ERR invalid expire time in '" ++ (cmd ++ text "' command"))

-- The milliseconds of the unit that an option of SET names.
unfoldable pub unit_ms : Bytes → Option ℕ
unfolding eq_ignore_ascii_case
unit_ms opt =
    if eq_ignore_ascii_case opt (text "EX")
    then some 1000
    else if eq_ignore_ascii_case opt (text "PX")
    then some 1
    else none

-- `Ok(Some(v)) => Frame::Bulk(v), Ok(None) => Frame::Null`
unfoldable pub bulk_or_null : Option Bytes → Frame
bulk_or_null none = null
bulk_or_null (some v) = bulk v

-- The seconds of a number of milliseconds, rounded up; a negative answer stays.
unfoldable pub ttl_reply : ℤ → ℤ
unfolding quotient
ttl_reply (negsuc n) = negsuc n
ttl_reply (pos ms) = quotient (signed64 ((ms + 999) % 2 ^ 64)) 1000

module _ ⦃h : Host⦄ where
  -- The deadline of SET; `next` goes on with it.
  unfoldable pub set_at : (ℕ → Reply (Store h)) → Option ℤ → Reply (Store h)
  unfolding invalid_expire to_u64
  set_at next none = reply (invalid_expire (text "set"))
  set_at next (some deadline) = next (to_u64 deadline)

  -- The milliseconds from now on; the clock is read only if they are in range.
  unfoldable pub set_delta : (ℕ → Reply (Store h)) → Option ℤ → Reply (Store h)
  unfolding invalid_expire now_ms checked_add set_at
  set_delta next none = reply (invalid_expire (text "set"))
  set_delta next (some delta) = on_ok now_ms (λ now. set_at next (checked_add delta (signed64 now)))

  -- The argument of EX or PX.
  unfoldable pub set_amount : ℕ → (ℕ → Reply (Store h)) → Option ℤ → Reply (Store h)
  unfolding invalid_expire checked_mul set_delta
  set_amount unit next none = reply not_an_integer
  set_amount unit next (some n) =
      if lebℤ n (pos 0)
      then reply (invalid_expire (text "set"))
      else set_delta next (checked_mul n unit)

  -- An option with its argument, and the expiry so far.
  unfoldable pub set_option : ℕ → Bytes → (ℕ → Reply (Store h)) → Option ℕ → Reply (Store h)
  unfolding parse_i64 set_amount
  set_option expire_ms raw next none = reply syntax_error
  set_option expire_ms raw next (some unit) =
      if expire_ms == 0 then set_amount unit next (parse_i64 raw) else reply syntax_error

  -- The loop of `set` over the options that are left, then the write. An option that is the last
  -- argument is a syntax error, whichever it is.
  unfoldable pub set_options : Bytes → Bytes → List Bytes → ℕ → Reply (Store h)
  unfolding Strings.set unit_ms set_option
  set_options key value [] expire_ms = respond (Strings.set key value expire_ms) (λ _. Frame.ok)
  set_options key value (opt ∷ []) expire_ms = reply syntax_error
  set_options key value (opt ∷ raw ∷ options) expire_ms =
      set_option expire_ms raw (set_options key value options) (unit_ms opt)

  unfoldable pub set : RespVersion → List Bytes → Reply (Store h)
  unfolding set_options
  set version args = set_options (arg args 1) (arg args 2) (drop 3 args) 0

  unfoldable pub get : RespVersion → List Bytes → Reply (Store h)
  unfolding Strings.get bulk_or_null
  get version args = respond (Strings.get (arg args 1)) bulk_or_null

  -- The loop that `del` and `exists` share: how often the answer is yes.
  unfoldable pub count_keys :
      (Bytes → Store h → Result Bool × Store h) → List Bytes → ℕ → Reply (Store h)
  count_keys test [] n = reply (integer (pos n))
  count_keys test (key ∷ keys) n =
      on_ok (test key) (λ answer. count_keys test keys (if answer then n + 1 else n))

  unfoldable pub del : RespVersion → List Bytes → Reply (Store h)
  unfolding Strings.del count_keys
  del version args = count_keys Strings.del (drop 1 args) 0

  unfoldable pub exists : RespVersion → List Bytes → Reply (Store h)
  unfolding Strings.exists count_keys
  exists version args = count_keys Strings.exists (drop 1 args) 0

  unfoldable pub type_of : RespVersion → List Bytes → Reply (Store h)
  unfolding Strings.type_of
  type_of version args = respond (Strings.type_of (arg args 1)) simple

  -- The deadline of EXPIRE: the clock and the amount, at least 1.
  unfoldable pub deadline_after : ℕ → ℤ → ℕ
  unfolding saturating_add to_u64
  deadline_after now delta = to_u64 (maxℤ (saturating_add (signed64 now) delta) (pos 1))

  unfoldable pub expire_delta : Bytes → Bytes → Option ℤ → Reply (Store h)
  unfolding invalid_expire now_ms deadline_after Strings.expire_at
  expire_delta cmd key none = reply (invalid_expire cmd)
  expire_delta cmd key (some delta) = on_ok now_ms (λ now.
      respond (Strings.expire_at key (deadline_after now delta))
        (λ existed. integer (from_bool existed)))

  unfoldable pub expire_amount : ℕ → Bytes → Bytes → Option ℤ → Reply (Store h)
  unfolding checked_mul expire_delta
  expire_amount unit cmd key none = reply not_an_integer
  expire_amount unit cmd key (some n) = expire_delta cmd key (checked_mul n unit)

  unfoldable pub expire_generic : ℕ → Bytes → RespVersion → List Bytes → Reply (Store h)
  unfolding parse_i64 expire_amount
  expire_generic unit cmd version args =
      expire_amount unit cmd (arg args 1) (parse_i64 (arg args 2))

  unfoldable pub expire : RespVersion → List Bytes → Reply (Store h)
  unfolding expire_generic
  expire = expire_generic 1000 (text "expire")

  unfoldable pub pexpire : RespVersion → List Bytes → Reply (Store h)
  unfolding expire_generic
  pexpire = expire_generic 1 (text "pexpire")

  unfoldable pub ttl : RespVersion → List Bytes → Reply (Store h)
  unfolding Strings.pttl ttl_reply
  ttl version args = respond (Strings.pttl (arg args 1)) (λ ms. integer (ttl_reply ms))

  unfoldable pub pttl : RespVersion → List Bytes → Reply (Store h)
  unfolding Strings.pttl
  pttl version args = respond (Strings.pttl (arg args 1)) integer
