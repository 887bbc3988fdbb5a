-- ===== src/Commands/Sequences.antt =====
-- crates/gamestore-datamodel/src/commands/list.rs.
use game_store.Prelude.{
  ℕ, Bool, Option, none, some, List, [], ◌∷◌, if◌then◌else◌, ltb, length, get_elem?, drop,
}
use game_store.Prelude.Int.{ℤ, pos, negsuc, ltbℤ}
use game_store.Bytes.{Bytes, text}
use game_store.Protocol.Frame.{RespVersion, Frame, error, integer, bulk, array, null}
use game_store.Store.Base.{Host, Store}
use game_store.Store.Lists
use game_store.Commands.Text.{eq_ignore_ascii_case}
use game_store.Commands.Base.{
  Reply, reply, on_ok, respond, wrong_args, arg, frames_of, parse_i64, not_an_integer,
}

-- The reply to one element wanted, or to a number of them.
unfoldable pub pop_reply : Option ℕ → List Bytes → Frame
unfolding frames_of
pop_reply none [] = null
pop_reply none (value ∷ popped) = bulk value
pop_reply (some count) popped = array (frames_of bulk popped)

abbrev pub or_one : Option ℕ → ℕ
or_one none = 1
or_one (some count) = count

module _ ⦃h : Host⦄ where
  unfoldable pub push : RespVersion → List Bytes → Reply (Store h)
  unfolding eq_ignore_ascii_case Lists.push
  push version args =
      respond
        (Lists.push (arg args 1) (drop 2 args) (eq_ignore_ascii_case (arg args 0) (text "LPUSH")))
        integer

  -- The part of `pop` behind its arguments.
  unfoldable pub pop_counted : Bytes → Option ℕ → Bool → Reply (Store h)
  unfolding Lists.llen Lists.pop pop_reply
  pop_counted key count left = on_ok (Lists.llen key) (λ n.
      if ltbℤ (pos 0) n
      then respond (Lists.pop key (or_one count) left) (pop_reply count)
      else reply null)

  -- Too many arguments are refused behind the count.
  unfoldable pub pop_checked : List Bytes → Option ℕ → Reply (Store h)
  unfolding eq_ignore_ascii_case wrong_args pop_counted
  pop_checked args count =
      let left = eq_ignore_ascii_case (arg args 0) (text "LPOP") in
      if ltb 3 (length args)
      then reply (wrong_args (if left then text "lpop" else text "rpop"))
      else pop_counted (arg args 1) count left

  unfoldable pub pop_with : List Bytes → Option ℤ → Reply (Store h)
  unfolding pop_checked
  pop_with args none = reply not_an_integer
  pop_with args (some (negsuc n)) =
      reply (error (text "ERR value is out of range, must be positive"))
  pop_with args (some (pos n)) = pop_checked args (some n)

  unfoldable pub pop : RespVersion → List Bytes → Reply (Store h)
  unfolding parse_i64 pop_checked pop_with
  pop version args = elim (get_elem? args 2) [
    | none ↦ pop_checked args none
    | some raw ↦ pop_with args (parse_i64 raw)
  ]

  unfoldable pub lrange_between : Bytes → Option ℤ → Option ℤ → Reply (Store h)
  unfolding Lists.lrange frames_of
  lrange_between key none stop = reply not_an_integer
  lrange_between key (some start) none = reply not_an_integer
  lrange_between key (some start) (some stop) =
      respond (Lists.lrange key start stop) (λ values. array (frames_of bulk values))

  unfoldable pub lrange : RespVersion → List Bytes → Reply (Store h)
  unfolding parse_i64 lrange_between
  lrange version args =
      lrange_between (arg args 1) (parse_i64 (arg args 2)) (parse_i64 (arg args 3))

  unfoldable pub llen : RespVersion → List Bytes → Reply (Store h)
  unfolding Lists.llen
  llen version args = respond (Lists.llen (arg args 1)) integer
