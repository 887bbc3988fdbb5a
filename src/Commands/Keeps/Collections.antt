-- ===== src/Commands/Keeps/Collections.antt =====
-- crates/gamestore-datamodel/src/commands, hash.rs, set.rs, list.rs and admin.rs: each command
-- keeps a store consistent.
use game_store.Prelude.{
  ℕ, ◌-◌, ◌%◌, Bool, Option, none, some, List, [], ◌∷◌, ◌++◌, ◌==◌, ltb, drop, length, get_elem?,
  if◌then◌else◌,
}
use game_store.Prelude.Int.{ℤ, pos, negsuc, ltbℤ}
use game_store.Bytes.{Bytes, text}
use game_store.Engine.Interface.{IsReliable}
use game_store.Protocol.Frame.{RespVersion, Frame, array, null, error}
use game_store.Store.Base.{Host}
use game_store.Store.Hash
use game_store.Store.Set
use game_store.Store.Lists
use game_store.Store.Admin
use game_store.Store.Compaction
use game_store.Store.Hash.Refine
use game_store.Store.Keeps.Reads
use game_store.Store.Keeps.Hashes
use game_store.Store.Keeps.Sets
use game_store.Store.Keeps.Sequences
use game_store.Commands.Text.{eq_ignore_ascii_case}
use game_store.Commands.Base.{arg, parse_i64, not_an_integer, wrong_args, frames_of}
use game_store.Commands.Hashes.{
  hset, hget, hmget_fields, hmget, hgetall, hdel, hlen, hexists, chunks,
}
use game_store.Commands.Strings.{bulk_or_null}
use game_store.Commands.Sets.{sadd, srem, sismember, smembers, scard}
use game_store.Commands.Sequences.{
  push, pop_counted, pop_checked, pop_with, pop, lrange_between, lrange, llen, or_one,
}
use game_store.Commands.Admin.{dbsize, rawcount, compact}
use game_store.Commands.Keeps.{
  Keeps, reply-Keeps, option-Keeps, if-Keeps, on_ok-Keeps, respond-Keeps,
}

module _ ⦃h : Host⦄ (laws : IsReliable h.engine) where
  pub hset-Keeps : (v : RespVersion) (args : List Bytes) → Keeps laws (hset v args)
  unfolding hset
  hset-Keeps v args =
      if-Keeps laws ((length args - 2) % 2 == 0) _ _
        (respond-Keeps laws (Hash.hset (arg args 1) (chunks (drop 2 args))) _
          (Refine.hset-IsConsistent laws (arg args 1) (chunks (drop 2 args))))
        (reply-Keeps laws (
          wrong_args (
            if eq_ignore_ascii_case (arg args 0) (text "HMSET")
            then text "hmset"
            else text "hset")))

  pub hget-Keeps : (v : RespVersion) (args : List Bytes) → Keeps laws (hget v args)
  unfolding hget
  hget-Keeps v args =
      respond-Keeps laws (Hash.hget (arg args 1) (arg args 2)) _
        (Reads.hget-IsConsistent laws (arg args 1) (arg args 2))

  hmget_fields-Keeps :
      (key : Bytes) (fields : List Bytes) (items : List Frame)
      → Keeps laws (hmget_fields key fields items)
  unfolding hmget_fields
  hmget_fields-Keeps key [] items = reply-Keeps laws (array (frames_of (λ f. f) items))
  hmget_fields-Keeps key (field ∷ fields) items =
      on_ok-Keeps laws (Hash.hget key field) _ (Reads.hget-IsConsistent laws key field)
        (λ v. hmget_fields-Keeps key fields (items ++ bulk_or_null v ∷ []))

  pub hmget-Keeps : (v : RespVersion) (args : List Bytes) → Keeps laws (hmget v args)
  unfolding hmget
  hmget-Keeps v args = hmget_fields-Keeps (arg args 1) (drop 2 args) []

  pub hgetall-Keeps : (v : RespVersion) (args : List Bytes) → Keeps laws (hgetall v args)
  unfolding hgetall
  hgetall-Keeps v args =
      respond-Keeps laws (Hash.hgetall (arg args 1)) _
        (Reads.hgetall-IsConsistent laws (arg args 1))

  pub hdel-Keeps : (v : RespVersion) (args : List Bytes) → Keeps laws (hdel v args)
  unfolding hdel
  hdel-Keeps v args =
      respond-Keeps laws (Hash.hdel (arg args 1) (drop 2 args)) _
        (Hashes.hdel-IsConsistent laws (arg args 1) (drop 2 args))

  pub hlen-Keeps : (v : RespVersion) (args : List Bytes) → Keeps laws (hlen v args)
  unfolding hlen
  hlen-Keeps v args =
      respond-Keeps laws (Hash.hlen (arg args 1)) _ (Reads.hlen-IsConsistent laws (arg args 1))

  pub hexists-Keeps : (v : RespVersion) (args : List Bytes) → Keeps laws (hexists v args)
  unfolding hexists
  hexists-Keeps v args =
      respond-Keeps laws (Hash.hexists (arg args 1) (arg args 2)) _
        (Reads.hexists-IsConsistent laws (arg args 1) (arg args 2))

  pub sadd-Keeps : (v : RespVersion) (args : List Bytes) → Keeps laws (sadd v args)
  unfolding sadd
  sadd-Keeps v args =
      respond-Keeps laws (Set.sadd (arg args 1) (drop 2 args)) _
        (Sets.sadd-IsConsistent laws (arg args 1) (drop 2 args))

  pub srem-Keeps : (v : RespVersion) (args : List Bytes) → Keeps laws (srem v args)
  unfolding srem
  srem-Keeps v args =
      respond-Keeps laws (Set.srem (arg args 1) (drop 2 args)) _
        (Sets.srem-IsConsistent laws (arg args 1) (drop 2 args))

  pub sismember-Keeps : (v : RespVersion) (args : List Bytes) → Keeps laws (sismember v args)
  unfolding sismember
  sismember-Keeps v args =
      respond-Keeps laws (Set.sismember (arg args 1) (arg args 2)) _
        (Reads.sismember-IsConsistent laws (arg args 1) (arg args 2))

  pub smembers-Keeps : (v : RespVersion) (args : List Bytes) → Keeps laws (smembers v args)
  unfolding smembers
  smembers-Keeps v args =
      respond-Keeps laws (Set.smembers (arg args 1)) _
        (Reads.smembers-IsConsistent laws (arg args 1))

  pub scard-Keeps : (v : RespVersion) (args : List Bytes) → Keeps laws (scard v args)
  unfolding scard
  scard-Keeps v args =
      respond-Keeps laws (Set.scard (arg args 1)) _ (Reads.scard-IsConsistent laws (arg args 1))

  pub push-Keeps : (v : RespVersion) (args : List Bytes) → Keeps laws (push v args)
  unfolding push
  push-Keeps v args =
      let left = eq_ignore_ascii_case (arg args 0) (text "LPUSH") in
      respond-Keeps laws (Lists.push (arg args 1) (drop 2 args) left) _
        (Sequences.push-IsConsistent laws (arg args 1) (drop 2 args) left)

  pop_counted-Keeps :
      (key : Bytes) (count : Option ℕ) (left : Bool) → Keeps laws (pop_counted key count left)
  unfolding pop_counted
  pop_counted-Keeps key count left =
      on_ok-Keeps laws (Lists.llen key) _ (Reads.llen-IsConsistent laws key) (λ n.
        if-Keeps laws (ltbℤ (pos 0) n) _ _
          (respond-Keeps laws (Lists.pop key (or_one count) left) _
            (Sequences.pop-IsConsistent laws key (or_one count) left))
          (reply-Keeps laws null))

  pop_checked-Keeps : (args : List Bytes) (count : Option ℕ) → Keeps laws (pop_checked args count)
  unfolding pop_checked
  pop_checked-Keeps args count =
      let left = eq_ignore_ascii_case (arg args 0) (text "LPOP") in
      if-Keeps laws (ltb 3 (length args)) _ _
        (reply-Keeps laws (wrong_args (if left then text "lpop" else text "rpop")))
        (pop_counted-Keeps (arg args 1) count left)

  pop_with-Keeps : (args : List Bytes) (o : Option ℤ) → Keeps laws (pop_with args o)
  unfolding pop_with
  pop_with-Keeps args none = reply-Keeps laws not_an_integer
  pop_with-Keeps args (some (negsuc n)) =
      reply-Keeps laws (error (text "ERR value is out of range, must be positive"))
  pop_with-Keeps args (some (pos n)) = pop_checked-Keeps args (some n)

  pub pop-Keeps : (v : RespVersion) (args : List Bytes) → Keeps laws (pop v args)
  unfolding pop
  pop-Keeps v args =
      option-Keeps laws (get_elem? args 2) (pop_checked args none)
        (λ raw. pop_with args (parse_i64 raw)) (pop_checked-Keeps args none)
        (λ raw. pop_with-Keeps args (parse_i64 raw))

  lrange_between-Keeps :
      (key : Bytes) (start stop : Option ℤ) → Keeps laws (lrange_between key start stop)
  unfolding lrange_between
  lrange_between-Keeps key none stop = reply-Keeps laws not_an_integer
  lrange_between-Keeps key (some start) none = reply-Keeps laws not_an_integer
  lrange_between-Keeps key (some start) (some stop) =
      respond-Keeps laws (Lists.lrange key start stop) _
        (Reads.lrange-IsConsistent laws key start stop)

  pub lrange-Keeps : (v : RespVersion) (args : List Bytes) → Keeps laws (lrange v args)
  unfolding lrange
  lrange-Keeps v args =
      lrange_between-Keeps (arg args 1) (parse_i64 (arg args 2)) (parse_i64 (arg args 3))

  pub llen-Keeps : (v : RespVersion) (args : List Bytes) → Keeps laws (llen v args)
  unfolding llen
  llen-Keeps v args =
      respond-Keeps laws (Lists.llen (arg args 1)) _ (Reads.llen-IsConsistent laws (arg args 1))

  pub dbsize-Keeps : (v : RespVersion) (args : List Bytes) → Keeps laws (dbsize v args)
  unfolding dbsize
  dbsize-Keeps v args = respond-Keeps laws Admin.dbsize _ (Reads.dbsize-IsConsistent laws)

  pub rawcount-Keeps : (v : RespVersion) (args : List Bytes) → Keeps laws (rawcount v args)
  unfolding rawcount
  rawcount-Keeps v args =
      respond-Keeps laws Admin.raw_subkey_count _ (Reads.raw_subkey_count-IsConsistent laws)

  pub compact-Keeps : (v : RespVersion) (args : List Bytes) → Keeps laws (compact v args)
  unfolding compact
  compact-Keeps v args = respond-Keeps laws Admin.compact _ (Compaction.compact-IsConsistent laws)
