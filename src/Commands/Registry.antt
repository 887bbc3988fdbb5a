-- ===== src/Commands/Registry.antt =====
-- crates/gamestore-datamodel/src/registry.rs and commands/mod.rs: the table of the commands and the
-- dispatch of a request.
use game_store.Prelude.{
  ℕ, suc, Bool, Option, none, some, List, [], ◌∷◌, ◌++◌, ◌==◌, ltb, leb, if◌then◌else◌, length,
}
use game_store.Prelude.Int.{ℤ, pos, negsuc}
use game_store.Bytes.{Bytes, text, ◌==ᵇ◌}
use game_store.Protocol.Text.{FloatText}
use game_store.Protocol.Frame.{RespVersion, error}
use game_store.Store.Base.{Host, Store}
use game_store.Store.Strings.{is_some}
use game_store.Commands.Text.{to_ascii_uppercase, to_ascii_lowercase, from_utf8_lossy}
use game_store.Commands.Base.{Reply, reply, wrong_args}
use game_store.Commands.Connectivity
use game_store.Commands.Strings
use game_store.Commands.Hashes
use game_store.Commands.Sets
use game_store.Commands.SortedSets
use game_store.Commands.Sequences
use game_store.Commands.Admin

-- `CommandHandler` over a store.
abbrev pub CommandHandler : Type 0 → Type 0
CommandHandler S = RespVersion → List Bytes → Reply S

pub record CommandSpec (S : Type 0) : Type 0 where
  pub name_lower : Bytes
  pub arity : ℤ
  pub handler : CommandHandler S

-- The hash map, its latest entries first.
abbrev pub CommandRegistry : Type 0 → Type 0
CommandRegistry S = List (Bytes × CommandSpec S)

unfoldable pub arity_matches : ℤ → ℕ → Bool
arity_matches (pos arity) argc = if ltb 0 arity then argc == arity else leb 0 argc
arity_matches (negsuc n) argc = leb (suc n) argc

module _ {S : Type 0} where
  unfoldable pub find : Bytes → CommandRegistry S → Option (CommandSpec S)
  find name [] = none
  find name ((key, spec) ∷ commands) = if key ==ᵇ name then some spec else find name commands

  unfoldable pub register : Bytes → ℤ → CommandHandler S → CommandRegistry S → CommandRegistry S
  unfolding to_ascii_lowercase
  register name arity handler commands =
      (name, record { name_lower = to_ascii_lowercase name; arity = arity; handler = handler })
      ∷ commands

  -- The table of a list of registrations, the first of them made first.
  unfoldable pub register_list :
      List (Bytes × ℤ × CommandHandler S) → CommandRegistry S → CommandRegistry S
  unfolding register
  register_list [] commands = commands
  register_list ((name, arity, handler) ∷ rest) commands =
      register_list rest (register name arity handler commands)

  unfoldable pub contains : Bytes → CommandRegistry S → Bool
  unfolding find is_some from_utf8_lossy to_ascii_uppercase
  contains name commands = is_some (find (to_ascii_uppercase (from_utf8_lossy name)) commands)

  unfoldable pub run_spec : CommandSpec S → RespVersion → List Bytes → Reply S
  unfolding arity_matches wrong_args
  run_spec spec version args =
      if arity_matches spec.arity (length args)
      then spec.handler version args
      else reply (wrong_args spec.name_lower)

  unfoldable pub dispatch : CommandRegistry S → RespVersion → List Bytes → Reply S
  unfolding find run_spec from_utf8_lossy to_ascii_uppercase
  dispatch commands version [] = reply (error (text "ERR empty command"))
  dispatch commands version (first ∷ args) =
      elim (find (to_ascii_uppercase (from_utf8_lossy first)) commands) [
        | none ↦ reply (error (text "ERR unknown command '" ++ (from_utf8_lossy first ++ text "'")))
        | some spec ↦ run_spec spec version (first ∷ args)
      ]

module _ {S : Type 0} where
  unfoldable pub connectivity : List (Bytes × ℤ × CommandHandler S)
  unfolding Connectivity.ping Connectivity.echo
  connectivity =
      (text "PING", negsuc 0, Connectivity.ping) ∷ (text "ECHO", pos 2, Connectivity.echo) ∷ []

module _ ⦃h : Host⦄ where
  unfoldable pub strings : List (Bytes × ℤ × CommandHandler (Store h))
  unfolding Strings.set Strings.get Strings.del Strings.exists Strings.type_of Strings.expire
      Strings.pexpire Strings.ttl Strings.pttl
  strings =
      (text "SET", negsuc 2, Strings.set)
      ∷ (text "GET", pos 2, Strings.get)
      ∷ (text "DEL", negsuc 1, Strings.del)
      ∷ (text "EXISTS", negsuc 1, Strings.exists)
      ∷ (text "TYPE", pos 2, Strings.type_of)
      ∷ (text "EXPIRE", pos 3, Strings.expire)
      ∷ (text "PEXPIRE", pos 3, Strings.pexpire)
      ∷ (text "TTL", pos 2, Strings.ttl)
      ∷ (text "PTTL", pos 2, Strings.pttl)
      ∷ []

  unfoldable pub hashes : List (Bytes × ℤ × CommandHandler (Store h))
  unfolding Hashes.hset Hashes.hget Hashes.hmget Hashes.hgetall Hashes.hdel Hashes.hlen
      Hashes.hexists
  hashes =
      (text "HSET", negsuc 3, Hashes.hset)
      ∷ (text "HMSET", negsuc 3, Hashes.hset)
      ∷ (text "HGET", pos 3, Hashes.hget)
      ∷ (text "HMGET", negsuc 2, Hashes.hmget)
      ∷ (text "HGETALL", pos 2, Hashes.hgetall)
      ∷ (text "HDEL", negsuc 2, Hashes.hdel)
      ∷ (text "HLEN", pos 2, Hashes.hlen)
      ∷ (text "HEXISTS", pos 3, Hashes.hexists)
      ∷ []

  unfoldable pub sets : List (Bytes × ℤ × CommandHandler (Store h))
  unfolding Sets.sadd Sets.srem Sets.sismember Sets.smembers Sets.scard
  sets =
      (text "SADD", negsuc 2, Sets.sadd)
      ∷ (text "SREM", negsuc 2, Sets.srem)
      ∷ (text "SISMEMBER", pos 3, Sets.sismember)
      ∷ (text "SMEMBERS", pos 2, Sets.smembers)
      ∷ (text "SCARD", pos 2, Sets.scard)
      ∷ []

  unfoldable pub sorted_sets : FloatText → List (Bytes × ℤ × CommandHandler (Store h))
  unfolding SortedSets.zadd SortedSets.zscore SortedSets.zrange SortedSets.zrangebyscore
      SortedSets.zrem SortedSets.zcard
  sorted_sets floats =
      (text "ZADD", negsuc 3, SortedSets.zadd floats)
      ∷ (text "ZSCORE", pos 3, SortedSets.zscore floats)
      ∷ (text "ZRANGE", negsuc 3, SortedSets.zrange floats)
      ∷ (text "ZRANGEBYSCORE", negsuc 3, SortedSets.zrangebyscore floats)
      ∷ (text "ZREM", negsuc 2, SortedSets.zrem floats)
      ∷ (text "ZCARD", pos 2, SortedSets.zcard floats)
      ∷ []

  unfoldable pub lists : List (Bytes × ℤ × CommandHandler (Store h))
  unfolding Sequences.push Sequences.pop Sequences.lrange Sequences.llen
  lists =
      (text "LPUSH", negsuc 2, Sequences.push)
      ∷ (text "RPUSH", negsuc 2, Sequences.push)
      ∷ (text "LPOP", negsuc 1, Sequences.pop)
      ∷ (text "RPOP", negsuc 1, Sequences.pop)
      ∷ (text "LRANGE", pos 4, Sequences.lrange)
      ∷ (text "LLEN", pos 2, Sequences.llen)
      ∷ []

  unfoldable pub admin : List (Bytes × ℤ × CommandHandler (Store h))
  unfolding Admin.dbsize Admin.rawcount Admin.compact
  admin =
      (text "DBSIZE", pos 1, Admin.dbsize)
      ∷ (text "RAWCOUNT", pos 1, Admin.rawcount)
      ∷ (text "COMPACT", pos 1, Admin.compact)
      ∷ []

  unfoldable pub register_all : FloatText → CommandRegistry (Store h) → CommandRegistry (Store h)
  unfolding register_list connectivity strings hashes sets sorted_sets lists admin
  register_all floats commands = register_list admin (
      register_list lists (
        register_list (sorted_sets floats) (
          register_list sets
            (register_list hashes (register_list strings (register_list connectivity commands))))))

  unfoldable pub standard : FloatText → CommandRegistry (Store h)
  unfolding register_all
  standard floats = register_all floats []
