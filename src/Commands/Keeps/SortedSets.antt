-- ===== src/Commands/Keeps/SortedSets.antt =====
-- crates/gamestore-datamodel/src/commands, zset.rs: each command keeps a store consistent.
use game_store.Prelude.{ℕ, ◌-◌, ◌%◌, Bool, false, none, List, ◌==◌, ltb, drop, length, get_elem?}
use game_store.Prelude.Int.{ℤ}
use game_store.Bytes.{Bytes}
use game_store.Engine.Interface.{IsReliable}
use game_store.Protocol.Text.{FloatText}
use game_store.Protocol.Frame.{RespVersion}
use game_store.Store.Base.{Host}
use game_store.Store.ZSet
use game_store.Store.Keeps.SortedSets
use game_store.Store.Keeps.Reads
use game_store.Commands.Base.{arg, parse_i64, not_an_integer, syntax_error}
use game_store.Commands.SortedSets.{
  zadd, zscore, zrange_between, zrange, zrangebyscore_between, zrangebyscore, zrem, zcard,
  parse_score_bound, range_options, is_flag, flags, scored_chunks, withscores_option, not_a_float,
  bad_range_bound,
}
use game_store.Commands.Keeps.{Keeps, reply-Keeps, option-Keeps, if-Keeps, respond-Keeps}

module _ ⦃h : Host⦄ (laws : IsReliable h.engine) (floats : FloatText) where
  pub zadd-Keeps : (v : RespVersion) (args : List Bytes) → Keeps laws (zadd floats v args)
  unfolding zadd
  zadd-Keeps v args =
      if-Keeps laws (is_flag flags (arg args 2)) _ _ (reply-Keeps laws syntax_error) (
        if-Keeps laws ((length args - 2) % 2 == 0) _ _
          (option-Keeps laws (scored_chunks floats (drop 2 args)) _ _ (reply-Keeps laws not_a_float)
            (λ pairs.
              respond-Keeps laws (ZSet.zadd (arg args 1) pairs) _
                (SortedSets.zadd-IsConsistent laws (arg args 1) pairs)))
          (reply-Keeps laws syntax_error))

  pub zscore-Keeps : (v : RespVersion) (args : List Bytes) → Keeps laws (zscore floats v args)
  unfolding zscore
  zscore-Keeps v args =
      respond-Keeps laws (ZSet.zscore (arg args 1) (arg args 2)) _
        (Reads.zscore-IsConsistent laws (arg args 1) (arg args 2))

  zrange_between-Keeps :
      (v : RespVersion) (args : List Bytes) (start stop : ℤ)
      → Keeps laws (zrange_between floats v args start stop)
  unfolding zrange_between
  zrange_between-Keeps v args start stop =
      option-Keeps laws (withscores_option (get_elem? args 4)) _ _ (reply-Keeps laws syntax_error)
        (λ withscores. if-Keeps laws (ltb 5 (length args)) _ _ (reply-Keeps laws syntax_error) (
          respond-Keeps laws (ZSet.zrange (arg args 1) start stop) _
            (Reads.zrange-IsConsistent laws (arg args 1) start stop)))

  pub zrange-Keeps : (v : RespVersion) (args : List Bytes) → Keeps laws (zrange floats v args)
  unfolding zrange
  zrange-Keeps v args =
      option-Keeps laws (parse_i64 (arg args 2)) _ _ (reply-Keeps laws not_an_integer) (λ start.
        option-Keeps laws (parse_i64 (arg args 3)) _ _ (reply-Keeps laws not_an_integer)
          (λ stop. zrange_between-Keeps v args start stop))

  zrangebyscore_between-Keeps :
      (v : RespVersion) (args : List Bytes) (lo hi : ℕ × Bool)
      → Keeps laws (zrangebyscore_between floats v args lo hi)
  unfolding zrangebyscore_between
  zrangebyscore_between-Keeps v args (min, min_excl) (max, max_excl) =
      option-Keeps laws (range_options (drop 4 args) false none) _ _ (reply-Keeps laws syntax_error)
        (λ (withscores, limit).
          respond-Keeps laws (ZSet.zrange_by_score (arg args 1) min min_excl max max_excl) _
            (Reads.zrange_by_score-IsConsistent laws (arg args 1) min min_excl max max_excl))

  pub zrangebyscore-Keeps :
      (v : RespVersion) (args : List Bytes) → Keeps laws (zrangebyscore floats v args)
  unfolding zrangebyscore
  zrangebyscore-Keeps v args =
      option-Keeps laws (parse_score_bound floats (arg args 2)) _ _
        (reply-Keeps laws bad_range_bound)
        (λ lo.
          option-Keeps laws (parse_score_bound floats (arg args 3)) _ _
            (reply-Keeps laws bad_range_bound) (λ hi. zrangebyscore_between-Keeps v args lo hi))

  pub zrem-Keeps : (v : RespVersion) (args : List Bytes) → Keeps laws (zrem floats v args)
  unfolding zrem
  zrem-Keeps v args =
      respond-Keeps laws (ZSet.zrem (arg args 1) (drop 2 args)) _
        (SortedSets.zrem-IsConsistent laws (arg args 1) (drop 2 args))

  pub zcard-Keeps : (v : RespVersion) (args : List Bytes) → Keeps laws (zcard floats v args)
  unfolding zcard
  zcard-Keeps v args =
      respond-Keeps laws (ZSet.zcard (arg args 1)) _ (Reads.zcard-IsConsistent laws (arg args 1))
