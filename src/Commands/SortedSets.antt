-- ===== src/Commands/SortedSets.antt =====
-- crates/gamestore-datamodel/src/commands/zset.rs. A score is its 64 bits.
use game_store.Prelude.{
  ℕ, ◌-◌, ◌%◌, Bool, true, false, ◌||◌, Option, none, some, List, [], ◌∷◌, ◌==◌, if◌then◌else◌, ltb,
  length, take, drop, get_elem?, map,
}
use game_store.Prelude.Int.{ℤ, pos, negsuc}
use game_store.Bytes.{Bytes, text}
use game_store.Encoding.Score.{is_nan}
use game_store.Protocol.Text.{FloatText, is_utf8, format_i64}
use game_store.Protocol.Frame.{
  RespVersion, v2, v3, Frame, Frames, end, item, error, integer, bulk, array, null, double,
}
use game_store.Store.Base.{Host, Store}
use game_store.Store.ZSet
use game_store.Commands.Text.{eq_ignore_ascii_case, has_white_space}
use game_store.Commands.Arith.{integral_value}
use game_store.Commands.Base.{
  Reply, reply, respond, arg, frames_of, parse_i64, not_an_integer, syntax_error,
}

abbrev pub not_a_float : Frame
not_a_float = error (text "ERR value is not a valid float")

abbrev pub bad_range_bound : Frame
bad_range_bound = error (text "ERR min or max is not a float")

-- The flags of ZADD that are refused.
abbrev pub flags : List Bytes
flags = map text ("NX" ∷ "XX" ∷ "GT" ∷ "LT" ∷ "CH" ∷ "INCR" ∷ [])

unfoldable pub is_flag : List Bytes → Bytes → Bool
unfolding eq_ignore_ascii_case
is_flag [] a = false
is_flag (f ∷ known) a = eq_ignore_ascii_case a f || is_flag known a

unfoldable exclusive : Bool → Option ℕ → Option (ℕ × Bool)
exclusive excl none = none
exclusive excl (some v) = some (v, excl)

module _ (floats : FloatText) where
  unfoldable pub parse_score : Bytes → Option ℕ
  unfolding has_white_space
  parse_score raw =
      if is_utf8 raw
      then (if (length raw == 0) || has_white_space raw
          then none
          else elim (floats.parse raw) [ none ↦ none | some v ↦ if is_nan v then none else some v ])
      else none

  -- A bound and whether it is exclusive, which a `(` before it says.
  unfoldable pub parse_score_bound : Bytes → Option (ℕ × Bool)
  unfolding parse_score exclusive
  parse_score_bound [] = exclusive false (parse_score [])
  parse_score_bound (b ∷ rest) =
      if b == 40
      then exclusive true (parse_score rest)
      else exclusive false (parse_score (b ∷ rest))

  unfoldable pub format_score : ℕ → Bytes
  unfolding integral_value
  format_score score = elim (integral_value score) [
    | none ↦ floats.format score
    | some n ↦ format_i64 n
  ]

  unfoldable pub score_frame : ℕ → RespVersion → Frame
  unfolding format_score
  score_frame score v3 = double score
  score_frame score v2 = bulk (format_score score)

  unfoldable pub flat_scores : List (Bytes × ℕ) → Frames
  unfolding format_score
  flat_scores [] = end
  flat_scores ((member, score) ∷ pairs) =
      item (bulk member) (item (bulk (format_score score)) (flat_scores pairs))

  abbrev scored_pair : Bytes × ℕ → Frame
  scored_pair (member, score) = array (item (bulk member) (item (double score) end))

  unfoldable pub range_reply : List (Bytes × ℕ) → Bool → RespVersion → Frame
  unfolding frames_of flat_scores
  range_reply pairs false version = array (frames_of (λ p. bulk p.0) pairs)
  range_reply pairs true v2 = array (flat_scores pairs)
  range_reply pairs true v3 = array (frames_of scored_pair pairs)

  -- The scores and members of ZADD; `none` where a score is not one.
  unfoldable pub scored_chunks : List Bytes → Option (List (ℕ × Bytes))
  unfolding parse_score
  scored_chunks [] = some []
  scored_chunks (raw ∷ []) = some []
  scored_chunks (raw ∷ member ∷ rest) = elim (parse_score raw) [
    | none ↦ none
    | some score ↦ elim (scored_chunks rest) [
      | none ↦ none
      | some pairs ↦ some ((score, member) ∷ pairs)
    ]
  ]

  unfoldable pub score_or_null : RespVersion → Option ℕ → Frame
  unfolding score_frame
  score_or_null version none = null
  score_or_null version (some score) = score_frame score version

-- The options of ZRANGEBYSCORE; `none` is a syntax error.
unfoldable pub range_options : List Bytes → Bool → Option (ℤ × ℤ) → Option (Bool × Option (ℤ × ℤ))
unfolding eq_ignore_ascii_case parse_i64
range_options [] withscores limit = some (withscores, limit)
range_options (opt ∷ []) withscores limit =
    if eq_ignore_ascii_case opt (text "WITHSCORES") then some (true, limit) else none
range_options (opt ∷ x ∷ []) withscores limit =
    if eq_ignore_ascii_case opt (text "WITHSCORES") then range_options (x ∷ []) true limit else none
range_options (opt ∷ x ∷ y ∷ options) withscores limit =
    let next = range_options (x ∷ y ∷ options) true limit in
    let behind_limit = range_options options withscores in
    if eq_ignore_ascii_case opt (text "WITHSCORES")
    then next
    else if eq_ignore_ascii_case opt (text "LIMIT")
    then elim (parse_i64 x) [
      | none ↦ none
      | some off ↦ elim (parse_i64 y) [ none ↦ none | some cnt ↦ behind_limit (some (off, cnt)) ]
    ]
    else none

-- `LIMIT offset count` on the pairs of the range.
unfoldable pub limited : Option (ℤ × ℤ) → List (Bytes × ℕ) → List (Bytes × ℕ)
limited none pairs = pairs
limited (some (negsuc n, cnt)) pairs = []
limited (some (pos off, negsuc n)) pairs = drop off pairs
limited (some (pos off, pos cnt)) pairs = take cnt (drop off pairs)

-- The argument behind the range of ZRANGE: `none` where it is not WITHSCORES.
unfoldable pub withscores_option : Option Bytes → Option Bool
unfolding eq_ignore_ascii_case
withscores_option none = some false
withscores_option (some opt) =
    if eq_ignore_ascii_case opt (text "WITHSCORES") then some true else none

module _ ⦃h : Host⦄ (floats : FloatText) where
  unfoldable pub zadd : RespVersion → List Bytes → Reply (Store h)
  unfolding is_flag scored_chunks ZSet.zadd
  zadd version args =
      if is_flag flags (arg args 2)
      then reply syntax_error
      else if (length args - 2) % 2 == 0
      then elim (scored_chunks floats (drop 2 args)) [
        | none ↦ reply not_a_float
        | some pairs ↦ respond (ZSet.zadd (arg args 1) pairs) (λ added. integer (pos added))
      ]
      else reply syntax_error

  unfoldable pub zscore : RespVersion → List Bytes → Reply (Store h)
  unfolding ZSet.zscore score_or_null
  zscore version args =
      respond (ZSet.zscore (arg args 1) (arg args 2)) (score_or_null floats version)

  -- The part of `zrange` behind its bounds.
  unfoldable pub zrange_between : RespVersion → List Bytes → ℤ → ℤ → Reply (Store h)
  unfolding withscores_option ZSet.zrange range_reply
  zrange_between version args start stop = elim (withscores_option (get_elem? args 4)) [
    | none ↦ reply syntax_error
    | some withscores ↦
        if ltb 5 (length args)
        then reply syntax_error
        else respond (ZSet.zrange (arg args 1) start stop)
            (λ pairs. range_reply floats pairs withscores version)
  ]

  unfoldable pub zrange : RespVersion → List Bytes → Reply (Store h)
  unfolding parse_i64 zrange_between
  zrange version args = elim (parse_i64 (arg args 2)) [
    | none ↦ reply not_an_integer
    | some start ↦ elim (parse_i64 (arg args 3)) [
      | none ↦ reply not_an_integer
      | some stop ↦ zrange_between version args start stop
    ]
  ]

  -- The part of `zrangebyscore` behind its bounds.
  unfoldable pub zrangebyscore_between :
      RespVersion → List Bytes → ℕ × Bool → ℕ × Bool → Reply (Store h)
  unfolding range_options ZSet.zrange_by_score limited range_reply
  zrangebyscore_between version args (min, min_excl) (max, max_excl) =
      elim (range_options (drop 4 args) false none) [
        | none ↦ reply syntax_error
        | some (withscores, limit) ↦
            respond (ZSet.zrange_by_score (arg args 1) min min_excl max max_excl)
              (λ pairs. range_reply floats (limited limit pairs) withscores version)
      ]

  unfoldable pub zrangebyscore : RespVersion → List Bytes → Reply (Store h)
  unfolding parse_score_bound zrangebyscore_between
  zrangebyscore version args = elim (parse_score_bound floats (arg args 2)) [
    | none ↦ reply bad_range_bound
    | some lo ↦ elim (parse_score_bound floats (arg args 3)) [
      | none ↦ reply bad_range_bound
      | some hi ↦ zrangebyscore_between version args lo hi
    ]
  ]

  unfoldable pub zrem : RespVersion → List Bytes → Reply (Store h)
  unfolding ZSet.zrem
  zrem version args =
      respond (ZSet.zrem (arg args 1) (drop 2 args)) (λ removed. integer (pos removed))

  unfoldable pub zcard : RespVersion → List Bytes → Reply (Store h)
  unfolding ZSet.zcard
  zcard version args = respond (ZSet.zcard (arg args 1)) (λ n. integer (pos n))
