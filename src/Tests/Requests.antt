-- ===== src/Tests/Requests.antt =====
-- Tests of the commands.
use game_store.Prelude.{
  ℕ, ◌+◌, ◌*◌, ◌≤◌, ◌<◌, true, false, some, List, [], ◌∷◌, ◌≡◌, refl, ap, ◌∙◌, subst, arith,
}
use game_store.Prelude.Int.{negsuc, pos}
use game_store.Bytes.{Bytes, text, ◌==ᵇ◌}
use game_store.Encoding.Meta.{Meta}
use game_store.Protocol.Frame
use game_store.Protocol.Frame.{v2, integer, bulk, null}
use game_store.Store.Base.{Store, now_ms}
use game_store.Store.Hash.{hset, hget, hgetall, hdel, hlen, hexists}
use game_store.Store.Set.{sadd, srem, sismember, smembers, scard}
use game_store.Store.ZSet.{zadd, zscore, zrem, zcard, zrange, zrange_by_score}
use game_store.Store.Lists.{push, pop, lrange, llen}
use game_store.Store.Load.{settled, ticked, live_meta, load_live_meta_lem}
use game_store.Store.Strings
use game_store.Store.Strings.{remaining}
use game_store.Store.View.{IsConsistent, meta_at}
use game_store.Protocol.Text.{is_utf8, i64_from_text}
use game_store.Store.Strings.Laws.{string_meta, with_meta, unversioned, set_lem, meta_at-set}
use game_store.Store.WrongType.{IsRefused, string-IsRefused}
use game_store.Commands.Base.{parse_i64, on_result}
use game_store.Commands.Strings.{expire_generic, set, get, ttl, pttl, unit_ms}
use game_store.Commands.Deadlines.{ttl-pttl, until, clock_at, get-set_options, get-expire_generic}
use game_store.Reference.{memory_host, memory_laws, empty_store}
use game_store.Tests.Fixtures.{
  user_key, empty_store-IsConsistent, string_store, string_store-IsConsistent,
}

abbrev ada : Meta
ada = string_meta (text "ada") 2000 empty_store

-- `string_store`, as the write that SET ends with.
abbrev after_set : Store memory_host
after_set = with_meta user_key ada (unversioned user_key empty_store)

string_store_after : string_store ≡ after_set
string_store_after = ap (λ r. r.1) (set_lem memory_laws user_key (text "ada") 2000 empty_store)

settled_string :
    settled user_key (meta_at memory_laws user_key after_set) after_set
    ≡ (some ada, ticked ada after_set)
unfolding empty_store
settled_string =
    ap (λ o. settled user_key o after_set)
      (meta_at-set memory_laws user_key (text "ada") 2000 empty_store (omega arith))
    ∙ refl

live_string : live_meta memory_laws user_key string_store ≡ some ada
live_string = ap (live_meta memory_laws user_key) string_store_after ∙ ap (λ r. r.0) settled_string

string-IsRefused_example :
    (IsRefused memory_laws user_key string_store (hset user_key [] string_store)
      × IsRefused memory_laws user_key string_store (hget user_key user_key string_store)
      × IsRefused memory_laws user_key string_store (hgetall user_key string_store)
      × IsRefused memory_laws user_key string_store (hdel user_key [] string_store)
      × IsRefused memory_laws user_key string_store (hlen user_key string_store)
      × IsRefused memory_laws user_key string_store (hexists user_key user_key string_store))
    × (IsRefused memory_laws user_key string_store (sadd user_key [] string_store)
        × IsRefused memory_laws user_key string_store (srem user_key [] string_store)
        × IsRefused memory_laws user_key string_store (sismember user_key user_key string_store)
        × IsRefused memory_laws user_key string_store (smembers user_key string_store)
        × IsRefused memory_laws user_key string_store (scard user_key string_store))
    × (IsRefused memory_laws user_key string_store (zadd user_key [] string_store)
        × IsRefused memory_laws user_key string_store (zscore user_key user_key string_store)
        × IsRefused memory_laws user_key string_store (zrem user_key [] string_store)
        × IsRefused memory_laws user_key string_store (zcard user_key string_store)
        × IsRefused memory_laws user_key string_store (zrange user_key (pos 0) (pos 1) string_store)
        × IsRefused memory_laws user_key string_store
            (zrange_by_score user_key 0 false 1 true string_store))
    × (IsRefused memory_laws user_key string_store (push user_key [] true string_store)
        × IsRefused memory_laws user_key string_store (pop user_key 1 true string_store)
        × IsRefused memory_laws user_key string_store (lrange user_key (pos 0) (pos 1) string_store)
        × IsRefused memory_laws user_key string_store (llen user_key string_store))
string-IsRefused_example =
    string-IsRefused memory_laws user_key string_store (string_meta (text "ada") 2000 empty_store)
      [] [] [] user_key (pos 0) (pos 1) 0 1 1 false true true string_store-IsConsistent live_string
      refl

abbrev ttl_args : List Bytes
ttl_args = text "TTL" ∷ user_key ∷ []

milliseconds : (pttl v2 ttl_args string_store).0 ≡ integer (pos 998)
unfolding pttl Strings.pttl on_result
milliseconds =
    ap (λ t. (pttl v2 ttl_args t).0) string_store_after
    ∙ rw
        (
          load_live_meta_lem memory_laws user_key after_set
              (subst (IsConsistent memory_laws) string_store_after string_store-IsConsistent),
          settled_string,
        )
        (unfold empty_store remaining now_ms in refl)

ttl-pttl_example :
    (n : ℕ) × ((ttl v2 ttl_args string_store).0 ≡ integer (pos n))
    × (998 ≤ n * 1000)
    × (n * 1000 < 998 + 1000)
ttl-pttl_example = ttl-pttl v2 ttl_args string_store 998 milliseconds (omega arith)

px : unit_ms (text "PX") ≡ some 1
unfolding unit_ms ◌==ᵇ◌ text
px = refl

amount : parse_i64 (text "500") ≡ some (pos 500)
unfolding parse_i64 is_utf8 text i64_from_text
amount = refl

get-set_options_example :
    ((set v2 (text "SET" ∷ user_key ∷ text "ada" ∷ text "PX" ∷ text "500" ∷ []) empty_store).0
      ≡ Frame.ok)
    × ((get v2
          (text "GET" ∷ user_key ∷ [])
          (set v2
            (text "SET" ∷ user_key ∷ text "ada" ∷ text "PX" ∷ text "500" ∷ [])
            empty_store).1).0
        ≡ until
            (clock_at (empty_store.readings + 1 + 1))
            (500 * 1 + clock_at empty_store.readings)
            (text "ada"))
get-set_options_example =
    get-set_options memory_laws v2 (text "SET") (text "GET") user_key (text "ada") (text "PX")
      (text "500") 1 500 empty_store empty_store-IsConsistent px amount (omega arith)
      (unfold empty_store in omega arith) (unfold empty_store in omega arith)

minus_five : parse_i64 (text "-5") ≡ some (negsuc 4)
unfolding parse_i64 is_utf8 text i64_from_text
minus_five = refl

string_readings : string_store.readings ≡ 1
unfolding empty_store
string_readings = ap (λ t. t.readings) string_store_after ∙ refl

get-expire_generic_example :
    (get v2
      (text "GET" ∷ user_key ∷ [])
      (expire_generic 1000
        (text "EXPIRE")
        v2
        (text "EXPIRE" ∷ user_key ∷ text "-5" ∷ [])
        string_store).1).0
    ≡ null
get-expire_generic_example =
    get-expire_generic memory_laws 1000 4 (text "EXPIRE") v2 (text "EXPIRE") (text "GET") user_key
      (text "-5") string_store string_store-IsConsistent minus_five (omega arith) (omega arith)
      (rw string_readings (omega arith)) (rw string_readings (omega arith))
      (rw string_readings (omega arith)) (rw string_readings (omega arith))
