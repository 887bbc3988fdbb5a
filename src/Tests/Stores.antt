-- ===== src/Tests/Stores.antt =====
-- Tests of the store over the database in memory.
use game_store.Prelude.{
  ℕ, ◌≤◌, ◌<◌, ◌+◌, ◌/◌, ◌%◌, ◌^◌, ◌<◌, ◌||◌, false, none, some, [], ◌∷◌, ◌≡◌, refl, ap, ◌∙◌, arith,
  if◌then◌else◌, ltb, ◌==◌, length, filter_by, not, map,
}
use game_store.Bytes.{Bytes, text, bytes_lt}
use game_store.Encoding.Keys.{subkey}
use game_store.Encoding.Keys.RoundTrip.{parse_owner_version-subkey}
use game_store.Encoding.Meta.{type_hash}
use game_store.Engine.Error.{ok}
use game_store.Engine.Interface.{IsReliable}
use game_store.Engine.Records.{Records, IsSorted, lookup, with_prefix}
use game_store.Rocks.{rocks_engine, prefix_scan, done}
use game_store.Rocks.Reliable.{rocks_engine-IsReliable, prefix_scan-eq-with_prefix}
use game_store.Store.Base.{typed}
use game_store.Store.Admin.{compact, with_engine, flush_all, dbsize, raw_subkey_count}
use game_store.Store.Strings.{get, set, del, exists, expire_at}
use game_store.Store.Strings.Laws.{get-set, exists-del, meta_at-set, set_lem, string_meta}
use game_store.Store.Strings.Expiry.{get-expire_at, in_time}
use game_store.Store.Hash.{hset, hget, hgetall, hexists}
use game_store.Store.Hash.Write.{overwritten}
use game_store.Store.Hash.View.{
  hget_reply, field_in, looked_up, mentions, is_refused, is_other, hget-hgetall,
}
use game_store.Store.Hash.ReadBack.{hget-hset}
use game_store.Store.Compaction.Replies.{hget-compact, hgetall-compact}
use game_store.Store.Compaction.Reclaim.{del-compact-reclaims, set-compact-reclaims}
use game_store.Store.Restart.{IsReadableAt, with_engine-IsConsistent}
use game_store.Store.Flush.{dbsize-flush_all}
use game_store.Store.Load.{live_meta}
use game_store.Store.View.{IsConsistent, records, meta_at}
use game_store.Store.Base.{next_version}
use game_store.Store.VersionClock.{next_version_increases, micros, next_version_least}
use game_store.Reference.{memory, memory-IsOrderedStore, memory_host, memory_laws, empty_store}
use game_store.Tests.Fixtures.{
  user_key, pairs, empty_store-IsConsistent, empty_store-IsFresh, hash_store-IsReadableAt,
  nothing_live, hash_store, hash_store-IsConsistent, string_store, string_store-IsConsistent,
}

abbrev name : Bytes
name = text "name"

short : length user_key < 2 ^ 32
unfolding text
short = omega arith

no_field : (hget user_key name empty_store).0 ≡ ok none
unfolding typed
no_field =
    hget_reply memory_laws user_key empty_store empty_store-IsConsistent name
    ∙ ap (λ o. field_in user_key name (records memory_laws empty_store) (typed type_hash o))
        (nothing_live user_key)

hget-hset_example :
    (hget user_key name (hset user_key pairs empty_store).1).0 ≡ ok (overwritten name pairs none)
hget-hset_example =
    hget-hset memory_laws user_key name empty_store empty_store-IsConsistent empty_store-IsFresh
      (unfold empty_store in omega arith) pairs none no_field
      (λ m e. absurd (cc (nothing_live user_key)))

hget-hgetall_example :
    ((hget user_key name hash_store).0 ≡ looked_up name (hgetall user_key hash_store).0)
    × ((hexists user_key name hash_store).0 ≡ mentions name (hgetall user_key hash_store).0)
    × (is_refused (hgetall user_key hash_store).0
        ≡ is_other (live_meta memory_laws user_key hash_store))
hget-hgetall_example = hget-hgetall memory_laws user_key hash_store hash_store-IsConsistent name

next_version_least_example :
    (v : ℕ) × ((next_version empty_store).0 ≡ ok v)
    × (empty_store.version_clock < v)
    × (micros empty_store ≤ v)
    × ((w : ℕ) → empty_store.version_clock < w → micros empty_store ≤ w → v ≤ w)
next_version_least_example = next_version_least empty_store (unfold empty_store in omega arith)

hget-compact_example :
    (hget user_key name (compact hash_store).1).0 ≡ (hget user_key name hash_store).0
hget-compact_example =
    hget-compact memory_laws user_key hash_store hash_store-IsConsistent short name

hgetall-compact_example :
    (hgetall user_key (compact hash_store).1).0 ≡ (hgetall user_key hash_store).0
hgetall-compact_example =
    hgetall-compact memory_laws user_key hash_store hash_store-IsConsistent short

get-set_example :
    (get user_key (set user_key name 2000 empty_store).1).0
    ≡ ok (
        if (2000 == 0) || ltb (memory_host.wall (empty_store.readings + 1) / 1000 % 2 ^ 64) 2000
        then some name
        else none)
get-set_example =
    get-set memory_laws user_key name 2000 empty_store (omega arith) empty_store-IsConsistent

exists-del_example :
    ((del user_key hash_store).0 ≡ (exists user_key hash_store).0)
    × ((exists user_key (del user_key hash_store).1).0 ≡ ok false)
exists-del_example = exists-del memory_laws user_key hash_store hash_store-IsConsistent

get-expire_at_example : (get user_key (expire_at user_key 1500 string_store).1).0 ≡ (
    if in_time 1500 (expire_at user_key 1500 string_store).1
    then (get user_key string_store).0
    else ok none)
get-expire_at_example =
    get-expire_at memory_laws user_key 1500 string_store (omega arith) string_store-IsConsistent

string_found :
    meta_at memory_laws user_key string_store ≡ some (string_meta (text "ada") 2000 empty_store)
string_found =
    ap (λ r. meta_at memory_laws user_key r.1)
      (set_lem memory_laws user_key (text "ada") 2000 empty_store)
    ∙ meta_at-set memory_laws user_key (text "ada") 2000 empty_store (omega arith)

del-compact-reclaims_example :
    lookup (subkey user_key 7 name) (records memory_laws (compact (del user_key string_store).1).1)
    ≡ none
del-compact-reclaims_example =
    del-compact-reclaims memory_laws user_key (subkey user_key 7 name) 7 string_store
      (string_meta (text "ada") 2000 empty_store) string_store-IsConsistent string_found
      (parse_owner_version-subkey user_key 7 name (short, omega arith))

set-compact-reclaims_example :
    lookup
      (subkey user_key 7 name)
      (records memory_laws (compact (set user_key name 0 hash_store).1).1)
    ≡ none
set-compact-reclaims_example =
    set-compact-reclaims memory_laws user_key (subkey user_key 7 name) name 7 0 hash_store
      (parse_owner_version-subkey user_key 7 name (short, omega arith))

-- The rows of `hash_store`, before a store is made of them.
unfoldable opened_engine : memory_host.engine.Opened
unfolding rocks_engine
opened_engine = hash_store.engine

opened_engine-IsReadableAt :
    (k : Bytes)
    → IsReadableAt k (memory_laws.contents (memory_host.engine.install_gc opened_engine))
unfolding opened_engine rocks_engine
opened_engine-IsReadableAt k = hash_store-IsReadableAt k

with_engine-IsConsistent_example :
    ((with_engine opened_engine 0 0).0 ≡ ok tt)
    × IsConsistent memory_laws (with_engine opened_engine 0 0).1
with_engine-IsConsistent_example =
    with_engine-IsConsistent memory_laws opened_engine 0 0 opened_engine-IsReadableAt

dbsize-flush_all_example :
    ((flush_all hash_store).0 ≡ ok tt)
    × ((dbsize (flush_all hash_store).1).0 ≡ ok 0)
    × ((raw_subkey_count (flush_all hash_store).1).0 ≡ ok 0)
dbsize-flush_all_example = dbsize-flush_all memory_laws hash_store

rocks_engine-IsReliable_example : IsReliable (rocks_engine memory)
rocks_engine-IsReliable_example = rocks_engine-IsReliable memory memory-IsOrderedStore

abbrev rows : Records
rows = (1 ∷ [], 9 ∷ []) ∷ (1 ∷ 2 ∷ [], 8 ∷ []) ∷ (2 ∷ [], 7 ∷ []) ∷ []

rows-IsSorted : IsSorted rows
unfolding bytes_lt
rows-IsSorted = ((refl, (refl, tt)), ((refl, tt), (tt, tt)))

prefix_scan-eq-with_prefix_example :
    prefix_scan (1 ∷ []) (map done (filter_by (λ e. not (bytes_lt e.0 (1 ∷ []))) rows))
    ≡ map ok (with_prefix (1 ∷ []) rows)
prefix_scan-eq-with_prefix_example = prefix_scan-eq-with_prefix (1 ∷ []) rows rows-IsSorted

first_version : (next_version empty_store).0 ≡ ok 1000000
unfolding next_version empty_store
first_version = refl

next_version_increases_example :
    (empty_store.version_clock < 1000000) × ((next_version empty_store).1.version_clock ≡ 1000000)
next_version_increases_example =
    next_version_increases empty_store 1000000 (unfold empty_store in omega arith) first_version
