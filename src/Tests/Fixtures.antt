-- ===== src/Tests/Fixtures.antt =====
-- The stores and the facts about them that the tests share.
use game_store.Prelude.{none, List, [], ◌∷◌, ◌≡◌, refl, ap, ◌∙◌, sym, arith, subst}
use game_store.Bytes.{Bytes, text}
use game_store.Encoding.Keys.{meta_key}
use game_store.Engine.Error.{ok}
use game_store.Engine.Records.{lookup}
use game_store.Gc
use game_store.Store.Base.{Store, decode_record}
use game_store.Store.Fresh.{IsFresh}
use game_store.Store.Hash.{hset}
use game_store.Store.Hash.Refine.{hset-IsConsistent}
use game_store.Store.Strings.{set}
use game_store.Store.Strings.Laws.{set-IsConsistent}
use game_store.Store.View.{IsConsistent, IsConsistentWith, meta_in}
use game_store.Store.Restart.{IsReadableAt}
use game_store.Store.Load.{settled, live_meta}
use game_store.Reference.{memory_host, memory_laws, empty_store, empty_records}

abbrev pub user_key : Bytes
user_key = text "u:1"

abbrev pub pairs : List (Bytes × Bytes)
pairs = (text "name", text "ada") ∷ (text "age", text "36") ∷ (text "name", text "eve") ∷ []

none_at : (k : Bytes) → meta_in k [] ≡ none
unfolding meta_in lookup
none_at k = refl

readable_of_nothing : (k : Bytes) → decode_record (lookup (meta_key k) []) ≡ ok (meta_in k [])
unfolding decode_record lookup meta_in
readable_of_nothing k = refl

nothing_agrees : IsConsistentWith [] Gc.new
nothing_agrees k = record {
  readable = readable_of_nothing k;
  encodable = λ m e. absurd (cc (none_at k));
  current = λ m e composite. absurd (cc (none_at k));
}

pub empty_store-IsConsistent : IsConsistent memory_laws empty_store
unfolding empty_store
empty_store-IsConsistent =
    subst (λ rs. IsConsistentWith rs Gc.new) (sym empty_records) nothing_agrees

pub empty_store-IsFresh : IsFresh memory_laws empty_store
empty_store-IsFresh = record {
  metas = λ k m e. absurd (cc (none_at k, ap (meta_in k) empty_records));
  members = λ k version f small above. ap (lookup _) empty_records ∙ unfold lookup in refl;
}

-- A store with one Hash of three pairs.
abbrev pub hash_store : Store memory_host
hash_store = (hset user_key pairs empty_store).1

pub hash_store-IsConsistent : IsConsistent memory_laws hash_store
hash_store-IsConsistent =
    hset-IsConsistent memory_laws user_key pairs empty_store empty_store-IsConsistent

-- A store with one String that expires.
abbrev pub string_store : Store memory_host
string_store = (set user_key (text "ada") 2000 empty_store).1

pub string_store-IsConsistent : IsConsistent memory_laws string_store
string_store-IsConsistent =
    set-IsConsistent memory_laws user_key (text "ada") 2000 empty_store (omega arith)
      empty_store-IsConsistent

pub nothing_live : (k : Bytes) → live_meta memory_laws k empty_store ≡ none
nothing_live k = ap (λ o. (settled k o empty_store).0) (ap (meta_in k) empty_records ∙ none_at k)

pub hash_store-IsReadableAt : (k : Bytes) → IsReadableAt k (memory_laws.contents hash_store.engine)
hash_store-IsReadableAt k = record {
  readable = (hash_store-IsConsistent k).readable;
  encodable = (hash_store-IsConsistent k).encodable;
}
