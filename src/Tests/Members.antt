-- ===== src/Tests/Members.antt =====
-- Tests of the Set operations.
use game_store.Prelude.{◌||◌, false, [], ◌∷◌, ◌≡◌, sym, ap, ◌∙◌, subst, arith}
use game_store.Bytes.{Bytes, text}
use game_store.Encoding.Meta.{type_set}
use game_store.Engine.Error.{ok}
use game_store.Store.Base.{typed}
use game_store.Store.View.{records}
use game_store.Store.Set.{contains, sadd, sismember}
use game_store.Store.Set.Replies.{member_in, sismember_reply, IsUnlimited}
use game_store.Store.Set.Members.{sismember-sadd}
use game_store.Reference.{memory_host, memory_laws, empty_store}
use game_store.Tests.Fixtures.{
  user_key, empty_store-IsConsistent, empty_store-IsFresh, nothing_live,
}

abbrev name : Bytes
name = text "name"

no_member : (sismember user_key name empty_store).0 ≡ ok false
unfolding typed
no_member =
    sismember_reply memory_laws user_key name empty_store empty_store-IsConsistent
    ∙ ap (λ o. member_in user_key name (records memory_laws empty_store) (typed type_set o))
        (nothing_live user_key)

sismember-sadd_example :
    (sismember user_key name (sadd user_key (text "a" ∷ name ∷ name ∷ []) empty_store).1).0
    ≡ ok (false || contains (text "a" ∷ name ∷ name ∷ []) name)
sismember-sadd_example =
    sismember-sadd memory_laws user_key name empty_store empty_store-IsConsistent
      empty_store-IsFresh (unfold empty_store in omega arith) (text "a" ∷ name ∷ name ∷ []) false
      no_member (subst IsUnlimited (sym (nothing_live user_key)) tt)
