-- ===== src/Tests/Lengths.antt =====
-- Tests of the List operations.
use game_store.Prelude.{◌+◌, true, List, [], ◌∷◌, ◌≡◌, refl, sym, subst, arith, length}
use game_store.Prelude.Int.{pos}
use game_store.Bytes.{Bytes, text}
use game_store.Engine.Error.{ok}
use game_store.Store.Lists.{push, llen}
use game_store.Store.Lists.Span.{IsListed}
use game_store.Store.Lists.Length.{llen-push}
use game_store.Reference.{memory_host, memory_laws, empty_store}
use game_store.Tests.Fixtures.{user_key, empty_store-IsConsistent, nothing_live}

abbrev values : List Bytes
values = text "a" ∷ text "b" ∷ text "a" ∷ []

llen-push_example :
    ((llen user_key empty_store).0 ≡ ok (pos 0))
    × ((push user_key values true empty_store).0 ≡ ok (pos (0 + length values)))
    × ((llen user_key (push user_key values true empty_store).1).0 ≡ ok (pos (0 + length values)))
llen-push_example =
    llen-push memory_laws user_key values true empty_store 0 empty_store-IsConsistent
      (subst (λ o. IsListed o 0) (sym (nothing_live user_key)) refl) (omega arith)
