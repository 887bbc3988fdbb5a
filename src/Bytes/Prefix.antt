-- ===== src/Bytes/Prefix.antt =====
-- Byte strings: lemmas on the prefix test.
use game_store.Prelude.{◌≡◌, refl, true, false, [], ◌∷◌, ◌++◌, arith, length, drop}
use game_store.Bytes.{Bytes, bytes_lt, starts_with}

pub starts_with-append : (p r : Bytes) → starts_with p (p ++ r) ≡ true
unfolding starts_with
starts_with-append [] r = refl
starts_with-append (x ∷ p) r = ground (arith, starts_with-append p r)

-- What starts with a prefix is the prefix and the rest.
pub append-drop_of_starts_with :
    (p raw : Bytes) → starts_with p raw ≡ true → raw ≡ p ++ drop (length p) raw
unfolding starts_with
append-drop_of_starts_with [] raw h = refl
append-drop_of_starts_with (x ∷ p) [] h = cc
append-drop_of_starts_with (x ∷ p) (y ∷ raw) h = ground (arith, append-drop_of_starts_with p raw)

-- What is below a prefix does not start with it.
pub not-starts_with_of_lt : (p raw : Bytes) → bytes_lt raw p ≡ true → starts_with p raw ≡ false
unfolding starts_with bytes_lt
not-starts_with_of_lt [] [] h = cc
not-starts_with_of_lt [] (y ∷ raw) h = cc
not-starts_with_of_lt (x ∷ p) [] h = refl
not-starts_with_of_lt (x ∷ p) (y ∷ raw) h = ground (arith, not-starts_with_of_lt p raw)

-- From the first byte string at or above a prefix that does not start with it, none does.
pub not-starts_with_above :
    (p raw next : Bytes)
    → bytes_lt raw p ≡ false
    → starts_with p raw ≡ false
    → bytes_lt raw next ≡ true
    → starts_with p next ≡ false
unfolding starts_with bytes_lt
not-starts_with_above [] raw next h k l = cc
not-starts_with_above (x ∷ p) [] next h k l = cc
not-starts_with_above (x ∷ p) (y ∷ raw) [] h k l = cc
not-starts_with_above (x ∷ p) (y ∷ raw) (z ∷ next) h k l =
    ground (arith, not-starts_with_above p raw next)
