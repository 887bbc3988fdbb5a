-- ===== src/Store/Lists/Span.antt =====
-- crates/gamestore-engine/src/store.rs: the bounds of a list, and the loop of push.
use game_store.Prelude.{
  ℕ, suc, ◌+◌, ◌%◌, ◌^◌, ◌<◌, Bool, true, false, Option, none, some, List, [], ◌∷◌, ◌≡◌, refl, sym,
  ap, ◌∙◌, arith, length,
}
use game_store.Prelude.Int.{pos, signed64}
use game_store.Bytes.{Bytes}
use game_store.Encoding.Meta.{Meta, type_list, list_bounds}
use game_store.Engine.Error.{ok}
use game_store.Engine.Batch.{WriteBatch}
use game_store.Store.Base.{Host, typed}
use game_store.Store.Load.{typed_same}
use game_store.Store.Lists.{add64, sub64, bounds_of, push_values, list_len}

-- Bounds of a list, as `u64`.
abbrev pub InRange : ℕ × ℕ → Type 0
InRange (head, tail) = (head < 2 ^ 64) × (tail < 2 ^ 64)

-- The number of indexes from the head to the tail.
abbrev pub span : ℕ × ℕ → ℕ
span (head, tail) = sub64 tail head

longer : (a b n : ℕ) → a ≡ (b + 1) % 2 ^ 64 → (a + n) % 2 ^ 64 ≡ (b + suc n) % 2 ^ 64
longer a b n e = omega arith

-- Each pushed value makes the span one longer.
pub push_values-span :
    (k : Bytes) (v : ℕ) (left : Bool) (values : List Bytes) (head tail : ℕ) (ops : WriteBatch)
    → InRange (head, tail)
    → InRange (
      (push_values k v left values head tail ops).0,
      (push_values k v left values head tail ops).1,
    )
      × (span (
        (push_values k v left values head tail ops).0,
        (push_values k v left values head tail ops).1,
      )
          ≡ (span (head, tail) + length values) % 2 ^ 64)
unfolding push_values
push_values-span k v left [] head tail ops b = (b, omega arith)
push_values-span k v true (x ∷ values) head tail ops b =
    let r = push_values-span k v true values (sub64 head 1) tail _ (omega arith, b.1) in
    (
      r.0,
      r.1 ∙ longer (sub64 tail (sub64 head 1)) (sub64 tail head) (length values) (omega (arith, b)),
    )
push_values-span k v false (x ∷ values) head tail ops b =
    let r = push_values-span k v false values head (add64 tail 1) _ (b.0, omega arith) in
    (
      r.0,
      r.1 ∙ longer (sub64 (add64 tail 1) head) (sub64 tail head) (length values) (omega (arith, b)),
    )

-- Metadata, if any, of a list of `n` elements without an expiry, whose bounds fit 64 bits.
abbrev pub IsListed : Option Meta → ℕ → Type 0
IsListed none n = n ≡ 0
IsListed (some m) n =
    (m.type_id ≡ type_list)
    × (m.expire_ms ≡ 0)
    × (b : ℕ × ℕ) × (list_bounds m ≡ some b)
    × InRange b
    × (span b ≡ n)

pub signed64_small : (n m : ℕ) → n ≡ m → m < 2 ^ 63 → signed64 n ≡ pos m
signed64_small n m e small = ground arith

module _ ⦃h : Host⦄ where
  pub list_len_lem : (o : Option Meta) (n : ℕ) → IsListed o n → n < 2 ^ 63 → list_len o ≡ pos n
  unfolding list_len
  list_len_lem none n e small = ap pos (sym e)
  list_len_lem (some m) n (t, u, b, e, range, spans) small =
      rw (list_len, e) (signed64_small (span b) n spans small)

pub IsListed-typed : (o : Option Meta) (n : ℕ) → IsListed o n → typed type_list o ≡ ok o
unfolding typed
IsListed-typed none n e = refl
IsListed-typed (some m) n l = typed_same type_list m l.0

pub bounds_of_lem : (m : Meta) (b : ℕ × ℕ) → list_bounds m ≡ some b → bounds_of m ≡ ok b
unfolding bounds_of
bounds_of_lem m b e = rw (bounds_of, e) refl
