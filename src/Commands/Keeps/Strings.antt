-- ===== src/Commands/Keeps/Strings.antt =====
-- crates/gamestore-datamodel/src/commands/string.rs: each command keeps a store consistent.
use game_store.Prelude.{ℕ, ◌^◌, ◌<◌, Bool, Option, none, some, List, [], ◌∷◌, arith, ◌==◌, drop}
use game_store.Prelude.Int.{ℤ, pos, negsuc, lebℤ, signed64}
use game_store.Bytes.{Bytes, text}
use game_store.Engine.Error.{Result}
use game_store.Engine.Interface.{IsReliable}
use game_store.Protocol.Frame.{RespVersion, integer}
use game_store.Store.Base.{Host, Store, now_ms}
use game_store.Store.Strings
use game_store.Store.Strings.Laws
use game_store.Store.Strings.Expiry
use game_store.Store.Keeps.Reads
use game_store.Commands.Arith.{to_u64, checked_mul, checked_add}
use game_store.Commands.Base.{Reply, arg, parse_i64, not_an_integer, syntax_error}
use game_store.Commands.Strings.{
  unit_ms, set_at, set_delta, set_amount, set_option, set_options, expire_delta, expire_amount, set,
  get, count_keys, del, exists, type_of, deadline_after, expire_generic, expire, pexpire, ttl, pttl,
  invalid_expire,
}
use game_store.Commands.Keeps.{
  Keeps, KeepsExec, reply-Keeps, if-Keeps, on_ok-Keeps, respond-Keeps, now_ms-Keeps,
}

to_u64_bound : (z : ℤ) → to_u64 z < 2 ^ 64
unfolding to_u64
to_u64_bound (pos n) = omega arith
to_u64_bound (negsuc n) = omega arith

module _ ⦃h : Host⦄ (laws : IsReliable h.engine) where
  -- What goes on with a deadline that fits 64 bits keeps a store consistent.
  abbrev NextKeeps : (ℕ → Reply (Store h)) → Type 0
  NextKeeps next = (n : ℕ) → n < 2 ^ 64 → Keeps laws (next n)

  set_at-Keeps :
      (next : ℕ → Reply (Store h)) (o : Option ℤ) → NextKeeps next → Keeps laws (set_at next o)
  unfolding set_at
  set_at-Keeps next none k = reply-Keeps laws (invalid_expire (text "set"))
  set_at-Keeps next (some deadline) k = k (to_u64 deadline) (to_u64_bound deadline)

  set_delta-Keeps :
      (next : ℕ → Reply (Store h)) (o : Option ℤ) → NextKeeps next → Keeps laws (set_delta next o)
  unfolding set_delta
  set_delta-Keeps next none k = reply-Keeps laws (invalid_expire (text "set"))
  set_delta-Keeps next (some delta) k =
      on_ok-Keeps laws now_ms _ (now_ms-Keeps laws)
        (λ now. set_at-Keeps next (checked_add delta (signed64 now)) k)

  set_amount-Keeps :
      (unit : ℕ) (next : ℕ → Reply (Store h)) (o : Option ℤ)
      → NextKeeps next
      → Keeps laws (set_amount unit next o)
  unfolding set_amount
  set_amount-Keeps unit next none k = reply-Keeps laws not_an_integer
  set_amount-Keeps unit next (some n) k =
      if-Keeps laws (lebℤ n (pos 0)) _ _ (reply-Keeps laws (invalid_expire (text "set")))
        (set_delta-Keeps next (checked_mul n unit) k)

  set_option-Keeps :
      (n : ℕ) (raw : Bytes) (next : ℕ → Reply (Store h)) (o : Option ℕ)
      → NextKeeps next
      → Keeps laws (set_option n raw next o)
  unfolding set_option
  set_option-Keeps n raw next none k = reply-Keeps laws syntax_error
  set_option-Keeps n raw next (some unit) k =
      if-Keeps laws (n == 0) _ _ (set_amount-Keeps unit next (parse_i64 raw) k)
        (reply-Keeps laws syntax_error)

  set_options-Keeps :
      (key value : Bytes) (options : List Bytes) → NextKeeps (set_options key value options)
  unfolding set_options
  set_options-Keeps key value [] n b =
      respond-Keeps laws (Strings.set key value n) _
        (λ s c. Laws.set-IsConsistent laws key value n s b c)
  set_options-Keeps key value (opt ∷ []) n b = reply-Keeps laws syntax_error
  set_options-Keeps key value (opt ∷ raw ∷ options) n b =
      set_option-Keeps n raw (set_options key value options) (unit_ms opt)
        (set_options-Keeps key value options)

  pub set-Keeps : (v : RespVersion) (args : List Bytes) → Keeps laws (set v args)
  unfolding set
  set-Keeps v args = set_options-Keeps (arg args 1) (arg args 2) (drop 3 args) 0 (omega arith)

  pub get-Keeps : (v : RespVersion) (args : List Bytes) → Keeps laws (get v args)
  unfolding get
  get-Keeps v args =
      respond-Keeps laws (Strings.get (arg args 1)) _ (Reads.get-IsConsistent laws (arg args 1))

  count_keys-Keeps :
      (test : Bytes → Store h → Result Bool × Store h) (keys : List Bytes) (n : ℕ)
      → ((k : Bytes) → KeepsExec laws (test k))
      → Keeps laws (count_keys test keys n)
  unfolding count_keys
  count_keys-Keeps test [] n k = reply-Keeps laws (integer (pos n))
  count_keys-Keeps test (key ∷ keys) n k =
      on_ok-Keeps laws (test key) _ (k key) (λ answer. count_keys-Keeps test keys _ k)

  pub del-Keeps : (v : RespVersion) (args : List Bytes) → Keeps laws (del v args)
  unfolding del
  del-Keeps v args = count_keys-Keeps Strings.del (drop 1 args) 0 (Laws.del-IsConsistent laws)

  pub exists-Keeps : (v : RespVersion) (args : List Bytes) → Keeps laws (exists v args)
  unfolding exists
  exists-Keeps v args =
      count_keys-Keeps Strings.exists (drop 1 args) 0 (Reads.exists-IsConsistent laws)

  pub type_of-Keeps : (v : RespVersion) (args : List Bytes) → Keeps laws (type_of v args)
  unfolding type_of
  type_of-Keeps v args =
      respond-Keeps laws (Strings.type_of (arg args 1)) _
        (Reads.type_of-IsConsistent laws (arg args 1))

  deadline_after_bound : (now : ℕ) (delta : ℤ) → deadline_after now delta < 2 ^ 64
  unfolding deadline_after
  deadline_after_bound now delta = to_u64_bound _

  expire_delta-Keeps : (cmd key : Bytes) (o : Option ℤ) → Keeps laws (expire_delta cmd key o)
  unfolding expire_delta
  expire_delta-Keeps cmd key none = reply-Keeps laws (invalid_expire cmd)
  expire_delta-Keeps cmd key (some delta) = on_ok-Keeps laws now_ms _ (now_ms-Keeps laws) (λ now.
      respond-Keeps laws (Strings.expire_at key (deadline_after now delta)) _ (λ s c.
        Expiry.expire_at-IsConsistent laws key (deadline_after now delta) s
          (deadline_after_bound now delta) c))

  expire_amount-Keeps :
      (unit : ℕ) (cmd key : Bytes) (o : Option ℤ) → Keeps laws (expire_amount unit cmd key o)
  unfolding expire_amount
  expire_amount-Keeps unit cmd key none = reply-Keeps laws not_an_integer
  expire_amount-Keeps unit cmd key (some n) = expire_delta-Keeps cmd key (checked_mul n unit)

  expire_generic-Keeps :
      (unit : ℕ) (cmd : Bytes) (v : RespVersion) (args : List Bytes)
      → Keeps laws (expire_generic unit cmd v args)
  unfolding expire_generic
  expire_generic-Keeps unit cmd v args =
      expire_amount-Keeps unit cmd (arg args 1) (parse_i64 (arg args 2))

  pub expire-Keeps : (v : RespVersion) (args : List Bytes) → Keeps laws (expire v args)
  unfolding expire
  expire-Keeps v args = expire_generic-Keeps 1000 (text "expire") v args

  pub pexpire-Keeps : (v : RespVersion) (args : List Bytes) → Keeps laws (pexpire v args)
  unfolding pexpire
  pexpire-Keeps v args = expire_generic-Keeps 1 (text "pexpire") v args

  pub ttl-Keeps : (v : RespVersion) (args : List Bytes) → Keeps laws (ttl v args)
  unfolding ttl
  ttl-Keeps v args =
      respond-Keeps laws (Strings.pttl (arg args 1)) _ (Reads.pttl-IsConsistent laws (arg args 1))

  pub pttl-Keeps : (v : RespVersion) (args : List Bytes) → Keeps laws (pttl v args)
  unfolding pttl
  pttl-Keeps v args =
      respond-Keeps laws (Strings.pttl (arg args 1)) _ (Reads.pttl-IsConsistent laws (arg args 1))
