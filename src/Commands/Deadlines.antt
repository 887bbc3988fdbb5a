-- ===== src/Commands/Deadlines.antt =====
-- crates/gamestore-datamodel/src/commands/string.rs: SET with an expiry, EXPIRE and TTL as seen by GET
-- and PTTL.
use game_store.Prelude.{
  ℕ, suc, ◌⊎◌, inl, inr, Bool-cases, ◌+◌, ◌-◌, ◌*◌, ◌/◌, ◌%◌, ◌^◌, ◌≤◌, ◌<◌, false, Option, none,
  some, List, [], ◌∷◌, ◌≡◌, refl, sym, ap, subst, ◌∙◌, arith, ◌==◌, ◌||◌, ltb, if◌then◌else◌,
}
use game_store.Prelude.Int.{negsuc, ℤ, pos, signed64, lebℤ}
use game_store.Bytes.{Bytes, text}
use game_store.Engine.Error.{Result, backend, corruption, wrong_type, ok, err}
use game_store.Engine.Interface.{IsReliable}
use game_store.Protocol.Frame
use game_store.Protocol.Frame.{RespVersion, Frame, integer, bulk, null}
use game_store.Store.Base.{Host, Store, now_ms}
use game_store.Store.Strings
use game_store.Store.Strings.Laws
use game_store.Store.Strings.Expiry
use game_store.Encoding.Meta.{Meta}
use game_store.Store.Load.{settled, expired, live_meta, loaded}
use game_store.Store.Strings.Expiry.{after_expire, expire_at_lem}
use game_store.Store.View.{IsConsistent, meta_at}
use game_store.Commands.Arith.{
  checked, checked_mul, checked_add, saturate, saturating_add, to_u64, quotient,
}
use game_store.Commands.Base.{Reply, from_bool, engine_error, on_result, parse_i64, reply, arg}
use game_store.Commands.Strings.{
  unit_ms, set_at, set_delta, set_amount, set_option, set_options, set, get, invalid_expire,
  deadline_after, bulk_or_null, ttl_reply, ttl, pttl, expire_generic, expire_amount, expire_delta,
}

-- The seconds that TTL replies: enough for the milliseconds, and fewer than a second too many.
ttl_reply_rounds :
    (ms : ℕ)
    → ms + 999 < 2 ^ 63
    → (ttl_reply (pos ms) ≡ pos ((ms + 999) / 1000))
      × (ms ≤ (ms + 999) / 1000 * 1000)
      × ((ms + 999) / 1000 * 1000 < ms + 1000)
unfolding ttl_reply quotient
ttl_reply_rounds ms small = (ground arith, omega arith, omega arith)

integer-injective : (x y : ℤ) → integer x ≡ integer y → x ≡ y
integer-injective x y e = cc

-- An integer reply comes from a result, not from an error.
integer_result :
    {S : Type 0} (r : Result ℤ) (s : S) (z : ℤ)
    → (on_result r (λ x t. (integer x, t)) s).0 ≡ integer z
    → r ≡ ok z
unfolding on_result engine_error
integer_result (ok x) s z e = ap ok (integer-injective x z e)
integer_result (err wrong_type) s z e = absurd (cc e)
integer_result (err (backend msg)) s z e = absurd (cc e)
integer_result (err (corruption msg)) s z e = absurd (cc e)

module _ ⦃h : Host⦄ where
  -- Where PTTL replies a number of milliseconds, not within a second of the end of the range, TTL
  -- replies the least number of seconds that is not shorter.
  pub ttl-pttl :
      (v : RespVersion) (args : List Bytes) (s : Store h) (ms : ℕ)
      → (pttl v args s).0 ≡ integer (pos ms)
      → ms + 999 < 2 ^ 63
      → (n : ℕ) × ((ttl v args s).0 ≡ integer (pos n)) × (ms ≤ n * 1000) × (n * 1000 < ms + 1000)
  unfolding ttl pttl on_result
  ttl-pttl v args s ms e small =
      let rounds = ttl_reply_rounds ms small in
      let result =
        integer_result (Strings.pttl (arg args 1) s).0 (Strings.pttl (arg args 1) s).1 (pos ms) e in
      ((ms + 999) / 1000, rw result (ap integer rounds.0), rounds.1, rounds.2)

checked_add_pos : (a b : ℕ) → a + b < 2 ^ 63 → checked_add (pos a) (pos b) ≡ some (pos (a + b))
unfolding checked_add checked
checked_add_pos a b small = ground arith

to_u64_pos : (n : ℕ) → n < 2 ^ 63 → to_u64 (pos n) ≡ n
unfolding to_u64
to_u64_pos n small = omega arith

checked_mul_pos : (a b : ℕ) → a * b < 2 ^ 63 → checked_mul (pos a) b ≡ some (pos (a * b))
unfolding checked_mul checked
checked_mul_pos a b small = ground arith

signed64_small : (n : ℕ) → n < 2 ^ 63 → signed64 n ≡ pos n
signed64_small n small = ground arith

positive_test : (n : ℕ) → 0 < n → lebℤ (pos n) (pos 0) ≡ false
positive_test n positive = ground arith

module _ ⦃h : Host⦄ where
  -- What GET replies while a deadline is ahead, and from then on.
  abbrev pub until : ℕ → ℕ → Bytes → Frame
  until clock deadline value = if ltb clock deadline then bulk value else null

  -- The clock in milliseconds at a given reading.
  abbrev pub clock_at : ℕ → ℕ
  clock_at n = h.wall n / 1000 % 2 ^ 64

  -- The store behind one reading of the clock.
  abbrev read_once : Store h → Store h
  read_once s = record s { readings = s.readings + 1 }

  set_delta_lem :
      (delta : ℕ) (next : ℕ → Reply (Store h)) (s : Store h)
      → delta + clock_at s.readings < 2 ^ 63
      → set_delta next (some (pos delta)) s ≡ next (delta + clock_at s.readings) (read_once s)
  unfolding set_delta set_at on_result now_ms
  set_delta_lem delta next s small =
      let now = clock_at s.readings in
      ap (λ z. set_at next (checked_add (pos delta) z) (read_once s))
        (signed64_small now (omega arith))
      ∙ ap (λ o. set_at next o (read_once s)) (checked_add_pos delta now small)
      ∙ ap (λ d. next d (read_once s)) (to_u64_pos (delta + now) small)

  set_amount_lem :
      (unit n : ℕ) (next : ℕ → Reply (Store h)) (s : Store h)
      → 0 < n
      → n * unit + clock_at s.readings < 2 ^ 63
      → set_amount unit next (some (pos n)) s ≡ next (n * unit + clock_at s.readings) (read_once s)
  unfolding set_amount
  set_amount_lem unit n next s positive small =
      ap
        (λ b.
          (if b
              then reply (invalid_expire (text "set"))
              else set_delta next (checked_mul (pos n) unit))
            s)
        (positive_test n positive)
      ∙ ap (λ o. set_delta next o s) (checked_mul_pos n unit (omega arith))
      ∙ set_delta_lem (n * unit) next s small

module _ ⦃h : Host⦄ (laws : IsReliable h.engine) where
  -- SET with one expiry option writes the value with the deadline.
  set_lem :
      (v : RespVersion) (name key value opt raw : Bytes) (unit n : ℕ) (s : Store h)
      → unit_ms opt ≡ some unit
      → parse_i64 raw ≡ some (pos n)
      → 0 < n
      → n * unit + clock_at s.readings < 2 ^ 63
      → set v (name ∷ key ∷ value ∷ opt ∷ raw ∷ []) s
        ≡ (Frame.ok, (Strings.set key value (n * unit + clock_at s.readings) (read_once s)).1)
  unfolding set set_options set_option on_result
  set_lem v name key value opt raw unit n s known parsed positive small =
      let d = n * unit + clock_at s.readings in
      let written = Strings.set key value d (read_once s) in
      ap (λ o. set_option 0 raw (set_options key value []) o s) known
      ∙ ap (λ o. set_amount unit (set_options key value []) o s) parsed
      ∙ set_amount_lem unit n (set_options key value []) s positive small
      ∙ ap (λ r. on_result r (λ _ t. (Frame.ok, t)) written.1)
          (ap (λ r. r.0) (Laws.set_lem laws key value d (read_once s)))

  until_found :
      (clock d : ℕ) (value : Bytes)
      → 0 < d
      → bulk_or_null (if (d == 0) || ltb clock d then some value else none) ≡ until clock d value
  unfolding bulk_or_null
  until_found clock d value positive = ground arith

  -- On a consistent store, SET with one option that names a unit and a positive amount, whose
  -- deadline after the clock is above 0 and below 2 ^ 63, replies OK, and GET right after it
  -- replies the value while the clock is below that deadline, and nothing from then on.
  pub get-set_options :
      (v : RespVersion) (name asked key value opt raw : Bytes) (unit n : ℕ) (s : Store h)
      → IsConsistent laws s
      → unit_ms opt ≡ some unit
      → parse_i64 raw ≡ some (pos n)
      → 0 < n
      → 0 < n * unit + clock_at s.readings
      → n * unit + clock_at s.readings < 2 ^ 63
      → ((set v (name ∷ key ∷ value ∷ opt ∷ raw ∷ []) s).0 ≡ Frame.ok)
        × ((get v (asked ∷ key ∷ []) (set v (name ∷ key ∷ value ∷ opt ∷ raw ∷ []) s).1).0
            ≡ until (clock_at (s.readings + 1 + 1)) (n * unit + clock_at s.readings) value)
  unfolding get on_result
  get-set_options v name asked key value opt raw unit n s c known parsed positive ahead small =
      let d = n * unit + clock_at s.readings in
      let written = (Strings.set key value d (read_once s)).1 in
      let e = set_lem v name key value opt raw unit n s known parsed positive small in
      (
        ap (λ r. r.0) e,
        ap (λ r. (get v (asked ∷ key ∷ []) r.1).0) e
            ∙ ap (λ r. (on_result r (λ a t. (bulk_or_null a, t)) (Strings.get key written).1).0)
                (Laws.get-set laws key value d (read_once s) (omega arith) c)
            ∙ until_found (clock_at (s.readings + 1 + 1)) d value ahead,
      )

negative_amount :
    (m unit : ℕ)
    → 0 < unit
    → suc m * unit ≤ 2 ^ 63
    → checked_mul (negsuc m) unit ≡ some (negsuc (suc m * unit - 1))
unfolding checked_mul checked
negative_amount m unit positive small = ground arith

respond_state {ℓ} :
    {S : Type 0} {A : Type ℓ} (r : Result A) (f : A → Frame) (s : S)
    → (on_result r (λ a t. (f a, t)) s).1 ≡ s
unfolding on_result
respond_state (ok a) f s = refl
respond_state (err e) f s = refl

expire_test : (d clock : ℕ) → 0 < d → d ≤ clock → ((d == 0) || ltb clock d) ≡ false
expire_test d clock positive late = ground arith

module _ ⦃h : Host⦄ where
  -- A deadline that lies in the past is at least 1 and not above the clock.
  past_deadline :
      (now k : ℕ)
      → 0 < now
      → now < 2 ^ 63
      → k < 2 ^ 63
      → (0 < deadline_after now (negsuc k)) × (deadline_after now (negsuc k) ≤ now)
  unfolding deadline_after saturating_add saturate to_u64
  past_deadline now k positive small bounded = (ground arith, ground arith)

module _ ⦃h : Host⦄ (laws : IsReliable h.engine) where
  settled_readings :
      (k : Bytes) (o : Option Meta) (s : Store h)
      → ((settled k o s).1.readings ≡ s.readings) ⊎ ((settled k o s).1.readings ≡ s.readings + 1)
  settled_readings k none s = inl refl
  settled_readings k (some m) s = elim (Bool-cases (m.expire_ms == 0)) [
    | inl never ↦ elim (Bool-cases (expired m s)) [
      | inl late ↦ inl (rw (late, never) refl)
      | inr live ↦ inl (rw (live, never) refl)
    ]
    | inr limited ↦ elim (Bool-cases (expired m s)) [
      | inl late ↦ inr (rw (late, limited) refl)
      | inr live ↦ inr (rw (live, limited) refl)
    ]
  ]

  after_expire_readings :
      (k : Bytes) (e : ℕ) (o : Option Meta) (s : Store h)
      → (after_expire k e o s).readings ≡ s.readings
  after_expire_readings k e none s = refl
  after_expire_readings k e (some m) s = refl

  -- EXPIREAT reads the clock once or not at all.
  expire_at_readings :
      (k : Bytes) (e : ℕ) (s : Store h)
      → IsConsistent laws s
      → ((Strings.expire_at k e s).1.readings ≡ s.readings)
        ⊎ ((Strings.expire_at k e s).1.readings ≡ s.readings + 1)
  expire_at_readings k e s c =
      let same =
        ap (λ r. r.1.readings) (expire_at_lem laws k e s c)
        ∙ after_expire_readings k e (live_meta laws k s) (loaded laws k s) in
      elim (settled_readings k (meta_at laws k s) s) [
        | inl none_read ↦ inl (same ∙ none_read)
        | inr one_read ↦ inr (same ∙ one_read)
      ]

  later_clock :
      (now : ℕ) (k : Bytes) (e : ℕ) (s : Store h)
      → IsConsistent laws s
      → now ≤ clock_at s.readings
      → now ≤ clock_at (s.readings + 1)
      → now ≤ clock_at (Strings.expire_at k e s).1.readings
  later_clock now k e s c first second = elim (expire_at_readings k e s c) [
    | inl same ↦ subst (λ n. now ≤ clock_at n) (sym same) first
    | inr one ↦ subst (λ n. now ≤ clock_at n) (sym one) second
  ]

  -- EXPIRE and PEXPIRE with a negative amount set a deadline in the past.
  expire_generic_lem :
      (unit m : ℕ) (cmd : Bytes) (v : RespVersion) (name key raw : Bytes) (s : Store h)
      → parse_i64 raw ≡ some (negsuc m)
      → 0 < unit
      → suc m * unit ≤ 2 ^ 63
      → (expire_generic unit cmd v (name ∷ key ∷ raw ∷ []) s).1
        ≡ (Strings.expire_at key
            (deadline_after (clock_at s.readings) (negsuc (suc m * unit - 1)))
            (read_once s)).1
  unfolding expire_generic expire_amount expire_delta on_result now_ms
  expire_generic_lem unit m cmd v name key raw s parsed positive small =
      let d = deadline_after (clock_at s.readings) (negsuc (suc m * unit - 1)) in
      let r = Strings.expire_at key d (read_once s) in
      ap (λ o. (expire_amount unit cmd key o s).1) parsed
      ∙ ap (λ o. (expire_delta cmd key o s).1) (negative_amount m unit positive small)
      ∙ respond_state r.0 (λ existed. integer (from_bool existed)) r.1

  -- On a consistent store, after EXPIRE or PEXPIRE of any key with a negative amount of at most 2
  -- ^ 63 milliseconds, GET of the key replies nothing, if the clock stands above 0 and below 2 ^
  -- 63 milliseconds and does not run back in its next two readings.
  pub get-expire_generic :
      (unit m : ℕ) (cmd : Bytes) (v : RespVersion) (name asked key raw : Bytes) (s : Store h)
      → IsConsistent laws s
      → parse_i64 raw ≡ some (negsuc m)
      → 0 < unit
      → suc m * unit ≤ 2 ^ 63
      → 0 < clock_at s.readings
      → clock_at s.readings < 2 ^ 63
      → clock_at s.readings ≤ clock_at (s.readings + 1)
      → clock_at s.readings ≤ clock_at (s.readings + 1 + 1)
      → (get v (asked ∷ key ∷ []) (expire_generic unit cmd v (name ∷ key ∷ raw ∷ []) s).1).0 ≡ null
  unfolding get on_result bulk_or_null
  get-expire_generic unit m cmd v name asked key raw s c parsed positive small ticking bounded
        onwards later =
      let d = deadline_after (clock_at s.readings) (negsuc (suc m * unit - 1)) in
      let past =
        past_deadline (clock_at s.readings) (suc m * unit - 1) ticking bounded (omega arith) in
      let e = expire_generic_lem unit m cmd v name key raw s parsed positive small in
      let r = Strings.expire_at key d (read_once s) in
      let further = later_clock (clock_at s.readings) key d (read_once s) c onwards later in
      let late = expire_test d (clock_at r.1.readings) past.0 (omega (arith, past.1, further)) in
      ap (λ t. (get v (asked ∷ key ∷ []) t).0) e
      ∙ ap (λ o. (on_result o (λ a t. (bulk_or_null a, t)) (Strings.get key r.1).1).0)
          (Expiry.get-expire_at laws key d (read_once s) (omega arith) c
            ∙ ap (λ b. if b then (Strings.get key (read_once s)).0 else ok none) late)
