-- ===== src/Encoding/Keys/Sound.antt =====
-- crates/gamestore-engine/src/encoding.rs: parse_versioned on any bytes.
use game_store.Prelude.{
  ℕ, zero, suc, ◌+◌, ◌-◌, ◌%◌, ◌^◌, ◌<◌, ◌≤◌, ◌≡◌, subst, not, ◌||◌, if◌then◌else◌, refl, sym, ap,
  ◌∙◌, none, some, [], ◌∷◌, ◌++◌, ltb, ◌==◌, arith, length, take, drop, take-append-drop,
  length-take, length-drop, append_assoc, All,
}
use game_store.Bytes.{Bytes, IsByte, to_be, from_be}
use game_store.Bytes.BigEndian.{to_be-from_be, from_be-lt}
use game_store.Encoding.Keys.{versioned_prefix, parse_versioned}
use game_store.Encoding.Keys.RoundTrip.{Fits}

All-take : (n : ℕ) (bs : Bytes) → All IsByte bs → All IsByte (take n bs)
All-take zero bs h = tt
All-take (suc n) [] h = tt
All-take (suc n) (b ∷ bs) h = (h.0, All-take n bs h.1)

All-drop : (n : ℕ) (bs : Bytes) → All IsByte bs → All IsByte (drop n bs)
All-drop zero bs h = h
All-drop (suc n) [] h = tt
All-drop (suc n) (b ∷ bs) h = All-drop n bs h.1

drop-nil : (n : ℕ) → drop {A = ℕ} n [] ≡ []
drop-nil zero = refl
drop-nil (suc n) = refl

drop-drop : (m n : ℕ) (bs : Bytes) → drop n (drop m bs) ≡ drop (m + n) bs
drop-drop zero n bs = let e : zero + n ≡ n = omega arith in rw e refl
drop-drop (suc m) n [] = rw (drop-nil n, drop-nil (suc m + n))
drop-drop (suc m) n (b ∷ bs) =
    let e : suc m + n ≡ suc (m + n) = omega arith in rw e (drop-drop m n bs)

-- The parts into which the parser cuts what follows the prefix byte.
abbrev len_part : Bytes → Bytes
len_part body = take 4 body

abbrev key_part : Bytes → ℕ → Bytes
key_part body klen = take klen (drop 4 body)

abbrev version_part : Bytes → ℕ → Bytes
version_part body klen = take 8 (drop klen (drop 4 body))

abbrev rest_part : Bytes → ℕ → Bytes
rest_part body klen = drop 8 (drop klen (drop 4 body))

module _ (body : Bytes) (klen : ℕ) (bytes : All IsByte body) (room : 12 + klen ≤ length body) where
  length-key_part : length (key_part body klen) ≡ klen
  length-key_part = omega (arith, length-take klen (drop 4 body), length-drop 4 body)

  length-len_part : length (len_part body) ≡ 4
  length-len_part = omega (arith, length-take 4 body)

  length-version_part : length (version_part body klen) ≡ 8
  length-version_part = omega (
    arith,
    length-take 8 (drop klen (drop 4 body)),
    length-drop klen (drop 4 body),
    length-drop 4 body,
  )

  len_part-lt : from_be (len_part body) < 2 ^ 32
  len_part-lt = omega (
    arith,
    subst (λ n. from_be (len_part body) < 256 ^ n) length-len_part
        (from_be-lt (len_part body) (All-take 4 body bytes)),
  )

  len_bytes :
      from_be (len_part body) ≡ klen
      → to_be 4 (length (key_part body klen) % 2 ^ 32) ≡ len_part body
  len_bytes e =
      let same : length (key_part body klen) % 2 ^ 32 ≡ from_be (len_part body) =
        omega (arith, length-key_part, len_part-lt) in
      rw same (
        subst (λ n. to_be n (from_be (len_part body)) ≡ len_part body) length-len_part
          (to_be-from_be (len_part body) (All-take 4 body bytes)))

  version_in_bytes : All IsByte (version_part body klen)
  version_in_bytes =
      All-take 8 (drop klen (drop 4 body)) (All-drop klen (drop 4 body) (All-drop 4 body bytes))

  version_bytes : to_be 8 (from_be (version_part body klen)) ≡ version_part body klen
  version_bytes =
      subst (λ n. to_be n (from_be (version_part body klen)) ≡ version_part body klen)
        length-version_part (to_be-from_be (version_part body klen) version_in_bytes)

  version_part-lt : from_be (version_part body klen) < 2 ^ 64
  version_part-lt = omega (
    arith,
    subst (λ n. from_be (version_part body klen) < 256 ^ n) length-version_part
        (from_be-lt (version_part body klen) version_in_bytes),
  )

  parts :
      len_part body ++ ((key_part body klen ++ version_part body klen) ++ rest_part body klen)
      ≡ body
  parts = rw (
    append_assoc,
    take-append-drop 8 (drop klen (drop 4 body)),
    take-append-drop klen (drop 4 body),
    take-append-drop 4 body,
  )

  reassembled :
      (p : ℕ)
      → from_be (len_part body) ≡ klen
      → p ∷ body
        ≡ versioned_prefix p (key_part body klen) (from_be (version_part body klen))
          ++ rest_part body klen
  unfolding versioned_prefix
  reassembled p e = rw (len_bytes e, version_bytes) (ap (λ t. p ∷ t) (sym (shape ∙ parts)))
    where
      shape :
          (len_part body ++ (key_part body klen ++ version_part body klen)) ++ rest_part body klen
          ≡ len_part body ++ ((key_part body klen ++ version_part body klen) ++ rest_part body klen)
      shape = append_assoc (len_part body) _ _

key_width : (k : ℕ) → 5 + k - 5 ≡ k
key_width k = omega arith

version_width : (k : ℕ) → 5 + k + 8 - (5 + k) ≡ 8
version_width k = omega arith

drop_key : (x : ℕ) (body : Bytes) (k : ℕ) → drop (5 + k) (x ∷ body) ≡ drop k (drop 4 body)
drop_key x body k = sym (drop-drop 5 k (x ∷ body))

drop_version :
    (x : ℕ) (body : Bytes) (k : ℕ) → drop (5 + k + 8) (x ∷ body) ≡ drop 8 (drop k (drop 4 body))
drop_version x body k = sym (ap (drop 8) (sym (drop_key x body k)) ∙ drop-drop (5 + k) 8 (x ∷ body))

parse_parts :
    (x : ℕ) (body : Bytes) (prefix klen : ℕ)
    → All IsByte body
    → klen ≡ from_be (len_part body)
    → parse_versioned (x ∷ body) prefix ≡ (
        if not (x == prefix) || ltb (length body) (12 + klen)
        then none
        else some (key_part body klen, from_be (version_part body klen), rest_part body klen))
unfolding parse_versioned
parse_parts x body prefix klen h e = ground (
  arith,
  e,
  len_part-lt body 0 h,
  ap (λ n. take n (drop 4 body)) (key_width klen),
  ap (λ n. from_be (take n (drop (5 + klen) (x ∷ body)))) (version_width klen),
  ap (λ t. from_be (take 8 t)) (drop_key x body klen),
  drop_version x body klen,
)

module _ (x : ℕ) (body : Bytes) (prefix : ℕ) (bytes : All IsByte body) where
  abbrev klen : ℕ
  klen = from_be (len_part body)

  parsed :
      (user_key : Bytes) (version : ℕ) (rest : Bytes)
      → parse_versioned (x ∷ body) prefix ≡ some (user_key, version, rest)
      → (x ≡ prefix)
        × (12 + klen ≤ length body)
        × (key_part body klen ≡ user_key)
        × (from_be (version_part body klen) ≡ version)
        × (rest_part body klen ≡ rest)
  parsed user_key version rest e = ground (arith, parse_parts x body prefix klen bytes refl)

  sound_cons :
      (user_key : Bytes) (version : ℕ) (rest : Bytes)
      → (x ≡ prefix)
        × (12 + klen ≤ length body)
        × (key_part body klen ≡ user_key)
        × (from_be (version_part body klen) ≡ version)
        × (rest_part body klen ≡ rest)
      → (x ∷ body ≡ versioned_prefix prefix user_key version ++ rest) × Fits user_key version
  sound_cons user_key version rest (p, room, pk, pv, pr) = (
    cc (reassembled body klen bytes room prefix refl),
    (
      omega (
        arith,
        length-key_part body klen bytes room,
        ap length pk,
        len_part-lt body klen bytes room,
      ),
      omega (arith, version_part-lt body klen bytes room),
    ),
  )

-- If bytes parse as a versioned key, they are the encoding of the parts that the parser returns,
-- whose key length and version are in range.
pub parse_versioned_sound :
    (raw : Bytes) (prefix : ℕ) (user_key : Bytes) (version : ℕ) (rest : Bytes)
    → All IsByte raw
    → parse_versioned raw prefix ≡ some (user_key, version, rest)
    → (raw ≡ versioned_prefix prefix user_key version ++ rest) × Fits user_key version
parse_versioned_sound [] prefix user_key version rest h e = unfold parse_versioned in ground arith
parse_versioned_sound (x ∷ body) prefix user_key version rest h e =
    sound_cons x body prefix h.1 user_key version rest
      (parsed x body prefix h.1 user_key version rest e)
