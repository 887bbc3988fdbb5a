-- ===== src/Protocol/Stable.antt =====
-- crates/gamestore-protocol/src/decode.rs: decode_command and bytes that arrive later.
use game_store.Prelude.{
  ℕ, zero, suc, ◌+◌, ◌≤◌, Bool, true, false, ◌&&◌, Bool-cases, inl, inr, Option, none, some, List,
  [], ◌∷◌, ◌++◌, ◌≡◌, refl, sym, ap, subst, arith, ◌==◌, ltb, ltb-false, length-drop, length, take,
  drop, length-append, if◌then◌else◌,
}
use game_store.Prelude.Int.{ℤ, pos, negsuc}
use game_store.Bytes.{Bytes, ◌==ᵇ◌}
use game_store.Protocol.Error.{malformed, limit_exceeded, inline_syntax}
use game_store.Protocol.Text.{is_utf8, i64_from_text}
use game_store.Protocol.Inline.{split_inline}
use game_store.Protocol.Parser.{
  Parsed, done, incomplete, failed, Parser, proceed, ◌>>=◌, Limits, crlf, prepend, read_line,
  read_count, parse_i64, read_payload,
}
use game_store.Protocol.Command.{
  expect_bulk, argument_of_length, parse_arguments, arguments_of_count, parse_multibulk,
  inline_command, decode_command,
}

-- What is done without the later bytes is done with them, and they stay behind the rest.
abbrev pub Extended {ℓ} : {A : Type ℓ} → Bytes → Parsed A → Parsed A → Type ℓ
Extended more (done a rest) r = r ≡ done a (rest ++ more)
Extended more incomplete r = Unit
Extended more (failed e) r = Unit

abbrev pub IsStable {ℓ} : {A : Type ℓ} → Parser A → Type ℓ
IsStable p = (input more : Bytes) → Extended more (p input) (p (input ++ more))

module _ {ℓ} {A : Type ℓ} where
  if-Extended :
      (b : Bool) (more : Bytes) (r s r' s' : Parsed A)
      → Extended more r r'
      → Extended more s s'
      → Extended more (if b then r else s) (if b then r' else s')
  if-Extended true more r s r' s' g h = g
  if-Extended false more r s r' s' g h = h

  if-IsStable :
      (b : Bool) (p q : Parser A) → IsStable p → IsStable q → IsStable (if b then p else q)
  if-IsStable true p q g h = g
  if-IsStable false p q g h = h

module _ {ℓ κ} {A : Type ℓ} {B : Type κ} where
  proceed-Extended :
      (more : Bytes) (r r' : Parsed A) (f : A → Parser B)
      → Extended more r r'
      → ((a : A) → IsStable (f a))
      → Extended more (proceed r f) (proceed r' f)
  proceed-Extended more (done a rest) r' f e g = rw e (g a rest more)
  proceed-Extended more incomplete r' f e g = tt
  proceed-Extended more (failed x) r' f e g = tt

  bind-IsStable :
      (p : Parser A) (f : A → Parser B)
      → IsStable p
      → ((a : A) → IsStable (f a))
      → IsStable (p >>= f)
  bind-IsStable p f g h input more =
      proceed-Extended more (p input) (p (input ++ more)) f (g input more) h

  option-IsStable :
      (o : Option A) (p : Parser B) (f : A → Parser B)
      → IsStable p
      → ((a : A) → IsStable (f a))
      → IsStable (elim o [ none ↦ p | some a ↦ f a ])
  option-IsStable none p f g h = g
  option-IsStable (some a) p f g h = h a

prepend-Extended :
    (x : ℕ) (more : Bytes) (r r' : Parsed Bytes)
    → Extended more r r'
    → Extended more (prepend x r) (prepend x r')
prepend-Extended x more (done line rest) r' e = ap (prepend x) e
prepend-Extended x more incomplete r' e = tt
prepend-Extended x more (failed y) r' e = tt

read_line-IsStable : IsStable read_line
unfolding read_line
read_line-IsStable [] more = tt
read_line-IsStable (x ∷ []) more = tt
read_line-IsStable (x ∷ y ∷ input) more =
    if-Extended ((x == 13) && (y == 10)) more (done [] input) (prepend x (read_line (y ∷ input)))
      (done [] (input ++ more)) (prepend x (read_line ((y ∷ input) ++ more))) refl
      (prepend-Extended x more (read_line (y ∷ input)) (read_line ((y ∷ input) ++ more))
        (read_line-IsStable (y ∷ input) more))

parse_i64-IsStable : (line : Bytes) → IsStable (parse_i64 line)
unfolding parse_i64
parse_i64-IsStable line =
    if-IsStable (is_utf8 line) _ _
      (option-IsStable (i64_from_text line) _ _ (λ input more. tt) (λ n input more. refl))
      (λ input more. tt)

read_count-IsStable : IsStable read_count
unfolding read_count
read_count-IsStable = bind-IsStable read_line parse_i64 read_line-IsStable parse_i64-IsStable

module _ {ℓ} {A : Type ℓ} where
  take-append_le : (n : ℕ) (xs ys : List A) → n ≤ length xs → take n (xs ++ ys) ≡ take n xs
  take-append_le zero xs ys le = refl
  take-append_le (suc n) [] ys le = absurd (omega arith)
  take-append_le (suc n) (x ∷ xs) ys le = ap (◌∷◌ x) (take-append_le n xs ys (omega arith))

  drop-append_le : (n : ℕ) (xs ys : List A) → n ≤ length xs → drop n (xs ++ ys) ≡ drop n xs ++ ys
  drop-append_le zero xs ys le = refl
  drop-append_le (suc n) [] ys le = absurd (omega arith)
  drop-append_le (suc n) (x ∷ xs) ys le = drop-append_le n xs ys (omega arith)

not_below : (a b : ℕ) → ltb a b ≡ false → b ≤ a
not_below a b e = ground arith

read_payload-IsStable : (len : ℕ) → IsStable (read_payload len)
unfolding read_payload
read_payload-IsStable len input more = elim (Bool-cases (ltb (length input) (len + 2))) [
  | inl short ↦ rw short tt
  | inr enough ↦
      let le = not_below (length input) (len + 2) enough in
      rw
        (
          enough,
          ltb-false (length (input ++ more)) (len + 2)
              (subst (λ n. len + 2 ≤ n) (sym (length-append input more)) (omega arith)),
          drop-append_le len input more (omega arith),
          take-append_le 2 (drop len input) more
              (subst (λ n. 2 ≤ n) (sym (length-drop len input)) (omega arith)),
          take-append_le len input more (omega arith),
          drop-append_le (len + 2) input more le,
        )
        (if-Extended (take 2 (drop len input) ==ᵇ crlf) more
          (done (take len input) (drop (len + 2) input)) (failed malformed)
          (done (take len input) (drop (len + 2) input ++ more)) (failed malformed) refl tt)
]

expect_bulk-IsStable : IsStable expect_bulk
unfolding expect_bulk
expect_bulk-IsStable [] more = tt
expect_bulk-IsStable (b ∷ rest) more =
    if-Extended (b == 36) more (done tt rest) (failed malformed) (done tt (rest ++ more))
      (failed malformed) refl tt

module _ (limits : Limits) where
  argument_of_length-IsStable : (n : ℤ) → IsStable (argument_of_length limits n)
  unfolding argument_of_length
  argument_of_length-IsStable (negsuc n) = (λ input more. tt)
  argument_of_length-IsStable (pos len) =
      if-IsStable (ltb limits.max_bulk_len len) _ _ (λ input more. tt) (read_payload-IsStable len)

  parse_arguments-IsStable : (count : ℕ) → IsStable (parse_arguments limits count)
  unfolding parse_arguments
  parse_arguments-IsStable zero = (λ input more. refl)
  parse_arguments-IsStable (suc count) = bind-IsStable expect_bulk _ expect_bulk-IsStable (λ dollar.
      bind-IsStable read_count _ read_count-IsStable (λ len.
        bind-IsStable (argument_of_length limits len) _ (argument_of_length-IsStable len) (λ arg.
          bind-IsStable (parse_arguments limits count) _ (parse_arguments-IsStable count)
            (λ args input more. refl))))

  arguments_of_count-IsStable : (n : ℤ) → IsStable (arguments_of_count limits n)
  unfolding arguments_of_count
  arguments_of_count-IsStable (negsuc n) = (λ input more. refl)
  arguments_of_count-IsStable (pos count) =
      if-IsStable (count == 0) _ _ (λ input more. refl)
        (if-IsStable (ltb limits.max_array_len count) _ _ (λ input more. tt)
          (parse_arguments-IsStable count))

  parse_multibulk-IsStable : IsStable (parse_multibulk limits)
  unfolding parse_multibulk
  parse_multibulk-IsStable =
      bind-IsStable read_count _ read_count-IsStable arguments_of_count-IsStable

  tokens-Extended :
      (o : Option (List Bytes)) (rest more : Bytes)
      → Extended more
          (elim o as (λ _. Parsed (List Bytes)) [
            | none ↦ failed inline_syntax
            | some args ↦ done args rest
          ])
          (elim o as (λ _. Parsed (List Bytes)) [
            | none ↦ failed inline_syntax
            | some args ↦ done args (rest ++ more)
          ])
  tokens-Extended none rest more = tt
  tokens-Extended (some args) rest more = refl

  inline_command-Extended :
      (buf more : Bytes) (r r' : Parsed Bytes)
      → Extended more r r'
      → Extended more (inline_command limits buf r) (inline_command limits (buf ++ more) r')
  unfolding inline_command
  inline_command-Extended buf more (done line rest) r' e = rw e (
      if-Extended (ltb limits.max_inline_len (length line)) more (failed _) _ (failed _) _ tt
        (tokens-Extended (split_inline line) rest more))
  inline_command-Extended buf more incomplete r' e =
      unextended (ltb limits.max_inline_len (length buf))
    where
      unextended :
          (b : Bool)
          → Extended more
              (if b then failed limit_exceeded else incomplete)
              (inline_command limits (buf ++ more) r')
      unextended true = tt
      unextended false = tt
  inline_command-Extended buf more (failed x) r' e = tt

  -- A request that is decoded is decoded the same when more bytes follow it, and they stay behind
  -- the rest.
  pub decode_command-IsStable : IsStable (decode_command limits)
  unfolding decode_command
  decode_command-IsStable [] more = tt
  decode_command-IsStable (b ∷ buf) more =
      if-Extended (b == 42) more (parse_multibulk limits buf)
        (inline_command limits (b ∷ buf) (read_line (b ∷ buf)))
        (parse_multibulk limits (buf ++ more))
        (inline_command limits ((b ∷ buf) ++ more) (read_line ((b ∷ buf) ++ more)))
        (parse_multibulk-IsStable buf more)
        (inline_command-Extended (b ∷ buf) more (read_line (b ∷ buf))
          (read_line ((b ∷ buf) ++ more)) (read_line-IsStable (b ∷ buf) more))
