-- ===== src/Protocol/Shrinks.antt =====
-- crates/gamestore-protocol/src/decode.rs: how much of the buffer decode_command takes.
use game_store.Prelude.{
  ℕ, zero, suc, ◌+◌, ◌-◌, ◌≤◌, Bool, true, false, ◌&&◌, Option, none, some, List, [], ◌∷◌, arith,
  ◌==◌, ltb, length, take, drop, length-drop, if◌then◌else◌,
}
use game_store.Prelude.Int.{ℤ, pos, negsuc}
use game_store.Bytes.{Bytes, ◌==ᵇ◌}
use game_store.Protocol.Error.{inline_syntax}
use game_store.Protocol.Text.{is_utf8, i64_from_text}
use game_store.Protocol.Inline.{split_inline}
use game_store.Protocol.Parser.{
  Parsed, done, incomplete, failed, Parser, pure, proceed, ◌>>=◌, Limits, crlf, prepend, read_line,
  read_count, parse_i64, read_payload,
}
use game_store.Protocol.Command.{
  expect_bulk, argument_of_length, parse_arguments, arguments_of_count, parse_multibulk,
  inline_command, decode_command,
}

-- At most so many bytes are left behind what was parsed.
abbrev pub Leaves {ℓ} : {A : Type ℓ} → ℕ → Parsed A → Type 0
Leaves n (done a rest) = length rest ≤ n
Leaves n incomplete = Unit
Leaves n (failed e) = Unit

-- A parser that never leaves more than there was.
abbrev pub Shrinks {ℓ} : {A : Type ℓ} → Parser A → Type 0
Shrinks p = (input : Bytes) → Leaves (length input) (p input)

module _ {ℓ} {A : Type ℓ} where
  Leaves-weaker : (r : Parsed A) (m n : ℕ) → m ≤ n → Leaves m r → Leaves n r
  Leaves-weaker (done a rest) m n le l = omega arith
  Leaves-weaker incomplete m n le l = tt
  Leaves-weaker (failed e) m n le l = tt

  pure-Shrinks : (a : A) → Shrinks (pure a)
  pure-Shrinks a input = omega arith

  if-Shrinks : (b : Bool) (p q : Parser A) → Shrinks p → Shrinks q → Shrinks (if b then p else q)
  if-Shrinks true p q g h = g
  if-Shrinks false p q g h = h

module _ {ℓ κ} {A : Type ℓ} {B : Type κ} where
  proceed-Leaves :
      (r : Parsed A) (f : A → Parser B) (n : ℕ)
      → Leaves n r
      → ((a : A) → Shrinks (f a))
      → Leaves n (proceed r f)
  proceed-Leaves (done a rest) f n l g = Leaves-weaker (f a rest) (length rest) n l (g a rest)
  proceed-Leaves incomplete f n l g = tt
  proceed-Leaves (failed e) f n l g = tt

  bind-Shrinks :
      (p : Parser A) (f : A → Parser B) → Shrinks p → ((a : A) → Shrinks (f a)) → Shrinks (p >>= f)
  bind-Shrinks p f g h input = proceed-Leaves (p input) f (length input) (g input) h

prepend-Leaves : (x : ℕ) (r : Parsed Bytes) (n : ℕ) → Leaves n r → Leaves n (prepend x r)
prepend-Leaves x (done line rest) n l = l
prepend-Leaves x incomplete n l = tt
prepend-Leaves x (failed e) n l = tt

if-Leaves {ℓ} :
    {A : Type ℓ} (b : Bool) (r r' : Parsed A) (n : ℕ)
    → Leaves n r
    → Leaves n r'
    → Leaves n (if b then r else r')
if-Leaves true r r' n l l' = l
if-Leaves false r r' n l l' = l'

-- A line takes its CRLF at least.
read_line-Leaves : (input : Bytes) → Leaves (length input - 2) (read_line input)
unfolding read_line
read_line-Leaves [] = tt
read_line-Leaves (x ∷ []) = tt
read_line-Leaves (x ∷ y ∷ input) =
    Leaves-weaker (read_line (x ∷ y ∷ input)) (length input) (length (x ∷ y ∷ input) - 2)
      (omega arith)
      (if-Leaves ((x == 13) && (y == 10)) (done [] input) (prepend x (read_line (y ∷ input)))
        (length input) (omega arith)
        (prepend-Leaves x (read_line (y ∷ input)) (length input) (
          Leaves-weaker (read_line (y ∷ input)) (length (y ∷ input) - 2) (length input)
            (omega arith) (read_line-Leaves (y ∷ input)))))

read_line-Shrinks : Shrinks read_line
read_line-Shrinks input =
    Leaves-weaker (read_line input) (length input - 2) (length input) (omega arith)
      (read_line-Leaves input)

option-Shrinks {ℓ κ} :
    {A : Type ℓ} {B : Type κ} (o : Option A) (p : Parser B) (f : A → Parser B)
    → Shrinks p
    → ((a : A) → Shrinks (f a))
    → Shrinks (elim o [ none ↦ p | some a ↦ f a ])
option-Shrinks none p f g h = g
option-Shrinks (some a) p f g h = h a

parse_i64-Shrinks : (line : Bytes) → Shrinks (parse_i64 line)
unfolding parse_i64
parse_i64-Shrinks line =
    if-Shrinks (is_utf8 line) _ _
      (option-Shrinks (i64_from_text line) _ _ (λ input. tt) (λ n. pure-Shrinks n)) (λ input. tt)

read_count-Shrinks : Shrinks read_count
unfolding read_count
read_count-Shrinks = bind-Shrinks read_line parse_i64 read_line-Shrinks parse_i64-Shrinks

read_payload-Shrinks : (len : ℕ) → Shrinks (read_payload len)
unfolding read_payload
read_payload-Shrinks len input =
    if-Leaves (ltb (length input) (len + 2)) incomplete _ (length input) tt (
      if-Leaves (take 2 (drop len input) ==ᵇ crlf) (done (take len input) (drop (len + 2) input))
        (failed _) (length input) (rw (length-drop (len + 2) input) (omega arith)) tt)

expect_bulk-Shrinks : Shrinks expect_bulk
unfolding expect_bulk
expect_bulk-Shrinks [] = tt
expect_bulk-Shrinks (b ∷ rest) =
    if-Leaves (b == 36) (done tt rest) (failed _) (suc (length rest)) (omega arith) tt

module _ (limits : Limits) where
  argument_of_length-Shrinks : (n : ℤ) → Shrinks (argument_of_length limits n)
  unfolding argument_of_length
  argument_of_length-Shrinks (negsuc n) = (λ input. tt)
  argument_of_length-Shrinks (pos len) =
      if-Shrinks (ltb limits.max_bulk_len len) _ _ (λ input. tt) (read_payload-Shrinks len)

  parse_arguments-Shrinks : (count : ℕ) → Shrinks (parse_arguments limits count)
  unfolding parse_arguments
  parse_arguments-Shrinks zero = (λ input. omega arith)
  parse_arguments-Shrinks (suc count) = bind-Shrinks expect_bulk _ expect_bulk-Shrinks (λ dollar.
      bind-Shrinks read_count _ read_count-Shrinks (λ len.
        bind-Shrinks (argument_of_length limits len) _ (argument_of_length-Shrinks len) (λ arg.
          bind-Shrinks (parse_arguments limits count) _ (parse_arguments-Shrinks count)
            (λ args. pure-Shrinks (arg ∷ args)))))

  arguments_of_count-Shrinks : (n : ℤ) → Shrinks (arguments_of_count limits n)
  unfolding arguments_of_count
  arguments_of_count-Shrinks (negsuc n) = (λ input. omega arith)
  arguments_of_count-Shrinks (pos count) = if-Shrinks (count == 0) _ _ ((λ input. omega arith)) (
      if-Shrinks (ltb limits.max_array_len count) _ _ (λ input. tt) (parse_arguments-Shrinks count))

  parse_multibulk-Shrinks : Shrinks (parse_multibulk limits)
  unfolding parse_multibulk
  parse_multibulk-Shrinks = bind-Shrinks read_count _ read_count-Shrinks arguments_of_count-Shrinks

  inline_command-Leaves :
      (buf : Bytes) (r : Parsed Bytes) (n : ℕ) → Leaves n r → Leaves n (inline_command limits buf r)
  unfolding inline_command
  inline_command-Leaves buf (done line rest) n l =
      if-Leaves (ltb limits.max_inline_len (length line)) (failed _) _ n tt
        (tokens (split_inline line))
    where
      tokens :
          (o : Option (List Bytes))
          → Leaves n (elim o as (λ _. Parsed (List Bytes)) [
            | none ↦ failed inline_syntax
            | some args ↦ done args rest
          ])
      tokens none = tt
      tokens (some args) = l
  inline_command-Leaves buf incomplete n l =
      if-Leaves (ltb limits.max_inline_len (length buf)) (failed _) incomplete n tt tt
  inline_command-Leaves buf (failed e) n l = tt

  -- A request that is decoded takes at least one byte off the buffer.
  pub decode_command-Leaves :
      (b : ℕ) (buf : Bytes) → Leaves (length buf) (decode_command limits (b ∷ buf))
  unfolding decode_command
  decode_command-Leaves b buf =
      if-Leaves (b == 42) (parse_multibulk limits buf) _ (length buf) (parse_multibulk-Shrinks buf)
        (inline_command-Leaves (b ∷ buf) (read_line (b ∷ buf)) (length buf) (
          Leaves-weaker (read_line (b ∷ buf)) (length (b ∷ buf) - 2) (length buf) (omega arith)
            (read_line-Leaves (b ∷ buf))))
