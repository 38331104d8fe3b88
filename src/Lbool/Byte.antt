-- ===== src/Lbool/Byte.antt =====
-- The byte of an `lbool` and its operators, with the tables of `&&` and `||`. They implement the
-- three-valued logic on the four bytes that occur: 0, 1, and 2 or 3 for undefined.
use Prim.Native.Nat.{bit_and, bit_or, bit_xor}
use glucose.Prelude.{
  ℕ, zero, suc, ◌*◌, ◌/◌, ◌%◌, ◌^◌, ◌<◌, ◌≡◌, refl, Bool, true, false, not, ◌&&◌, arith, ◌==◌,
  if◌then◌else◌,
}
use glucose.Lbool.{Lbool, l_true, l_false, l_undef, flip, eq, and, or}

-- 0 and 1 are l_True and l_False; a byte with bit 2 is undefined.
abbrev pub decode : ℕ → Lbool
decode v = if bit_and v 2 == 2 then l_undef else if v == 0 then l_true else l_false

-- The bits of a comparison of two bytes.
abbrev bit : Bool → ℕ
bit b = if b then 1 else 0

pub eq_bits : ℕ → ℕ → Bool
eq_bits a b = not (
    bit_or (bit_and (bit_and b 2) (bit_and a 2)) (bit_and (bit (bit_and b 2 == 0)) (bit (a == b)))
    == 0)

pub flip_bits : ℕ → Bool → ℕ
flip_bits a b = bit_xor a (bit b)

-- `(value << 1) | (b.value << 3)`, a byte
abbrev sel : ℕ → ℕ → ℕ
sel a b = bit_or (a * 2) (b * 8) % 256

pub and_bits : ℕ → ℕ → ℕ
and_bits a b = bit_and (0xF7F755F4 / 2 ^ sel a b) 3

pub or_bits : ℕ → ℕ → ℕ
or_bits a b = bit_and (0xFCFCF400 / 2 ^ sel a b) 3

-- All pairs of the four bytes pass the test.
abbrev on_bytes : (ℕ → Bool) → Bool
on_bytes f = f 0 && f 1 && f 2 && f 3

on_bytes_sound : (f : ℕ → Bool) (a : ℕ) → a < 4 → on_bytes f ≡ true → f a ≡ true
on_bytes_sound f zero h e = ground arith
on_bytes_sound f (suc zero) h e = ground arith
on_bytes_sound f (suc (suc zero)) h e = ground arith
on_bytes_sound f (suc (suc (suc zero))) h e = ground arith
on_bytes_sound f (suc (suc (suc (suc a)))) h e = absurd (omega arith)

abbrev same : Bool → Bool → Bool
same true b = b
same false b = not b

eq_of_same : (b c : Bool) → same b c ≡ true → b ≡ c
eq_of_same true true h = refl
eq_of_same true false h = cc
eq_of_same false true h = cc
eq_of_same false false h = refl

eq_of_eq : (x y : Lbool) → eq x y ≡ true → x ≡ y
eq_of_eq x y h = ground arith

-- Each operator on two bytes passes the tests on all pairs.
table_sound :
    (f : ℕ → ℕ → Bool) (a b : ℕ)
    → a < 4
    → b < 4
    → on_bytes (λ a. on_bytes (f a)) ≡ true
    → f a b ≡ true
table_sound f a b h k e = on_bytes_sound (f a) b k (on_bytes_sound (λ a. on_bytes (f a)) a h e)

eq_table : on_bytes (λ a. on_bytes λ b. same (eq_bits a b) (eq (decode a) (decode b))) ≡ true
unfolding eq_bits
eq_table = refl

and_table :
    on_bytes (λ a. on_bytes λ b. eq (decode (and_bits a b)) (and (decode a) (decode b))) ≡ true
unfolding and_bits
and_table = refl

or_table : on_bytes (λ a. on_bytes λ b. eq (decode (or_bits a b)) (or (decode a) (decode b))) ≡ true
unfolding or_bits
or_table = refl

flip_table : (s : Bool) → on_bytes (λ a. eq (decode (flip_bits a s)) (flip (decode a) s)) ≡ true
unfolding flip_bits
flip_table true = refl
flip_table false = refl

-- On the four bytes that an lbool can hold, the operators `==`, `&&`, `||` and `^` of the class,
-- which read their results off bits and tables, compute equality, conjunction, disjunction and
-- negation of three-valued logic on the values that the bytes stand for.
pub bits_implement_logic :
    (a b : ℕ) (s : Bool)
    → a < 4
    → b < 4
    → (eq_bits a b ≡ eq (decode a) (decode b))
      × (decode (and_bits a b) ≡ and (decode a) (decode b))
      × (decode (or_bits a b) ≡ or (decode a) (decode b))
      × (decode (flip_bits a s) ≡ flip (decode a) s)
bits_implement_logic a b s h k = (
  eq_of_same _ _
      (table_sound (λ a b. same (eq_bits a b) (eq (decode a) (decode b))) a b h k eq_table),
  eq_of_eq _ _ (
      table_sound (λ a b. eq (decode (and_bits a b)) (and (decode a) (decode b))) a b h k
        and_table),
  eq_of_eq _ _
      (table_sound (λ a b. eq (decode (or_bits a b)) (or (decode a) (decode b))) a b h k or_table),
  eq_of_eq _ _
      (on_bytes_sound (λ a. eq (decode (flip_bits a s)) (flip (decode a) s)) a h (flip_table s)),
)
