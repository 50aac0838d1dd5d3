-- ===== src/Text/Numbers/Decimal.antt =====
-- A number that was written in decimal digits is read back.
use Prim.Native.String.{◌∷◌}
use web_socketaa_s.Prelude.{
  ℕ, zero, suc, ◌+◌, ◌*◌, ◌/◌, ◌%◌, ◌^◌, ◌≤◌, ◌<◌, String, ◌≡◌, refl, ap, ◌∙◌, some, true, ltb, leb,
  pos, arith, Bool-cases, inl, inr,
}
use web_socketaa_s.Text.Numbers.{
  max_long, digits, some_digits, within, positive, digit, print_from, parse_long, long_to_string,
}

-- To prove it of the digits, one by one.
module _ (P : ℕ → Type 0) (p0 : P 0) (p1 : P 1) (p2 : P 2) (p3 : P 3) (p4 : P 4) (p5 : P 5)
    (p6 : P 6) (p7 : P 7) (p8 : P 8) (p9 : P 9) where
  below_ten : (k : ℕ) → k < 10 → P k
  below_ten zero lt = p0
  below_ten (suc zero) lt = p1
  below_ten (suc (suc zero)) lt = p2
  below_ten (suc (suc (suc zero))) lt = p3
  below_ten (suc (suc (suc (suc zero)))) lt = p4
  below_ten (suc (suc (suc (suc (suc zero))))) lt = p5
  below_ten (suc (suc (suc (suc (suc (suc zero)))))) lt = p6
  below_ten (suc (suc (suc (suc (suc (suc (suc zero))))))) lt = p7
  below_ten (suc (suc (suc (suc (suc (suc (suc (suc zero)))))))) lt = p8
  below_ten (suc (suc (suc (suc (suc (suc (suc (suc (suc zero))))))))) lt = p9
  below_ten (suc (suc (suc (suc (suc (suc (suc (suc (suc (suc k)))))))))) lt =
      absurd (omega (arith, lt))

digits-digit :
    (m : ℕ) (acc : String) (k : ℕ) → k < 10 → digits m (digit k ∷ acc) ≡ digits (m * 10 + k) acc
unfolding digits digit
digits-digit m acc =
    below_ten (λ k. digits m (digit k ∷ acc) ≡ digits (m * 10 + k) acc) refl refl refl refl refl
      refl refl refl refl refl

-- It is read as its digits alone: it has no sign.
abbrev IsUnsigned : String → Type 0
IsUnsigned s = parse_long s ≡ positive (within max_long (digits 0 s))

digit-IsUnsigned : (acc : String) (k : ℕ) → k < 10 → IsUnsigned (digit k ∷ acc)
unfolding digit parse_long some_digits digits
digit-IsUnsigned acc =
    below_ten (λ k. IsUnsigned (digit k ∷ acc)) refl refl refl refl refl refl refl refl refl refl

-- What is written for a number, in front of any text.
record Written (n : ℕ) (acc s : String) : Type 0 where
  value : digits 0 s ≡ digits n acc
  unsigned : IsUnsigned s

small-Written : (n : ℕ) (acc : String) → n < 10 → Written n acc (digit (n % 10) ∷ acc)
small-Written n acc lt = record {
  value = digits-digit 0 acc (n % 10) (omega arith) ∙ ap (λ k. digits k acc) (omega (arith, lt));
  unsigned = digit-IsUnsigned acc (n % 10) (omega arith);
}

print_from-Written :
    (fuel n : ℕ) (acc : String) → n < 2 ^ fuel → Written n acc (print_from (suc fuel) n acc)
unfolding print_from
print_from-Written zero n acc lt =
    let small : ltb n 10 ≡ true = ground (arith, lt) in
    rw small (small-Written n acc (omega (arith, lt)))
print_from-Written (suc fuel) n acc lt =
    let rest = print_from-Written fuel (n / 10) (digit (n % 10) ∷ acc) (omega (arith, lt)) in
    elim (Bool-cases (ltb n 10)) [
      | inl small ↦ rw small (small-Written n acc (ground (arith, small)))
      | inr large ↦ rw large (record {
        value =
            rest.value
            ∙ digits-digit (n / 10) acc (n % 10) (omega arith)
            ∙ ap (λ k. digits k acc) (omega arith);
        unsigned = rest.unsigned;
      })
    ]

-- A number that is not negative and fits into a long is what is read where it was written.
pub parse_long-long_to_string :
    (n : ℕ) → n ≤ max_long → parse_long (long_to_string (pos n)) ≡ some (pos n)
unfolding long_to_string digits within positive
parse_long-long_to_string n le =
    let w = print_from-Written 63 n "" (omega (arith, le)) in
    let fits : leb n max_long ≡ true = ground (arith, le) in
    w.unsigned ∙ ap (λ o. positive (within max_long o)) w.value ∙ rw fits refl
