-- ===== src/Handle/Limits.antt =====
-- The length of an account as the handlers take it, in a byte.
use das_register.Prelude.{
  ℕ, zero, suc, ◌≤◌, ◌&&◌, ◌+◌, ◌-◌, ◌%◌, ◌<◌, Bool, true, false, List, [], ◌∷◌, ◌++◌, ◌≡◌, refl,
  ap, arith, length, leb, nat_coded, if◌then◌else◌,
}
use das_register.Tables.Names.{AccountCharSet}
use das_register.Handle.Text.{text_eq, drop, is_dot_bit, end_with_dot_bit_char, acc_len}

length-append : {A : Type 0} (xs ys : List A) → length (xs ++ ys) ≡ length xs + length ys
length-append [] ys = omega arith
length-append (x ∷ xs) ys = omega (arith, length-append xs ys)

drop-append :
    {A : Type 0} (xs ys : List A) (n m : ℕ) → m ≡ length xs + n → drop m (xs ++ ys) ≡ drop n ys
unfolding drop
drop-append [] ys n m e = let same : m ≡ n = omega (arith, e) in ap (λ k. drop k ys) same
drop-append (x ∷ xs) ys n zero e = absurd (omega (arith, e))
drop-append (x ∷ xs) ys n (suc m) e = drop-append xs ys n m (omega (arith, e))

ends-append :
    (xs ys : List AccountCharSet)
    → 4 < length ys
    → end_with_dot_bit_char (xs ++ ys) ≡ end_with_dot_bit_char ys
unfolding end_with_dot_bit_char
ends-append xs ys long =
    let more = length-append xs ys in
    let long_all : leb (length (xs ++ ys)) 4 ≡ false = ground (arith, more, long) in
    let long_ys : leb (length ys) 4 ≡ false = ground (arith, long) in
    rw (long_all, long_ys)
      (ap is_dot_bit
        (drop-append xs ys (length ys - 4) (length (xs ++ ys) - 4) (omega (arith, more, long))))

drop_all : {A : Type 0} (xs ys : List A) → drop (length xs) (xs ++ ys) ≡ ys
unfolding drop
drop_all xs ys = drop-append xs ys 0 (length xs) (omega arith)

-- A list of at most four characters is as long as it is. A longer one, of at most 255 characters, is
-- four less if its last four are ".", "b", "i" and "t", and as long as it is if not.
pub acc_len-length :
    (xs : List AccountCharSet) (a b c d : AccountCharSet)
    → 0 < length xs
    → length xs + 4 < 256
    → (acc_len (xs ++ a ∷ b ∷ c ∷ d ∷ []) ≡ (
        if text_eq a.char "." && text_eq b.char "b" && text_eq c.char "i" && text_eq d.char "t"
        then length xs
        else length xs + 4))
      × ((ys : List AccountCharSet) → length ys ≤ 4 → acc_len ys ≡ length ys)
unfolding acc_len end_with_dot_bit_char
acc_len-length xs a b c d some_ short = (long, λ ys few. brief ys few)
  where
    four : List AccountCharSet
    four = a ∷ b ∷ c ∷ d ∷ []

    more : length (xs ++ four) ≡ length xs + 4
    more = length-append xs four

    ends : end_with_dot_bit_char (xs ++ four) ≡ is_dot_bit four
    ends =
        let is_long : leb (length (xs ++ four)) 4 ≡ false = ground (arith, more, some_) in
        let rest : length (xs ++ four) - 4 ≡ length xs = omega (arith, more) in
        rw (is_long, rest) (ap is_dot_bit (drop_all xs four))

    by_end :
        (e : Bool)
        → (if e then (length (xs ++ four) % 256 + 256 - 4) % 256 else length (xs ++ four) % 256)
          ≡ (if e then length xs else length xs + 4)
    by_end true = omega (arith, more, short)
    by_end false = omega (arith, more, short)

    long : acc_len (xs ++ four) ≡ (if is_dot_bit four then length xs else length xs + 4)
    long = rw ends (by_end (is_dot_bit four))

    brief : (ys : List AccountCharSet) → length ys ≤ 4 → acc_len ys ≡ length ys
    brief ys few =
        let is_brief : leb (length ys) 4 ≡ true = ground (arith, few) in
        rw is_brief (omega (arith, few))

-- The length is taken in a byte: 256 characters more, in front of a list of more than four, do not
-- change it. So an account of 260 characters counts as one of 4.
pub acc_len-wraps :
    (xs list : List AccountCharSet)
    → length xs ≡ 256
    → 4 < length list
    → acc_len (xs ++ list) ≡ acc_len list
unfolding acc_len
acc_len-wraps xs list many long =
    let same = ends-append xs list long in
    let more = length-append xs list in
    let lengths : length (xs ++ list) % 256 ≡ length list % 256 = omega (arith, more, many) in
    rw (same, lengths) refl
