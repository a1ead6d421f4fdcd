-- ===== src/Handle/Text.antt =====
-- The tests on texts and on the characters of an account: `EndWithDotBitChar` of
-- tables/t_das_order_info.go, the length that the handlers take from it, and the checks of
-- http_server/handle/account_search.go that read the account's characters.
use Prim.Native.Nat.{Ordering}
use Prim.Native.String
use Prim.Native.String.{String, len, slice, find, compare}
use das_register.Prelude.{
  ℕ, zero, suc, ◌+◌, ◌-◌, ◌%◌, Bool, true, false, Option, none, some, List, [], ◌∷◌, not, ◌&&◌,
  ◌||◌, leb, length, nat_coded, ◌==◌, if◌then◌else◌,
}
use das_register.Tables.Names.{Name, AccountCharSet}
use das_register.Dao.Store.{Done}
use das_register.Handle.Reply.{
  Handler, ◌>>=◌, ◌>>◌, guard, from_option, account_contains_invalid_char,
}
use das_register.Handle.Service.{Service, CharType, emoji, digit, en, th, ko}

abbrev pub text_eq : String → String → Bool
text_eq a b = elim (compare a b) [ Ordering.eq ↦ true | _ ↦ false ]

-- `strings.HasSuffix` and `strings.TrimSuffix`
abbrev pub has_suffix : String → String → Bool
has_suffix s suffix =
    leb (len suffix) (len s) && text_eq (slice s (len s - len suffix) (len s)) suffix

-- `strings.HasSuffix(s, common.DasAccountSuffix)`
abbrev pub has_bit_suffix : String → Bool
has_bit_suffix s = has_suffix s ".bit"

abbrev trim_suffix : String → String → String
trim_suffix s suffix = if has_suffix s suffix then slice s 0 (len s - len suffix) else s

-- `strings.Contains`
abbrev has_part : String → String → Bool
has_part s part = leb (find s part) (len s)

module _ {A : Type 0} where
  unfoldable pub drop : ℕ → List A → List A
  drop zero xs = xs
  drop (suc n) [] = []
  drop (suc n) (x ∷ xs) = drop n xs

abbrev pub is_dot_bit : List AccountCharSet → Bool
is_dot_bit (a ∷ b ∷ c ∷ d ∷ []) =
    text_eq a.char "." && text_eq b.char "b" && text_eq c.char "i" && text_eq d.char "t"
is_dot_bit _ = false

-- `EndWithDotBitChar`
unfoldable pub end_with_dot_bit_char : List AccountCharSet → Bool
unfolding drop
end_with_dot_bit_char list =
    if leb (length list) 4 then false else is_dot_bit (drop (length list - 4) list)

-- `accLen := uint8(len(list))`, less 4 if the list ends in ".bit"
unfoldable pub acc_len : List AccountCharSet → ℕ
unfolding end_with_dot_bit_char
acc_len list =
    let n = length list % 256 in if end_with_dot_bit_char list then (n + 256 - 4) % 256 else n

abbrev is_en : CharType → Bool
is_en en = true
is_en _ = false

-- The cases of one character: its set, and "." besides in the set of English.
abbrev is_valid_char : Service → AccountCharSet → Option CharType → Bool
is_valid_char v c none = false
is_valid_char v c (some t) = is_en t && text_eq c.char "." || v.in_char_set t c.char

-- The loop of `checkAccountCharSet`: the characters put together, unless one is not valid.
unfoldable joined_chars : Service → List AccountCharSet → Option String
joined_chars v [] = some ""
joined_chars v (c ∷ cs) =
    let rest = joined_chars v cs in
    if text_eq c.char "" || not (is_valid_char v c (v.char_type c.char_set_name))
    then none
    else elim rest [ none ↦ none | some s ↦ some (String.◌++◌ c.char s) ]

abbrev with_suffix : String → String
with_suffix s = if has_suffix s ".bit" then s else String.◌++◌ s ".bit"

-- `checkAccountCharSet`
unfoldable pub check_account_char_set : Service → Name → List AccountCharSet → Handler Done
unfolding joined_chars
check_account_char_set v account list = do
  guard (has_suffix (v.text account) ".bit") account_contains_invalid_char
  guard (not (leb (len (v.text account)) 4)) account_contains_invalid_char
  guard (not (has_part (trim_suffix (v.text account) ".bit") ".")) account_contains_invalid_char
  chars ← from_option (joined_chars v list) account_contains_invalid_char
  guard (v.equal_fold_text (v.text account) (with_suffix chars)) account_contains_invalid_char
  guard (not (v.is_char_type_diff list)) account_contains_invalid_char

-- `OpenCharTypeMap`
abbrev is_open_char_type : Option CharType → Bool
is_open_char_type (some emoji) = true
is_open_char_type (some digit) = true
is_open_char_type (some ko) = true
is_open_char_type (some th) = true
is_open_char_type _ = false

-- The loop of `checkAccountBase` from the second character on, `last` being the set of the one before.
abbrev same_from : Service → ℕ → List AccountCharSet → Bool
same_from v last [] = true
same_from v last (c ∷ cs) =
    let rest = same_from v c.char_set_name cs in
    text_eq c.char "."
    || is_open_char_type (v.char_type c.char_set_name) && c.char_set_name == last && rest

-- `isSameDaoCharType`
unfoldable pub is_same_dao_char_type : Service → List AccountCharSet → Bool
is_same_dao_char_type v [] = true
is_same_dao_char_type v (c ∷ cs) = text_eq c.char "." || same_from v c.char_set_name cs

-- `strings.Count(s, ".")`
unfoldable pub count_dots : String → ℕ
count_dots String.[] = 0
count_dots (String.◌∷◌ c s) = (if text_eq (String.◌∷◌ c String.[]) "." then 1 else 0) + count_dots s
