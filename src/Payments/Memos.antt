-- ===== src/Payments/Memos.antt =====
-- backend/src/contracts/memo.ts. A text is the list of its code points.

use coop_lumen_index.Base.{
  arith, ℕ, ◌+◌, ◌≤◌, ◌≡◌, refl, ◌⊎◌, inl, inr, Bool, true, ◌&&◌, ◌||◌, Option, none, some, List,
  [], ◌∷◌, map, length, all, if◌then◌else◌, ◌==◌, ltb, leb, sym,
}

abbrev pub text_memo_max_bytes : ℕ
text_memo_max_bytes = 28

abbrev pub hash_memo_hex_length : ℕ
hash_memo_hex_length = 64

-- A value that the caller calls a text, and what it is.
pub data MemoValue : Type 0 where
  text_value : List ℕ → MemoValue
  other_value : MemoValue

pub data MemoInput : Type 0 where
  bare : List ℕ → MemoInput
  of_text of_hash : MemoValue → MemoInput
  of_none of_other : MemoInput

pub data Memo : Type 0 where
  text hash : List ℕ → Memo

pub data MemoError : Type 0 where
  text_not_string text_too_long hash_not_string bad_hash unsupported_type : MemoError

-- The bytes of a code point in UTF-8.
abbrev pub utf8_bytes : ℕ → ℕ
utf8_bytes c = if ltb c 128 then 1 else if ltb c 2048 then 2 else if ltb c 65536 then 3 else 4

-- `Buffer.byteLength(value, 'utf8')`
abbrev pub byte_length : List ℕ → ℕ
byte_length [] = 0
byte_length (c ∷ cs) = utf8_bytes c + byte_length cs

-- The white space and line ends that `trim` takes away.
abbrev pub is_space : ℕ → Bool
is_space c =
    leb 9 c && leb c 13
    || c == 32
    || c == 160
    || c == 0x1680
    || leb 0x2000 c && leb c 0x200A
    || c == 0x2028
    || c == 0x2029
    || c == 0x202F
    || c == 0x205F
    || c == 0x3000
    || c == 0xFEFF

abbrev pub trim_start : List ℕ → List ℕ
trim_start [] = []
trim_start (c ∷ cs) = let rest = trim_start cs in if is_space c then rest else c ∷ cs

-- A space at the end goes if all that follows it goes.
abbrev pub keep_before : ℕ → List ℕ → List ℕ
keep_before c [] = if is_space c then [] else c ∷ []
keep_before c (d ∷ ds) = c ∷ d ∷ ds

abbrev pub trim_end : List ℕ → List ℕ
trim_end [] = []
trim_end (c ∷ cs) = keep_before c (trim_end cs)

unfoldable pub trim : List ℕ → List ℕ
trim cs = trim_end (trim_start cs)

-- `toLowerCase`, of the letters that it makes hexadecimal digits of: no other letter becomes one.
abbrev pub lower_hex : ℕ → ℕ
lower_hex c = if leb b'A' c && leb c b'Z' then c + 32 else c

-- HEX_PATTERN, of one character.
abbrev pub is_hex_digit : ℕ → Bool
is_hex_digit c = leb b'0' c && leb c b'9' || leb b'a' c && leb c b'f' || leb b'A' c && leb c b'F'

unfoldable pub build_text_memo : MemoValue → MemoError ⊎ Memo
build_text_memo other_value = inl text_not_string
build_text_memo (text_value cs) =
    if ltb text_memo_max_bytes (byte_length cs) then inl text_too_long else inr (text cs)

-- The tests of `buildHashMemo`, once the value is trimmed and in lower case.
abbrev pub hash_memo : List ℕ → MemoError ⊎ Memo
hash_memo normalised =
    if length normalised == hash_memo_hex_length && all is_hex_digit normalised
    then inr (hash normalised)
    else inl bad_hash

unfoldable pub build_hash_memo : MemoValue → MemoError ⊎ Memo
unfolding trim
build_hash_memo other_value = inl hash_not_string
build_hash_memo (text_value cs) = hash_memo (map lower_hex (trim cs))

abbrev pub attached : MemoError ⊎ Memo → MemoError ⊎ Option Memo
attached (inl e) = inl e
attached (inr memo) = inr (some memo)

unfoldable pub build_memo : Option MemoInput → MemoError ⊎ Option Memo
unfolding build_text_memo build_hash_memo
build_memo none = inr none
build_memo (some (bare [])) = inr none
build_memo (some (bare (c ∷ cs))) = attached (build_text_memo (text_value (c ∷ cs)))
build_memo (some of_none) = inr none
build_memo (some (of_text value)) = attached (build_text_memo value)
build_memo (some (of_hash value)) = attached (build_hash_memo value)
build_memo (some of_other) = inl unsupported_type

abbrev is_lower_hex : ℕ → Bool
is_lower_hex c = leb b'0' c && leb c b'9' || leb b'a' c && leb c b'f'

-- What the network takes as a memo.
abbrev pub IsRepresentable : Memo → Type 0
IsRepresentable (text cs) = byte_length cs ≤ 28
IsRepresentable (hash cs) = (length cs ≡ 64) × (all is_lower_hex cs ≡ true)

all-lower_hex :
    (cs : List ℕ)
    → all is_hex_digit (map lower_hex cs) ≡ true
    → all is_lower_hex (map lower_hex cs) ≡ true
all-lower_hex [] h = refl
all-lower_hex (c ∷ cs) h = let rest = all-lower_hex cs (ground arith) in ground arith

hash_memo_lem :
    (cs : List ℕ) (memo : Memo) → hash_memo (map lower_hex cs) ≡ inr memo → IsRepresentable memo
hash_memo_lem cs memo h =
    let long : length (map lower_hex cs) ≡ 64 = ground arith in
    let digits = all-lower_hex cs (ground arith) in
    let same : hash (map lower_hex cs) ≡ memo = ground arith in rw (sym same) (long, digits)

attached-some : (r : MemoError ⊎ Memo) (memo : Memo) → attached r ≡ inr (some memo) → r ≡ inr memo
attached-some r memo h = ground arith

text_memo_lem :
    (value : MemoValue) (memo : Memo) → build_text_memo value ≡ inr memo → IsRepresentable memo
unfolding build_text_memo
text_memo_lem other_value memo h = absurd (ground arith)
text_memo_lem (text_value cs) memo h =
    let small : byte_length cs ≤ 28 = ground arith in
    let same : text cs ≡ memo = ground arith in rw (sym same) small

-- A memo that is attached can be represented on the network: a text of at most 28 bytes, or a hash
-- of 64 hexadecimal digits, none of them a capital.
pub build_memo-IsRepresentable :
    (input : Option MemoInput) (memo : Memo)
    → build_memo input ≡ inr (some memo)
    → IsRepresentable memo
unfolding build_memo build_hash_memo
build_memo-IsRepresentable none memo h = absurd (ground arith)
build_memo-IsRepresentable (some (bare [])) memo h = absurd (ground arith)
build_memo-IsRepresentable (some (bare (c ∷ cs))) memo h =
    text_memo_lem (text_value (c ∷ cs)) memo (attached-some _ memo h)
build_memo-IsRepresentable (some of_none) memo h = absurd (ground arith)
build_memo-IsRepresentable (some (of_text value)) memo h =
    text_memo_lem value memo (attached-some _ memo h)
build_memo-IsRepresentable (some (of_hash other_value)) memo h = absurd (ground arith)
build_memo-IsRepresentable (some (of_hash (text_value cs))) memo h =
    hash_memo_lem (trim cs) memo (attached-some _ memo h)
build_memo-IsRepresentable (some of_other) memo h = absurd (ground arith)
