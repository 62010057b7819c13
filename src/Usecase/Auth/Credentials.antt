-- ===== src/Usecase/Auth/Credentials.antt =====
-- internal/usecase/auth.go: the checks on emails, passwords and names. Texts are bytes;
-- strings.TrimSpace and strings.ToLower are those of an ASCII text.
pub mod Splitting
pub mod Pattern
pub mod Accepted
mod Tests
use payment_processing.Prelude.{
  ℕ, zero, suc, trim_space, Bool, true, false, ◌&&◌, ◌||◌, not, Option, none, some, List, [], ◌∷◌,
  Bytes, ok, err, length, leb, ◌==◌, if◌then◌else◌,
}
use payment_processing.Domain.{Outcome, invalid_email, invalid_password, invalid_name}
use payment_processing.Storage.Tables.{lower}

abbrev pub min_password_len : ℕ
min_password_len = 8

abbrev pub max_password_len : ℕ
max_password_len = 72

abbrev pub max_email_len : ℕ
max_email_len = 254

abbrev pub min_account_name_len : ℕ
min_account_name_len = 3

abbrev pub max_account_name_len : ℕ
max_account_name_len = 100

abbrev pub between : ℕ → ℕ → ℕ → Bool
between low high n = leb low n && leb n high

unfoldable pub normalize_email : Bytes → Bytes
unfolding lower trim_space
normalize_email email = lower (trim_space email)

-- [a-z0-9]
abbrev pub is_alnum : ℕ → Bool
is_alnum c = between b'a' b'z' c || between b'0' b'9' c

-- The characters of emailPattern before the at sign: [a-z0-9.!#$%&'*+/=?^_`{|}~-].
unfoldable pub is_local_char : ℕ → Bool
is_local_char c =
    is_alnum c
    || (c == b'!')
    || between b'#' b'\'' c
    || between b'*' b'+' c
    || between b'-' b'/' c
    || (c == b'=')
    || (c == b'?')
    || between b'^' b'`' c
    || between b'{' b'~' c

abbrev pub is_label_char : ℕ → Bool
is_label_char c = is_alnum c || (c == b'-')

-- The text before the first `sep` and the text after it.
unfoldable pub cut : ℕ → Bytes → Option (Bytes × Bytes)
cut sep [] = none
cut sep (c ∷ cs) =
    let rest = cut sep cs in
    if c == sep then some ([], cs) else elim rest [ none ↦ none | some t ↦ some (c ∷ t.0, t.1) ]

abbrev pub all_of : (ℕ → Bool) → Bytes → Bool
all_of p [] = true
all_of p (c ∷ cs) = p c && all_of p cs

abbrev pub last_of : ℕ → Bytes → ℕ
last_of c [] = c
last_of c (d ∷ ds) = last_of d ds

-- [a-z0-9](?:[a-z0-9-]{0,61}[a-z0-9])?
unfoldable pub is_label : Bytes → Bool
is_label [] = false
is_label (c ∷ cs) =
    is_alnum c && all_of is_label_char cs && is_alnum (last_of c cs) && leb (length (c ∷ cs)) 63

abbrev pub push_char : ℕ → List Bytes → List Bytes
push_char c [] = (c ∷ []) ∷ []
push_char c (l ∷ ls) = (c ∷ l) ∷ ls

-- The parts between the dots, at least one.
unfoldable pub labels : Bytes → List Bytes
labels [] = [] ∷ []
labels (c ∷ cs) = let rest = labels cs in if c == b'.' then [] ∷ rest else push_char c rest

abbrev pub all_labels : List Bytes → Bool
all_labels [] = true
all_labels (l ∷ ls) = is_label l && all_labels ls

-- A label, and one or more after it.
unfoldable pub is_domain : List Bytes → Bool
unfolding is_label
is_domain ls = all_labels ls && leb 2 (length ls)

abbrev pub not_empty : Bytes → Bool
not_empty [] = false
not_empty (c ∷ cs) = true

-- emailPattern.MatchString; the pattern's local part has no at sign, so the first one ends it.
unfoldable pub match_email : Bytes → Bool
unfolding cut is_local_char labels is_domain
match_email email = elim (cut b'@' email) [
  | none ↦ false
  | some (local, domain) ↦
      not_empty local && all_of is_local_char local && is_domain (labels domain)
]

unfoldable pub valid_email : Bytes → Bool
unfolding match_email
valid_email email = not_empty email && leb (length email) max_email_len && match_email email

unfoldable pub valid_password : Bytes → Bool
valid_password password = between min_password_len max_password_len (length password)

abbrev is_tail : ℕ → Bool
is_tail = between 128 191

-- The first two bytes of a character of three or four.
abbrev is_three : ℕ → ℕ → Bool
is_three a b =
    ((a == 224) && between 160 191 b)
    || (between 225 236 a && is_tail b)
    || ((a == 237) && between 128 159 b)
    || (between 238 239 a && is_tail b)

abbrev is_four : ℕ → ℕ → Bool
is_four a b =
    ((a == 240) && between 144 191 b)
    || (between 241 243 a && is_tail b)
    || ((a == 244) && between 128 143 b)

abbrev pred : ℕ → ℕ
pred zero = zero
pred (suc n) = n

-- The bytes that utf8.DecodeRune takes: those of a well-formed character, or a single byte.
unfoldable pub rune_width : Bytes → ℕ
rune_width [] = 0
rune_width (a ∷ []) = 1
rune_width (a ∷ b ∷ []) = if between 194 223 a && is_tail b then 2 else 1
rune_width (a ∷ b ∷ c ∷ []) =
    if between 194 223 a && is_tail b then 2 else if is_three a b && is_tail c then 3 else 1
rune_width (a ∷ b ∷ c ∷ d ∷ rest) =
    if between 194 223 a && is_tail b
    then 2
    else if is_three a b && is_tail c
    then 3
    else if is_four a b && is_tail c && is_tail d
    then 4
    else 1

-- utf8.RuneCountInString, `skip` bytes into a character.
unfoldable pub rune_count : ℕ → Bytes → ℕ
unfolding rune_width
rune_count skip [] = 0
rune_count zero (c ∷ cs) = suc (rune_count (pred (rune_width (c ∷ cs))) cs)
rune_count (suc skip) (c ∷ cs) = rune_count skip cs

unfoldable pub validate_registration : Bytes → Bytes → Bytes → Outcome (Unit {0})
unfolding valid_email valid_password rune_count
validate_registration email password name =
    if not (valid_email email)
    then err invalid_email
    else if not (valid_password password)
    then err invalid_password
    else if not (between min_account_name_len max_account_name_len (rune_count 0 name))
    then err invalid_name
    else ok tt
