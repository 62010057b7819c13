-- ===== src/Usecase/Auth/Credentials/Pattern.antt =====
-- usecase/auth.go, `emailPattern`: the pattern, read as the texts that it describes.
use payment_processing.Prelude.{
  ℕ, suc, ◌≤◌, ◌≡◌, ◌≢◌, ◌⊎◌, ◌↔◌, refl, sym, ap, ◌∙◌, subst, Bool, true, false, List, [], ◌∷◌,
  ◌++◌, Bytes, length, leb, ◌==◌, All, arith, inl, inr,
}
use payment_processing.Usecase.Auth.Credentials.{
  is_alnum, is_local_char, is_label_char, cut, all_of, last_of, is_label, labels, all_labels,
  is_domain, match_email, not_empty,
}
use payment_processing.Usecase.Auth.Credentials.Splitting.{
  join, joined, found-or-not, cut-parts, cut-append, labels-joined, labels-dotless, labels-dot,
}

-- [a-z0-9](?:[a-z0-9-]{0,61}[a-z0-9])?
abbrev pub IsLabel : Bytes → Type 0
IsLabel s =
    ((c : ℕ) × (s ≡ c ∷ []) × (is_alnum c ≡ true))
    ⊎ ((c : ℕ) × (middle : Bytes) × (d : ℕ) × (s ≡ c ∷ (middle ++ (d ∷ [])))
        × (is_alnum c ≡ true)
        × (All (λ x. is_label_char x ≡ true) middle)
        × (is_alnum d ≡ true)
        × (length middle ≤ 61))

-- Characters before an at sign, at least one, and labels between dots, at least two.
pub record IsEmail (email : Bytes) : Type 0 where
  pub local : Bytes
  pub first : Bytes
  pub second : Bytes
  pub others : List Bytes
  pub parts : email ≡ local ++ (b'@' ∷ join first (second ∷ others))
  pub some_local : local ≢ []
  pub local_chars : All (λ c. is_local_char c ≡ true) local
  pub all_labels : All IsLabel (first ∷ second ∷ others)

all_of-All : (p : ℕ → Bool) (s : Bytes) → (all_of p s ≡ true) ↔ All (λ c. p c ≡ true) s
all_of-All p [] = (λ _. tt, λ _. refl)
all_of-All p (c ∷ s) = (
  λ h. (ground (arith, h), (all_of-All p s).0 (ground (arith, h))),
  λ h. rw (h.0, (all_of-All p s).1 h.1) refl,
)

-- The last character apart.
last-split :
    (c : ℕ) (s : Bytes)
    → (middle : Bytes) × (c ∷ s ≡ middle ++ (last_of c s ∷ [])) × (length middle ≡ length s)
last-split c [] = ([], refl, refl)
last-split c (d ∷ s) =
    let (middle, same, long) = last-split d s in (c ∷ middle, ap (λ t. c ∷ t) same, ap suc long)

all_of-init :
    (p : ℕ → Bool) (s : Bytes) (d : ℕ) → all_of p (s ++ (d ∷ [])) ≡ true → all_of p s ≡ true
all_of-init p [] d h = refl
all_of-init p (c ∷ s) d h = ground (arith, all_of-init p s d)

all_of-last :
    (p : ℕ → Bool) (s : Bytes) (d : ℕ)
    → all_of p s ≡ true
    → p d ≡ true
    → all_of p (s ++ (d ∷ [])) ≡ true
all_of-last p [] d h k = rw k refl
all_of-last p (c ∷ s) d h k = ground (arith, all_of-last p s d)

last_of-append : (c : ℕ) (s : Bytes) (d : ℕ) → last_of c (s ++ (d ∷ [])) ≡ d
last_of-append c [] d = refl
last_of-append c (x ∷ s) d = last_of-append x s d

length-last : (s : Bytes) (d : ℕ) → length (s ++ (d ∷ [])) ≡ suc (length s)
length-last [] d = refl
length-last (c ∷ s) d = ap suc (length-last s d)

is_label-IsLabel : (s : Bytes) → is_label s ≡ true → IsLabel s
unfolding is_label
is_label-IsLabel [] h = absurd (ground arith)
is_label-IsLabel (c ∷ []) h = inl (c, refl, ground (arith, h))
is_label-IsLabel (c ∷ d ∷ s) h =
    let (middle, same, long) = last-split d s in
    let inside : all_of is_label_char (d ∷ s) ≡ true = ground (arith, h) in
    inr (
      c,
      middle,
      last_of d s,
      ap (λ t. c ∷ t) same,
      ground (arith, h),
      (all_of-All is_label_char middle).0 (
          all_of-init is_label_char middle (last_of d s)
            (subst (λ t. all_of is_label_char t ≡ true) same inside)),
      ground (arith, h),
      ground (arith, h, long),
    )

IsLabel-is_label : (s : Bytes) → IsLabel s → is_label s ≡ true
unfolding is_label
IsLabel-is_label s (inl (c, same, alnum)) = rw (same, alnum) refl
IsLabel-is_label s (inr (c, middle, d, same, first, inside, last, short)) =
    let label_char : is_label_char d ≡ true = rw last refl in
    rw
      (
        same,
        first,
        all_of-last is_label_char middle d ((all_of-All is_label_char middle).1 inside) label_char,
        last_of-append c middle d,
        last,
        length-last middle d,
      )
      (ground (arith, short))

-- No label has a dot, and no character before the at sign is one.
alnum-dotless : (c : ℕ) → is_label_char c ≡ true → (c == b'.') ≡ false
alnum-dotless c h = ground (arith, h)

label-dotless : (s : Bytes) → is_label s ≡ true → All (λ c. (c == b'.') ≡ false) s
unfolding is_label
label-dotless [] h = tt
label-dotless (c ∷ s) h = (
  alnum-dotless c (ground (arith, h)),
  dotless s ((all_of-All is_label_char s).0 (ground (arith, h))),
)
  where
    dotless : (s : Bytes) → All (λ c. is_label_char c ≡ true) s → All (λ c. (c == b'.') ≡ false) s
    dotless [] h = tt
    dotless (c ∷ s) h = (alnum-dotless c h.0, dotless s h.1)

local_char-not_at : (c : ℕ) → is_local_char c ≡ true → (c == b'@') ≡ false
unfolding is_local_char
local_char-not_at c h = ground (arith, h)

local-not_at : (s : Bytes) → All (λ c. is_local_char c ≡ true) s → All (λ c. (c == b'@') ≡ false) s
local-not_at [] h = tt
local-not_at (c ∷ s) h = (local_char-not_at c h.0, local-not_at s h.1)

all_labels-All : (ls : List Bytes) → all_labels ls ≡ true → All IsLabel ls
all_labels-All [] h = tt
all_labels-All (l ∷ ls) h =
    (is_label-IsLabel l (ground (arith, h)), all_labels-All ls (ground (arith, h)))

All-all_labels : (ls : List Bytes) → All IsLabel ls → all_labels ls ≡ true
All-all_labels [] h = refl
All-all_labels (l ∷ ls) h = rw (IsLabel-is_label l h.0, All-all_labels ls h.1) refl

labels-join : (l : Bytes) (ls : List Bytes) → All IsLabel (l ∷ ls) → labels (join l ls) ≡ l ∷ ls
labels-join l [] h = labels-dotless l (label-dotless l (IsLabel-is_label l h.0))
labels-join l (m ∷ ms) h =
    labels-dot l (join m ms) (label-dotless l (IsLabel-is_label l h.0))
    ∙ ap (λ t. l ∷ t) (labels-join m ms h.1)

some-not_empty : (s : Bytes) → (not_empty s ≡ true) ↔ (s ≢ [])
some-not_empty [] = (λ h. absurd (ground arith), λ h. absurd (h refl))
some-not_empty (c ∷ s) = (λ _ e. cc, λ _. refl)

two_labels :
    (email local domain : Bytes) (ls : List Bytes)
    → email ≡ local ++ (b'@' ∷ domain)
    → labels domain ≡ ls
    → not_empty local ≡ true
    → all_of is_local_char local ≡ true
    → all_labels ls ≡ true
    → leb 2 (length ls) ≡ true
    → IsEmail email
two_labels email local domain [] parts same some_local chars good two = absurd (ground arith)
two_labels email local domain (l ∷ []) parts same some_local chars good two = absurd (ground arith)
two_labels email local domain (l ∷ m ∷ ms) parts same some_local chars good two =
    let whole : join l (m ∷ ms) ≡ domain =
      subst (λ x. joined x ≡ domain) same (labels-joined domain) in
    record {
      local = local;
      first = l;
      second = m;
      others = ms;
      parts = parts ∙ ap (λ d. local ++ (b'@' ∷ d)) (sym whole);
      some_local = (some-not_empty local).0 some_local;
      local_chars = (all_of-All is_local_char local).0 chars;
      all_labels = all_labels-All (l ∷ m ∷ ms) good;
    }

matched-IsEmail : (email : Bytes) → match_email email ≡ true → IsEmail email
unfolding match_email is_domain
matched-IsEmail email h = elim (found-or-not (cut b'@' email)) [
  | inl missing ↦ absurd (ground (arith, rw (match_email, missing) at h))
  | inr (t, found) ↦
      let tests = rw (match_email, found) at h in
      two_labels email t.0 t.1 (labels t.1) (cut-parts b'@' email {a = t.0} {b = t.1} found) refl
        (ground (arith, tests)) (ground (arith, tests)) (ground (arith, tests))
        (ground (arith, tests))
]

IsEmail-matched : (email : Bytes) → IsEmail email → match_email email ≡ true
unfolding match_email is_domain
IsEmail-matched email e =
    let at_sign =
      cut-append b'@' e.local (join e.first (e.second ∷ e.others))
        (local-not_at e.local e.local_chars) in
    let dots = labels-join e.first (e.second ∷ e.others) e.all_labels in
    let full = (some-not_empty e.local).1 e.some_local in
    let chars = (all_of-All is_local_char e.local).1 e.local_chars in
    let good = All-all_labels (e.first ∷ e.second ∷ e.others) e.all_labels in
    rw (e.parts, match_email, at_sign, dots, full, chars, good) (ground arith)

-- A text matches emailPattern exactly if it is one or more of the characters that the pattern
-- allows there, an at sign, and two or more labels with dots between them, each of 1 to 63
-- letters, digits and inner dashes.
pub match_email-IsEmail_iff : (email : Bytes) → (match_email email ≡ true) ↔ IsEmail email
match_email-IsEmail_iff email = (matched-IsEmail email, IsEmail-matched email)
