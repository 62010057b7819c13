-- ===== src/Usecase/Auth/Credentials/Splitting.antt =====
-- usecase/auth.go, `emailPattern`: a text, and its parts at the at sign and the dots.
use payment_processing.Prelude.{
  ℕ, ◌≡◌, ◌⊎◌, refl, sym, ap, ◌∙◌, subst, false, Option, none, some, List, [], ◌∷◌, ◌++◌, Bytes,
  ◌==◌, All, arith, Bool-cases, inl, inr,
}
use payment_processing.Usecase.Auth.Credentials.{cut, labels, push_char}

abbrev pub join : Bytes → List Bytes → Bytes
join l [] = l
join l (m ∷ ms) = l ++ (b'.' ∷ join m ms)

pub found-or-not : {A : Type 0} (o : Option A) → (o ≡ none) ⊎ ((a : A) × (o ≡ some a))
found-or-not none = inl refl
found-or-not (some a) = inr (a, refl)

some-injective : {A : Type 0} {a b : A} → some a ≡ some b → a ≡ b
some-injective h = cc

-- The at sign.
pub cut-parts : (sep : ℕ) (s : Bytes) {a b : Bytes} → cut sep s ≡ some (a, b) → s ≡ a ++ (sep ∷ b)
unfolding cut
cut-parts sep [] h = cc
cut-parts sep (c ∷ s) {a} {b} h = elim (Bool-cases (c == sep)) [
  | inl here ↦
      let same : ([], s) ≡ (a, b) = some-injective (rw here at h) in
      let is_sep : sep ≡ c = ground (arith, here) in
      subst (λ (p : Bytes × Bytes). c ∷ s ≡ p.0 ++ (sep ∷ p.1)) same (ap (λ x. x ∷ s) (sym is_sep))
  | inr other ↦ elim (found-or-not (cut sep s)) [
    | inl missing ↦ cc (rw (other, missing) at h)
    | inr (t, found) ↦
        let same : (c ∷ t.0, t.1) ≡ (a, b) = some-injective (rw (other, found) at h) in
        subst (λ (p : Bytes × Bytes). c ∷ s ≡ p.0 ++ (sep ∷ p.1)) same
          (ap (λ x. c ∷ x) (cut-parts sep s {a = t.0} {b = t.1} found))
  ]
]

pub cut-append :
    (sep : ℕ) (a b : Bytes)
    → All (λ c. (c == sep) ≡ false) a
    → cut sep (a ++ (sep ∷ b)) ≡ some (a, b)
unfolding cut
cut-append sep [] b h = ground arith
cut-append sep (c ∷ a) b h = rw (h.0, cut-append sep a b h.1) refl

abbrev pub joined : List Bytes → Bytes
joined [] = []
joined (l ∷ ls) = join l ls

push-joined : (c : ℕ) (ls : List Bytes) → joined (push_char c ls) ≡ c ∷ joined ls
push-joined c [] = refl
push-joined c (l ∷ []) = refl
push-joined c (l ∷ m ∷ ls) = refl

labels-some : (s : Bytes) → (l : Bytes) × (ls : List Bytes) × (labels s ≡ l ∷ ls)
unfolding labels
labels-some [] = ([], [], refl)
labels-some (c ∷ s) = elim (Bool-cases (c == b'.')) [
  | inl dot ↦ ([], labels s, rw dot refl)
  | inr other ↦ let (l, ls, same) = labels-some s in (c ∷ l, ls, rw (other, same) refl)
]

pub labels-joined : (s : Bytes) → joined (labels s) ≡ s
unfolding labels
labels-joined [] = refl
labels-joined (c ∷ s) = elim (Bool-cases (c == b'.')) [
  | inl dot ↦
      let (l, ls, same) = labels-some s in
      let is_dot : b'.' ≡ c = ground arith in
      rw (dot, same)
        (ap (λ t. b'.' ∷ t) (subst (λ x. joined x ≡ s) same (labels-joined s))
          ∙ ap (λ x. x ∷ s) is_dot)
  | inr other ↦ rw other (push-joined c (labels s) ∙ ap (λ t. c ∷ t) (labels-joined s))
]

pub labels-dotless : (l : Bytes) → All (λ c. (c == b'.') ≡ false) l → labels l ≡ l ∷ []
unfolding labels
labels-dotless [] h = refl
labels-dotless (c ∷ l) h = rw (h.0, labels-dotless l h.1) refl

pub labels-dot :
    (l rest : Bytes)
    → All (λ c. (c == b'.') ≡ false) l
    → labels (l ++ (b'.' ∷ rest)) ≡ l ∷ labels rest
unfolding labels
labels-dot [] rest h = refl
labels-dot (c ∷ l) rest h = rw (h.0, labels-dot l rest h.1) refl
