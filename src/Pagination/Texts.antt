-- ===== src/Pagination/Texts.antt =====
-- The functions of texts that the page queries use: `trim`, `split(',')`, `join(',')` and equality. A
-- text is the list of its character codes.
use jonoob_part_backend.Common.{
  ℕ, ◌≡◌, refl, ap, ◌∙◌, Bool, true, false, ◌&&◌, ◌||◌, List, [], ◌∷◌, ◌++◌, mem, leb, ◌==◌,
  if◌then◌else◌, All,
}
use mathlib.Core.List.{reverse, reverse_aux, reverse-reverse}

abbrev pub Text : Type 0
Text = List ℕ

abbrev pub comma : ℕ
comma = 44

abbrev pub minus : ℕ
minus = 45

-- The white space of ECMAScript.
unfoldable pub is_space : ℕ → Bool
is_space c =
    (leb 9 c && leb c 13)
    || (leb 0x2000 c && leb c 0x200a)
    || mem c (32 ∷ 160 ∷ 0x1680 ∷ 0x2028 ∷ 0x2029 ∷ 0x202f ∷ 0x205f ∷ 0x3000 ∷ 0xfeff ∷ [])

unfoldable pub trim_start : Text → Text
unfolding is_space
trim_start [] = []
trim_start (c ∷ cs) = if is_space c then trim_start cs else c ∷ cs

unfoldable pub trim : Text → Text
unfolding trim_start
trim t = reverse (trim_start (reverse (trim_start t)))

abbrev pub prepend : ℕ → List Text → List Text
prepend c [] = (c ∷ []) ∷ []
prepend c (t ∷ ts) = (c ∷ t) ∷ ts

unfoldable pub split : Text → List Text
split [] = [] ∷ []
split (c ∷ cs) = let rest = split cs in if c == comma then [] ∷ rest else prepend c rest

unfoldable pub join : List Text → Text
join [] = []
join (t ∷ []) = t
join (t ∷ u ∷ us) = t ++ (comma ∷ join (u ∷ us))

unfoldable pub same_text : Text → Text → Bool
same_text [] [] = true
same_text (a ∷ as') (b ∷ bs) = a == b && same_text as' bs
same_text _ _ = false

abbrev pub is_empty : Text → Bool
is_empty [] = true
is_empty _ = false

-- No character is a space or a comma.
abbrev pub IsPlain : Text → Type 0
IsPlain = All (λ c. (is_space c ≡ false) × ((c == comma) ≡ false))

pub split-IsPlain : (t : Text) → IsPlain t → split t ≡ t ∷ []
unfolding split
split-IsPlain [] h = refl
split-IsPlain (c ∷ cs) (h, hs) = rw (h.1, split-IsPlain cs hs) refl

pub split-append : (t rest : Text) → IsPlain t → split (t ++ (comma ∷ rest)) ≡ t ∷ split rest
unfolding split
split-append [] rest h = refl
split-append (c ∷ cs) rest (h, hs) = rw (h.1, split-append cs rest hs) refl

pub split-join : (t : Text) (ts : List Text) → All IsPlain (t ∷ ts) → split (join (t ∷ ts)) ≡ t ∷ ts
unfolding join
split-join t [] (h, hs) = split-IsPlain t h
split-join t (u ∷ us) (h, hs) =
    split-append t (join (u ∷ us)) h ∙ ap (λ r. t ∷ r) (split-join u us hs)

abbrev pub IsSpaceless : Text → Type 0
IsSpaceless = All (λ c. is_space c ≡ false)

pub All-append :
    {A : Type 0} (P : A → Type 0) (xs ys : List A) → All P xs → All P ys → All P (xs ++ ys)
All-append P [] ys h k = k
All-append P (x ∷ xs) ys (h, hs) k = (h, All-append P xs ys hs k)

reverse_aux-IsSpaceless :
    (t u : Text) → IsSpaceless t → IsSpaceless u → IsSpaceless (reverse_aux t u)
reverse_aux-IsSpaceless [] u h k = k
reverse_aux-IsSpaceless (c ∷ cs) u (h, hs) k = reverse_aux-IsSpaceless cs (c ∷ u) hs (h, k)

reverse-IsSpaceless : (t : Text) → IsSpaceless t → IsSpaceless (reverse t)
reverse-IsSpaceless t h = reverse_aux-IsSpaceless t [] h tt

trim_start-same : (t : Text) → IsSpaceless t → trim_start t ≡ t
unfolding trim_start
trim_start-same [] h = refl
trim_start-same (c ∷ cs) (h, hs) = rw h refl

pub trim-same : (t : Text) → IsSpaceless t → trim t ≡ t
unfolding trim
trim-same t h =
    rw (trim_start-same t h, trim_start-same (reverse t) (reverse-IsSpaceless t h))
      (reverse-reverse t)
