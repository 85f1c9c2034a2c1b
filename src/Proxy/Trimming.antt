-- ===== src/Proxy/Trimming.antt =====
-- `trim`: what is left of a text without its outer white space.
use mathlib.Core.List.{reverse, reverse-append, reverse-reverse, reverse-cons}
use node_jwt_redis_session_a.Base.{
  Text, ℕ, ◌≤◌, ◌≡◌, ◌⊎◌, refl, sym, ap, ◌∙◌, subst, true, false, [], ◌∷◌, ◌++◌, inl, inr, All,
  Bool-cases, arith, trim, trim_start, is_space,
}

-- The white space and the line terminators of ECMAScript: tab, line feed, vertical tab, form feed,
-- carriage return, space, the other spaces of Unicode, its two separators and the byte order mark.
abbrev pub IsWhite : ℕ → Type 0
IsWhite c =
    ((9 ≤ c) × (c ≤ 13))
    ⊎ ((c ≡ 32)
        ⊎ ((c ≡ 160)
            ⊎ ((c ≡ 5760)
                ⊎ (((8192 ≤ c) × (c ≤ 8202))
                    ⊎ ((c ≡ 8232)
                        ⊎ ((c ≡ 8233)
                            ⊎ ((c ≡ 8239) ⊎ ((c ≡ 8287) ⊎ ((c ≡ 12288) ⊎ (c ≡ 65279))))))))))

is_space-IsWhite : (c : ℕ) → is_space c ≡ true → IsWhite c
is_space-IsWhite c h = ground arith

not-IsWhite : (c : ℕ) → is_space c ≡ false → ¬ IsWhite c
not-IsWhite c h w = ground arith

-- The first character, if there is one, is no white space.
abbrev pub Starts : Text → Type 0
Starts [] = Unit
Starts (c ∷ s) = ¬ IsWhite c

-- A text, and what is left of it without its outer white space.
pub record IsTrimmed (value s : Text) : Type 0 where
  pub before : Text
  pub after : Text
  pub parts : value ≡ before ++ (s ++ after)
  pub white_before : All IsWhite before
  pub white_after : All IsWhite after
  pub starts : Starts s
  pub ends : Starts (reverse s)

trim_start-parts :
    (s : Text) → (l : Text) × (s ≡ l ++ trim_start s) × All IsWhite l × Starts (trim_start s)
unfolding trim_start
trim_start-parts [] = ([], refl, tt, tt)
trim_start-parts (c ∷ s) = elim (Bool-cases (is_space c)) [
  | inl white ↦
      let (l, parts, all, starts) = trim_start-parts s in
      (c ∷ l, rw white (ap (λ x. c ∷ x) parts), (is_space-IsWhite c white, all), rw white starts)
  | inr dark ↦ ([], rw dark refl, tt, rw dark (not-IsWhite c dark))
]

All-append : (xs ys : Text) → All IsWhite xs → All IsWhite ys → All IsWhite (xs ++ ys)
All-append [] ys h k = k
All-append (x ∷ xs) ys (h, hs) k = (h, All-append xs ys hs k)

All-reverse : (xs : Text) → All IsWhite xs → All IsWhite (reverse xs)
All-reverse [] h = tt
All-reverse (x ∷ xs) (h, hs) =
    subst (All IsWhite) (sym (reverse-cons x xs))
      (All-append (reverse xs) (x ∷ []) (All-reverse xs hs) (h, tt))

Starts-left : (xs ys : Text) → Starts (xs ++ ys) → Starts xs
Starts-left [] ys h = tt
Starts-left (x ∷ xs) ys h = h

pub trim-IsTrimmed : (value : Text) → IsTrimmed value (trim value)
unfolding trim
trim-IsTrimmed value =
    let a = trim_start value in
    let (l, parts, white, starts) = trim_start-parts value in
    let b = trim_start (reverse a) in
    let (m, parts', white', starts') = trim_start-parts (reverse a) in
    let split : a ≡ reverse b ++ reverse m =
      sym (reverse-reverse a) ∙ ap reverse parts' ∙ reverse-append m b in
    record {
      before = l;
      after = reverse m;
      parts = parts ∙ ap (λ x. l ++ x) split;
      white_before = white;
      white_after = All-reverse m white';
      starts = Starts-left (reverse b) (reverse m) (subst Starts split starts);
      ends = subst Starts (sym (reverse-reverse b)) starts';
    }
