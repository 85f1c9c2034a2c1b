-- ===== src/Tokens/Splitting.antt =====
-- Refresh tokens, put together and taken apart.
use node_jwt_redis_session_a.Base.{
  Text, ℕ, zero, suc, ◌≡◌, ◌≢◌, ◌<◌, refl, sym, ap, ◌∙◌, some, [], ◌∷◌, ◌++◌, length, take, drop,
  index_of, arith, All, inl, inr, length-append, Option-cases, length-pos, subst,
  take-length_append,
}
use node_jwt_redis_session_a.Tokens.{
  SplitRefreshToken, split_refresh_token, refresh_token, split_found, split_at,
}

-- A text without the separator.
abbrev pub NoDot : Text → Type 0
NoDot = All (λ c. c ≢ b'.')

pub index_of-append : (s t : Text) → NoDot s → index_of b'.' (s ++ b'.' ∷ t) ≡ some (length s)
unfolding index_of
index_of-append [] t h = refl
index_of-append (c ∷ s) t (h, hs) = ground (arith, index_of-append s t hs)

drop-append : (s : Text) (c : ℕ) (t : Text) → drop (suc (length s)) (s ++ c ∷ t) ≡ t
drop-append [] c t = refl
drop-append (d ∷ s) c t = drop-append s c t

-- What is found splits the text.
index_of_sound :
    (s : Text) (i : ℕ)
    → index_of b'.' s ≡ some i
    → (s ≡ take i s ++ b'.' ∷ drop (suc i) s) × NoDot (take i s) × (length (take i s) ≡ i)
unfolding index_of
index_of_sound [] i h = absurd (cc)
index_of_sound (c ∷ s) zero h = elim (Option-cases (index_of b'.' s)) [
  | inl missing ↦ ground (arith, missing)
  | inr (i, found) ↦ ground (arith, found)
]
index_of_sound (c ∷ s) (suc i) h = elim (Option-cases (index_of b'.' s)) [
  | inl missing ↦ absurd (ground (arith, missing))
  | inr (k, found) ↦
      let same : k ≡ i = ground (arith, found) in
      let (e, free, l) = index_of_sound s i (found ∙ ap some same) in
      (ap (λ r. c ∷ r) e, (ground (arith, found), free), ap suc l)
]

-- A refresh token falls apart into the session and the validator that it was made of, whatever the
-- validator contains, if both are there and the session's identifier has no dot.
pub split-refresh_token :
    (session_id validator : Text)
    → NoDot session_id
    → session_id ≢ []
    → validator ≢ []
    → split_refresh_token (refresh_token session_id validator)
      ≡ some (record { session_id = session_id; validator = validator })
unfolding split_refresh_token refresh_token
split-refresh_token session_id validator free ne_id ne_v =
    rw (index_of-append session_id validator free) (
      ground (
        arith,
        length-pos session_id ne_id,
        length-pos validator ne_v,
        length-append session_id (b'.' ∷ validator),
        take-length_append session_id (b'.' ∷ validator),
        drop-append session_id b'.' validator,
      ))

split_at_sound :
    (raw : Text) (i : ℕ) (t : SplitRefreshToken)
    → index_of b'.' raw ≡ some i
    → split_found raw (some i) ≡ some t
    → (raw ≡ refresh_token t.session_id t.validator)
      × NoDot t.session_id
      × (t.session_id ≢ [])
      × (t.validator ≢ [])
unfolding refresh_token
split_at_sound raw i t found h =
    let (e, free, l) = index_of_sound raw i found in
    let parts : split_at raw i ≡ t = ground arith in
    let head : 0 < i = ground arith in
    let more : suc i ≢ length raw = ground arith in
    subst
      (λ (x : SplitRefreshToken).
        (raw ≡ x.session_id ++ b'.' ∷ x.validator)
        × NoDot x.session_id
        × (x.session_id ≢ [])
        × (x.validator ≢ []))
      parts
      (
        e,
        free,
        λ nil. absurd (omega (arith, ap length nil, l)),
        λ nil. more (
            sym (
              ap length e
              ∙ length-append (take i raw) (b'.' ∷ drop (suc i) raw)
              ∙ omega (arith, ap length nil, l))),
      )

-- Whatever is split was such a token: the two parts are joined by a dot to the whole, neither is
-- empty, and the session's identifier has no dot.
pub split_sound :
    (raw : Text) (t : SplitRefreshToken)
    → split_refresh_token raw ≡ some t
    → (raw ≡ refresh_token t.session_id t.validator)
      × NoDot t.session_id
      × (t.session_id ≢ [])
      × (t.validator ≢ [])
unfolding split_refresh_token refresh_token
split_sound raw t h = elim (Option-cases (index_of b'.' raw)) [
  | inl missing ↦ absurd (cc (rw missing at h))
  | inr (i, found) ↦ split_at_sound raw i t found (rw found at h)
]
