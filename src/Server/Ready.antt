-- ===== src/Server/Ready.antt =====
-- When /ready answers, and with which status.
use node_jwt_redis_session_a.Base.{
  ℕ, ◌≤◌, ◌<◌, ◌≡◌, ◌↔◌, ◌⊎◌, refl, max, Bool, true, false, ok, err, Done, ltb, ltb→lt, lt→ltb,
  Bool-cases, inl, inr, arith,
}
use node_jwt_redis_session_a.Server.Readiness.{
  Promise, settles, hangs, with_timeout, ready_check_timeout_ms, is_fulfilled, ready_response,
  readiness,
}

-- A promise that is fulfilled before the time is up.
abbrev pub InTime : ℕ → Promise Done → Type 0
InTime ms (settles t (ok _)) = t < ms
InTime ms (settles t (err e)) = ⊥
InTime ms hangs = ⊥

with_timeout-time : {A : Type 0} (p : Promise A) (ms : ℕ) → (with_timeout p ms).time ≤ ms
unfolding with_timeout
with_timeout-time (settles t r) ms = elim (Bool-cases (ltb t ms)) [
  | inl before ↦ rw before (omega (arith, ltb→lt t ms before))
  | inr late ↦ rw late (omega arith)
]
with_timeout-time hangs ms = omega arith

with_timeout-InTime :
    (p : Promise Done) (ms : ℕ) → (is_fulfilled (with_timeout p ms).result ≡ true) ↔ InTime ms p
unfolding with_timeout
with_timeout-InTime (settles t (ok a)) ms = elim (Bool-cases (ltb t ms)) [
  | inl before ↦ (λ h. ltb→lt t ms before, λ h. rw before refl)
  | inr late ↦ (λ h. absurd (cc (rw late at h)), λ h. absurd (cc (lt→ltb t ms h, late)))
]
with_timeout-InTime (settles t (err e)) ms = elim (Bool-cases (ltb t ms)) [
  | inl before ↦ (λ h. absurd (cc (rw before at h)), λ h. absurd h)
  | inr late ↦ (λ h. absurd (cc (rw late at h)), λ h. absurd h)
]
with_timeout-InTime hangs ms = (λ h. absurd (cc), λ h. absurd h)

ready_response-status :
    (a b : Bool)
    → (((ready_response a b).status ≡ 200) ↔ ((a ≡ true) × (b ≡ true)))
      × (((ready_response a b).status ≡ 200) ⊎ ((ready_response a b).status ≡ 503))
ready_response-status true true = ((λ h. (refl, refl), λ h. refl), inl refl)
ready_response-status true false = ((λ h. absurd (omega arith), λ h. absurd (cc (h.1))), inr refl)
ready_response-status false b = ((λ h. absurd (omega arith), λ h. absurd (cc (h.0))), inr refl)

max-le : (a b n : ℕ) → a ≤ n → b ≤ n → max a b ≤ n
max-le a b n ha hb = omega arith

-- Whatever the two queries do, be it that they never settle, the checks of /ready are over within
-- two seconds, and the status is 200 or 503: 200 exactly when both queries are fulfilled before two
-- seconds have passed.
pub readiness-answers :
    (select_one ping : Promise Done)
    → ((readiness select_one ping).0 ≤ 2000)
      × (((readiness select_one ping).1.status ≡ 200) ↔ (InTime 2000 select_one × InTime 2000 ping))
      × (((readiness select_one ping).1.status ≡ 200)
          ⊎ ((readiness select_one ping).1.status ≡ 503))
unfolding readiness
readiness-answers select_one ping =
    let a = with_timeout-InTime select_one ready_check_timeout_ms in
    let b = with_timeout-InTime ping ready_check_timeout_ms in
    let (both, which) =
      ready_response-status (is_fulfilled (with_timeout select_one ready_check_timeout_ms).result)
        (is_fulfilled (with_timeout ping ready_check_timeout_ms).result) in
    (
      max-le _ _ _ (with_timeout-time select_one ready_check_timeout_ms)
          (with_timeout-time ping ready_check_timeout_ms),
      (λ h. (a.0 (both.0 h).0, b.0 (both.0 h).1), λ h. both.1 (a.1 h.0, b.1 h.1)),
      which,
    )
