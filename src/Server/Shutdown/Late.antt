-- ===== src/Server/Shutdown/Late.antt =====
-- Calls of `shutdown` whose `server.close` failed, and which call an exit with 0 comes from.
use node_jwt_redis_session_a.Base.{
  ℕ, zero, suc, ◌≡◌, refl, ◌∙◌, Bool, true, false, Option, none, some, List, [], ◌∷◌, ◌++◌, map,
  All, Option-cases, inl, inr,
}
use node_jwt_redis_session_a.Server.Shutdown.{Run, update, close, exit_of, exit_code, exit_of_runs}

-- A call whose `server.close` failed.
abbrev pub Late : Run → Type 0
Late run = run.close_error ≡ true

pub one_zero : ◌≡◌ {A = Option ℕ} (some 1) (some 0) → ⊥
one_zero e = cc

exit_code-zero :
    (c : Bool) (a b : Option Bool)
    → exit_code c a b ≡ some 0
    → (c ≡ false) × (a ≡ some true) × (b ≡ some true)
exit_code-zero false (some true) (some true) e = (refl, refl, refl)
exit_code-zero true (some a) (some b) e = absurd (one_zero e)
exit_code-zero false (some false) (some b) e = absurd (one_zero e)
exit_code-zero false (some true) (some false) e = absurd (one_zero e)
exit_code-zero c none b e = absurd (cc)
exit_code-zero c (some a) none e = absurd (cc)

-- Late calls never exit with 0.
pub exit_of_runs-Late : (runs : List Run) → All Late runs → exit_of_runs runs ≡ some 0 → ⊥
unfolding exit_of_runs
exit_of_runs-Late [] h e = cc
exit_of_runs-Late (run ∷ runs) (h, hs) e = elim (Option-cases (exit_of run)) [
  | inl busy ↦ exit_of_runs-Late runs hs (rw busy at e)
  | inr (n, through) ↦
      let zero_now : exit_of run ≡ some 0 = through ∙ (rw through at e) in
      cc (h, (exit_code-zero run.close_error run.pool_end run.redis_quit zero_now).0)
]

-- So an exit with 0 is that of the first call, whose clients both ended.
pub first_exit :
    (run : Run) (runs : List Run)
    → All Late runs
    → exit_of_runs (run ∷ runs) ≡ some 0
    → (run.pool_end ≡ some true) × (run.redis_quit ≡ some true)
unfolding exit_of_runs
first_exit run runs late e = elim (Option-cases (exit_of run)) [
  | inl busy ↦ absurd (exit_of_runs-Late runs late (rw busy at e))
  | inr (n, through) ↦
      let zero_now : exit_of run ≡ some 0 = through ∙ (rw through at e) in
      let (clean, pool, redis) =
        exit_code-zero run.close_error run.pool_end run.redis_quit zero_now in
      (pool, redis)
]

pub update-Late :
    (n : ℕ) (f : Run → Run) (runs : List Run)
    → ((run : Run) → Late run → Late (f run))
    → All Late runs
    → All Late (update n f runs)
unfolding update
update-Late n f [] g h = tt
update-Late zero f (run ∷ runs) g (h, hs) = (g run h, hs)
update-Late (suc n) f (run ∷ runs) g (h, hs) = (h, update-Late n f runs g hs)

pub map-close-Late : (runs : List Run) → All Late runs → All Late (map close runs)
map-close-Late [] h = tt
map-close-Late (run ∷ runs) (h, hs) = (h, map-close-Late runs hs)

pub append-Late :
    (runs : List Run) (run : Run) → All Late runs → Late run → All Late (runs ++ run ∷ [])
append-Late [] run h l = (l, tt)
append-Late (r ∷ runs) run (h, hs) l = (h, append-Late runs run hs l)
