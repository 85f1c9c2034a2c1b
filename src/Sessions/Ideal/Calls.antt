-- ===== src/Sessions/Ideal/Calls.antt =====
-- Each method of SessionRepository, with replies from Redis, and its ideal.
use node_jwt_redis_session_a.Base.{
  Text, ℕ, zero, suc, ◌<◌, ◌-◌, min, ◌≡◌, refl, sym, ap, ◌∙◌, subst, Option, none, some, List, [],
  length, drop, ◌===◌, if◌then◌else◌, Bool-cases, inl, inr, arith, Exec, Result, ok, pure, ◌>>=◌,
  bind-ok, next_fault, later_faults, Done, Fault,
}
use node_jwt_redis_session_a.Redis.{Redis, has, is_set}
use node_jwt_redis_session_a.Redis.Client.{
  Client, Command, request, request-delivered, request-faults, exec,
}
use node_jwt_redis_session_a.Sessions
use node_jwt_redis_session_a.Sessions.{
  Codec, SessionRecord, RotateParams, RotateOutcome, rotated, concurrent, reused, missing,
  IsPrecise, session_key, user_sessions_key, session_prefix, session_absolute_ttl_seconds,
  session_idle_ttl_seconds, refresh_grace_period_ms, ceil_seconds, set_command,
  set_command_positive, exec_or_throw, delete_all_script, delete_each, within_grace, rotated_record,
  rotated_ttl,
}
use node_jwt_redis_session_a.Sessions.Views.{index_at, index_at-del_index}
use node_jwt_redis_session_a.Sessions.Operations.{
  exec_or_throw-state, raw_at-delete_all, index_at-delete_each, create-clock, delete-clock,
  delete_all_for_user-clock,
}
use node_jwt_redis_session_a.Sessions.Transactions.{exec_or_throw-Ran}
use node_jwt_redis_session_a.Sessions.Revocation.{create-reply, delete-reply}
use node_jwt_redis_session_a.Sessions.Reading.{
  get-store, get-clock, get-faults, get-Holds, get-Lacks,
}
use node_jwt_redis_session_a.Sessions.Ideal.{
  Ideal, put_session, remove_session, add_to_index, remove_from_index, get_call, create_call,
  delete_call, delete_all_call, Reply, found, done, ideal, perform, Shows, Represents,
}
use node_jwt_redis_session_a.Sessions.Ideal.Commands.{
  Shows-same, set_ex-Represents, del-Represents, sadd-Represents, srem-Represents,
  expire-Represents,
}

module _ (R : Redis) (C : Codec) where
  -- A call that returned what the ideal returns, and left what the ideal leaves, with no faults
  -- ahead and no time passed.
  abbrev pub Meets : Client R → Reply × Ideal → Result Reply × Client R → Type 0
  Meets c (reply, a) (r, c') =
      (r ≡ ok reply) × Represents R C c'.store c.clock a × (c'.faults ≡ []) × (c'.clock ≡ c.clock)

  pub mapped-Meets :
      {A : Type 0} (m : Exec (Client R) A) (g : A → Reply) (c : Client R) (v : A) (a : Ideal)
      → (m c).0 ≡ ok v
      → Represents R C (m c).1.store c.clock a
      → (m c).1.faults ≡ []
      → (m c).1.clock ≡ c.clock
      → Meets c (g v, a) ((m >>= λ x. pure (g x)) c)
  mapped-Meets m g c v a e h faults clock =
      subst (Meets c (g v, a)) (sym (bind-ok m (λ x. pure (g x)) c (λ i. (e i, (m c).1))))
        (refl, h, faults, clock)

  module _ (c : Client R) (a : Ideal) (calm : c.faults ≡ [])
      (h : Represents R C c.store c.clock a) where
    get_found :
        (id : Text) (o : Option SessionRecord)
        → Shows R C c.store c.clock id o
        → (Sessions.get R C id c).0 ≡ ok o
    get_found id none l = get-Lacks R C id c (ap next_fault calm) l
    get_found id (some r) (held, precise) = get-Holds R C id c r (ap next_fault calm) held

    pub get-Meets : (id : Text) → Meets c (ideal (get_call id) a) (perform R C (get_call id) c)
    get-Meets id =
        mapped-Meets (Sessions.get R C id) found c (a.sessions id) a
          (get_found id (a.sessions id) (h.shown id))
          (subst (λ s. Represents R C s c.clock a) (sym (get-store R C id c)) h)
          (get-faults R C id c ∙ ap later_faults calm) (get-clock R C id c)

    exec_or_throw-faults : (queue : List (Command R Done)) → (exec_or_throw R queue c).1.faults ≡ []
    unfolding exec request
    exec_or_throw-faults queue =
        ap (λ (x : Client R). x.faults) (exec_or_throw-state R queue c)
        ∙ rw calm (drop-nil (length queue))
      where
        drop-nil : (n : ℕ) → drop {A = Fault} n [] ≡ []
        drop-nil zero = refl
        drop-nil (suc n) = refl

    pub delete-Meets :
        (id uid : Text)
        → Meets c (ideal (delete_call id uid) a) (perform R C (delete_call id uid) c)
    unfolding Sessions.delete
    delete-Meets id uid =
        let replied = delete-reply R id uid c calm in
        let ran = exec_or_throw-Ran R _ c replied in
        mapped-Meets (Sessions.delete R id uid) (λ _. done) c tt _ replied
          (subst (λ s. Represents R C s c.clock (remove_from_index uid id (remove_session id a)))
            (sym ran.1.1)
            (srem-Represents R C c.clock uid id _ _ (del-Represents R C c.clock id c.store a h)))
          (exec_or_throw-faults _) (delete-clock R id uid c)

    pub create-Meets :
        (now : ℕ) (id : Text) (r : SessionRecord)
        → IsPrecise r
        → now < r.absolute_expires_at
        → Meets c (ideal (create_call now id r) a) (perform R C (create_call now id r) c)
    unfolding Sessions.create
    create-Meets now id r precise fresh =
        let replied = create-reply R C now id r c calm fresh in
        let ran = exec_or_throw-Ran R _ c replied in
        let n = min session_idle_ttl_seconds (ceil_seconds (r.absolute_expires_at - now)) in
        let t = c.clock in
        let stored =
          ap (λ x. x.1)
            (set_command_positive R (session_key id) (C.stringify r) n t c.store (omega arith)) in
        let grown = λ (s : R.Store).
          R.expire (user_sessions_key r.user_id) session_absolute_ttl_seconds t
            (R.sadd (user_sessions_key r.user_id) id t s) in
        mapped-Meets (Sessions.create R C now id r) (λ _. done) c tt
          (add_to_index r.user_id id (put_session id r a)) replied
          (subst (λ s. Represents R C s t (add_to_index r.user_id id (put_session id r a)))
            (sym (ran.1.1.1 ∙ ap grown stored))
            (expire-Represents R C t r.user_id session_absolute_ttl_seconds _ _ (omega arith) (
              sadd-Represents R C t r.user_id id _ _ (
                set_ex-Represents R C t id (C.stringify r) n c.store r a (omega arith)
                  (C.cjson_decode-stringify r) (C.parse-stringify r) precise h))))
          (exec_or_throw-faults _) (create-clock R C now id r c)

    delete_all-Represents :
        (uid : Text)
        → Represents R C
            (delete_all_script R (user_sessions_key uid) session_prefix c.clock c.store).1
            c.clock
            (ideal (delete_all_call uid) a).1
    unfolding delete_all_script
    delete_all-Represents uid = record {
      shown = λ j. elim (Bool-cases (a.index uid j)) [
        | inl mine ↦
            rw mine (raw_at-delete_all R uid c.clock c.store j ∙ rw (h.indexed uid j ∙ mine))
        | inr other ↦ rw other (
            Shows-same R C c.clock c.store _ j (a.sessions j)
              (raw_at-delete_all R uid c.clock c.store j ∙ rw (h.indexed uid j ∙ other))
              (h.shown j))
      ];
      indexed = λ v j. ap (λ o. has o j) (emptied uid v) ∙ elim (Bool-cases (uid === v)) [
        | inl same ↦ rw same refl
        | inr other ↦ rw other (h.indexed v j)
      ];
      sets = λ v. ap is_set (emptied uid v) ∙ elim (Bool-cases (uid === v)) [
        | inl same ↦ rw same refl
        | inr other ↦ rw other (h.sets v)
      ];
    }
      where
        emptied :
            (uid v : Text)
            → index_at R
                (R.del (user_sessions_key uid) c.clock (
                  delete_each R session_prefix
                    (R.smembers (user_sessions_key uid) c.clock c.store)
                    c.clock
                    c.store))
                c.clock
                v
              ≡ (if uid === v then none else index_at R c.store c.clock v)
        emptied uid v =
            index_at-del_index R uid c.clock _ v
            ∙ ap (λ o. if uid === v then none else o)
                (index_at-delete_each R (R.smembers (user_sessions_key uid) c.clock c.store) c.clock
                  c.store v)

    pub delete_all-Meets :
        (uid : Text) → Meets c (ideal (delete_all_call uid) a) (perform R C (delete_all_call uid) c)
    unfolding Sessions.delete_all_for_user request delete_all_script
    delete_all-Meets uid =
        let e =
          request-delivered (delete_all_script R (user_sessions_key uid) session_prefix) c
            (ap next_fault calm) in
        mapped-Meets (Sessions.delete_all_for_user R uid) (λ _. done) c _ _ (ap (λ x. x.0) e)
          (subst (λ s. Represents R C s c.clock (ideal (delete_all_call uid) a).1)
            (sym (ap (λ x. x.1.store) e)) (delete_all-Represents uid))
          (request-faults _ c ∙ ap later_faults calm) (delete_all_for_user-clock R uid c)
