-- ===== src/Profiles/Listing.antt =====
-- UserService.listUsers: the page that is answered.
use node_jwt_redis_session_a.Base.{
  Text, ℕ, zero, suc, ◌≤◌, ◌≡◌, sym, ap, ◌∙◌, List, [], ◌∷◌, map, ok, ◌>>=◌, lift, pure, bind-inv,
  arith, length, take, drop,
}
use node_jwt_redis_session_a.Account.{UserPublic, to_public_user}
use node_jwt_redis_session_a.Postgres.{Postgres, Pool, UserRow, query}
use node_jwt_redis_session_a.Users.{Page, list_paginated, order_rows, select}
use node_jwt_redis_session_a.Users.Queries.{query-ok, select-db}
use node_jwt_redis_session_a.Validation.{Value}
use node_jwt_redis_session_a.Validation.Schemas.{PageQuery, parse_page_query}
use node_jwt_redis_session_a.Validation.Pages.{parse_page_query-bounds}
use node_jwt_redis_session_a.Platform.{Platform, World, on_postgres}
use node_jwt_redis_session_a.Profiles.{ListUsersResult, list_users}

-- The users of a page: `limit` of the ordered rows, after the first `offset`.
abbrev pub page_of : ℕ → ℕ → List UserRow → List UserPublic
page_of limit offset rows =
    map to_public_user (map (λ r. r.record_of) (take limit (drop offset (order_rows rows))))

length-take_le :
    (n : ℕ) (rows : List UserRow)
    → length (map to_public_user (map (λ r. r.record_of) (take n rows))) ≤ n
length-take_le zero rows = omega arith
length-take_le (suc n) [] = omega arith
length-take_le (suc n) (r ∷ rows) = omega (arith, length-take_le n rows)

module _ (P : Postgres) (limit offset : ℕ) (w : Pool P) where
  list_paginated-ok :
      (page : Page)
      → (list_paginated P limit offset w).0 ≡ ok page
      → (page.items ≡ map (λ r. r.record_of) (take limit (drop offset (order_rows (P.users w.db)))))
        × (page.total ≡ length (P.users w.db))
  unfolding list_paginated
  list_paginated-ok page h =
      let shown : List UserRow → _ =
        λ rows. map (λ (r : UserRow). r.record_of) (take limit (drop offset (order_rows rows))) in
      let (items, e, rest) =
        bind-inv (query (select P shown))
          (λ items.
            query (select P length) >>= λ total. pure (record { items = items; total = total }))
          w h in
      let w1 = (query (select P shown) w).1 in
      let h1 = sym (ap (λ x. x.0) rest) ∙ h in
      let (total, e', rest') =
        bind-inv (query (select P length)) (λ total. pure (record { items = items; total = total }))
          w1 h1 in
      let same = sym (ap (λ x. x.0) rest') ∙ h1 in
      let got = (query-ok (select P shown) w e).0 in
      let counted = (query-ok (select P length) w1 e').0 in
      let db = select-db P shown w in
      (cc (same, got), cc (same, counted, ap (λ d. length (P.users d)) db))

module _ (F : Platform) where
  -- Whenever a list of users is answered, whatever faults PostgreSQL has: its limit is at least 1
  -- and at most 100, it shows no more users than that, and they are the page at its offset of the
  -- rows in order, without their password hashes.
  pub list_users-page :
      (raw_query : List (Text × Value)) (w : World F) (r : ListUsersResult)
      → (list_users F raw_query w).0 ≡ ok r
      → (1 ≤ r.limit)
        × (r.limit ≤ 100)
        × (length r.items ≤ r.limit)
        × (r.items ≡ page_of r.limit r.offset (F.postgres.users w.pool.db))
  unfolding list_users on_postgres
  list_users-page raw_query w r h =
      let answer : PageQuery → Page → ListUsersResult = λ q page. record {
        items = map to_public_user page.items;
        total = page.total;
        limit = q.limit;
        offset = q.offset;
      } in
      let (q, parsed, rest) =
        bind-inv (lift (parse_page_query F.zod raw_query))
          (λ q. on_postgres (list_paginated F.postgres q.limit q.offset) >>= λ page.
            pure (answer q page))
          w h in
      let h1 = sym (ap (λ x. x.0) rest) ∙ h in
      let (page, e, rest') =
        bind-inv (on_postgres (list_paginated F.postgres q.limit q.offset))
          (λ page. pure (answer q page)) w h1 in
      let same : ok (answer q page) ≡ ok r = sym (ap (λ x. x.0) rest') ∙ h1 in
      let (items, total) = list_paginated-ok F.postgres q.limit q.offset w.pool page e in
      let bounds = parse_page_query-bounds F.zod raw_query q parsed in
      let limit : q.limit ≡ r.limit = cc (same) in
      let offset : q.offset ≡ r.offset = cc (same) in
      let shown : r.items ≡ page_of r.limit r.offset (F.postgres.users w.pool.db) =
        cc (same, items, limit, offset) in
      (
        omega (arith, limit, bounds.0),
        omega (arith, limit, bounds.1),
        rw shown (length-take_le r.limit (drop r.offset (order_rows (F.postgres.users w.pool.db)))),
        shown,
      )
