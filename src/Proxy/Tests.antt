-- ===== src/Proxy/Tests.antt =====
-- A number of hops with white space around it.
use node_jwt_redis_session_a.Base.{Text, codes, Option, some}

abbrev two_hops : Option Text
two_hops = some (codes " 2 ")
