-- ===== src/LeaderFollower/Leader/Dispatch.antt =====
-- Which handler of the leader's app (`build_app` of leader_follower/leader.py) a request finds.
use kv_replication_lab.Prelude.{
  ◌≡◌, refl, ◌∙◌, String, false, not, ◌&&◌, none, some, List, [], ◌∷◌, All, arith, if◌then◌else◌,
}
use kv_replication_lab.Common.Server.{
  Method, Route, route, path_is, http_put, has_method, method_eq, is_replaced, put_key_leader_ep,
  create_app,
}
use kv_replication_lab.Common.Server.Routes.{
  Router, or_else-none, All-append, All-imp, overlap_one, serves, resolve-one,
  replace_route_shadows, replace_route_keeps,
}
use kv_replication_lab.LeaderFollower.Leader.{build_app}

-- The framework's own routes take no PUT.
abbrev pub NoPut : List Route → Type 0
NoPut = All (λ r. has_method http_put r.methods ≡ false)

module _ (router : Router) (builtin : List Route) where
  open router use {path_fits, resolve}

  -- A PUT goes to `put_key_leader` if its path fits `/kv/{key}`, and to no handler otherwise, when
  -- the framework's own routes take no PUT.
  pub leader_put :
      (q : String)
      → NoPut builtin
      → resolve (build_app builtin) http_put q
        ≡ (if path_fits (some "/kv/{key}") q then some put_key_leader_ep else none)
  unfolding build_app
  leader_put q quiet =
      replace_route_shadows router (create_app builtin) "/kv/{key}" (http_put ∷ [])
        (route http_put "/kv/{key}" put_key_leader_ep ∷ []) http_put q refl
        (All-append (λ r. (serves router http_put q r && not (path_is r.path "/kv/{key}")) ≡ false)
          builtin _ (All-imp _ _ builtin (λ r h. ground arith) quiet)
          (refl, (ground arith, (refl, (refl, (refl, tt))))))
      ∙ resolve-one router (route http_put "/kv/{key}" put_key_leader_ep) http_put q

  -- Every other request finds the handler that it finds in the generic app.
  pub leader_other :
      (m : Method) (q : String)
      → method_eq m http_put ≡ false
      → NoPut builtin
      → resolve (build_app builtin) m q ≡ resolve (create_app builtin) m q
  unfolding build_app
  leader_other m q h quiet =
      replace_route_keeps router (create_app builtin) "/kv/{key}" (http_put ∷ [])
        (route http_put "/kv/{key}" put_key_leader_ep ∷ []) m q
        (All-append
          (λ r. (is_replaced "/kv/{key}" (http_put ∷ []) r && serves router m q r) ≡ false) builtin
          _ (All-imp _ _ builtin (λ r e. ground (arith, overlap_one http_put r.methods e)) quiet)
          (refl, (ground arith, (refl, (refl, (refl, tt))))))
      ∙ rw (resolve-one router (route http_put "/kv/{key}" put_key_leader_ep) m q, h)
          (or_else-none (resolve (create_app builtin) m q))
