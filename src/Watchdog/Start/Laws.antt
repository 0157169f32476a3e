-- ===== src/Watchdog/Start/Laws.antt =====
-- The chain of handlers.
use of_watchdog.Prelude.{
  Option, String, arith, eq_iff, if◌then◌else◌, inl, inr, is_positive, none, refl, some, true, ◌≡◌,
  ◌≢◌, ◌⊎◌,
}
use of_watchdog.Watchdog.Environment.{get_fn_name, get_fn_namespace}
use of_watchdog.Go.Http.{Error}
use of_watchdog.Config.New.{WatchdogConfig}
use of_watchdog.Executor.Base.{Handler}
use of_watchdog.Metrics.Wrapping.{instrument_handler}
use of_watchdog.Watchdog.Start.{
  Middleware, Routes, make_jwt_auth_handler, routes, options, wrapped, authenticated, ◌>>=◌,
}

get_fn_name-ok :
    (o : Option String) (name : String) → get_fn_name o ≡ inl name → (o ≡ some name) × (name ≢ "")
unfolding get_fn_name
get_fn_name-ok none name h = cc
get_fn_name-ok (some n) name h = ground (arith, eq_iff n "")

wrapped-ok :
    {A : Type 0} (text : String) (m : A ⊎ Error) (a : A) → wrapped text m ≡ inl a → m ≡ inl a
wrapped-ok text (inl b) a h = h
wrapped-ok text (inr e) a h = cc

chain-ok :
    (text text' : String) (m n : String ⊎ Error) (f : String → String → Handler ⊎ Error)
    (g : Handler)
    → (wrapped text m >>= λ a. wrapped text' n >>= λ b. f a b) ≡ inl g
    → (a : String) × (b : String) × (m ≡ inl a) × (n ≡ inl b) × (f a b ≡ inl g)
chain-ok text text' (inl a) (inl b) f g h = (a, b, refl, refl, h)
chain-ok text text' (inl a) (inr e) f g h = cc
chain-ok text text' (inr e) n f g h = cc

module _ (mid : Middleware) (cfg : WatchdogConfig) (base : Handler) where
  abbrev pub limit : Handler → Handler
  limit h = if is_positive cfg.max_inflight then mid.limited cfg.max_inflight h else h

  routes-ok :
      (m : Handler ⊎ Error) (r : Routes)
      → authenticated mid cfg base ≡ m
      → routes mid cfg base ≡ inl r
      → (h : Handler) × (m ≡ inl h)
        × (r.root ≡ instrument_handler mid.promhttp (limit h))
        × (r.readiness_handler ≡ base)
  unfolding routes
  routes-ok (inl h) r e k = (h, refl, ground arith, ground arith)
  routes-ok (inr err) r e k = ground arith

  -- With JWT authentication on, what serves every path is a middleware that was made for the
  -- function's namespace and its name, which is not empty, around the function's handler, inside
  -- the limiter if there is one. What readiness asks is the function's handler itself, without the
  -- middleware and the limiter.
  pub routes-authenticated :
      (r : Routes)
      → cfg.jwt_authentication ≡ true
      → routes mid cfg base ≡ inl r
      → (namespace : String) × (name : String) × (guarded : Handler) × (name ≢ "")
        × (get_fn_namespace mid.openfaas_namespace mid.namespace_file ≡ inl namespace)
        × (mid.openfaas_name ≡ some name)
        × (mid.new_jwt_auth (options cfg namespace name) base ≡ inl guarded)
        × (r.root ≡ instrument_handler mid.promhttp (limit guarded))
        × (r.readiness_handler ≡ base)
  unfolding make_jwt_auth_handler
  routes-authenticated r on h =
      let (guarded, made, root, ready) = routes-ok _ r refl h in
      let made' : wrapped "error creating JWTAuthMiddleware: " (make_jwt_auth_handler mid cfg base)
          ≡ inl guarded =
        ground arith in
      let (namespace, name, m, n, new) =
        chain-ok _ _ (get_fn_namespace mid.openfaas_namespace mid.namespace_file)
          (get_fn_name mid.openfaas_name) (λ a b. mid.new_jwt_auth (options cfg a b) base) guarded
          (wrapped-ok _ _ guarded made') in
      let (set, given) = get_fn_name-ok mid.openfaas_name name n in
      (namespace, name, guarded, given, m, set, new, root, ready)
