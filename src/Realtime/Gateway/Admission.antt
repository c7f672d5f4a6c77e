-- ===== src/Realtime/Gateway/Admission.antt =====
-- `authenticate` of src/realtime/realtime.gateway.ts, where it admits a connection and evicts others, keeps the
-- listening ones registered.
use zudue_api.Base.{
  ℕ, ◌<◌, ◌≤◌, ◌==◌, ◌&&◌, Bool, sym, length, length-append_one, append_assoc, ◌≡◌, refl, ap, ◌∙◌,
  String, true, false, not, ◌||◌, some, List, [], ◌∷◌, ◌++◌, arith, nat_eq, holds, Bool-cases, inl,
  inr,
}
use zudue_api.Auth.{VerifiedToken}
use zudue_api.Realtime.Types.{RealtimeOptions, evicted, ready}
use zudue_api.Realtime.Socket.{SocketApi}
use zudue_api.Realtime.Gateway.{
  Gateway, modify, shut, close_each, members, all_conns, sockets_of, put_sockets, delete_conn,
}
use zudue_api.Realtime.Gateway.Delivery.{send_conn}
use zudue_api.Realtime.Gateway.Handshake.{evict, expiry, admit}
use zudue_api.Realtime.Gateway.Teardown.{listens, for_conns-listens, shut-listens, shut-listens_any}
use zudue_api.Realtime.Gateway.Bounds.{
  evict-splits, admit-by_user, length-evict, sockets_of-put_other, admit-sockets_of,
}
use zudue_api.Realtime.Gateway.Registry.{holds-append, holds-delete, holds-put, holds-put_other}
use zudue_api.Realtime.Gateway.Quiet.{IsQuiet, Hushes, modify-IsQuiet, for_conns-IsQuiet}
use zudue_api.Realtime.Gateway.Still.{send_conn-IsStill}
use zudue_api.Realtime.Gateway.Kept.{kept, silent_kept}

module _ (api : SocketApi) where
  -- Who is not evicted when `k` joins a user is still there.
  holds-admit :
      (j k most : ℕ) (u : String) (m : List (String × List ℕ))
      → holds j (evict api most (sockets_of api u m)).1 ≡ false
      → (nat_eq k j || holds j (members api m)) ≡ true
      → holds j
          (members api (put_sockets api u ((evict api most (sockets_of api u m)).0 ++ k ∷ []) m))
        ≡ true
  holds-admit j k most u m e h =
      let set = sockets_of api u m in
      let a = holds-append j (evict api most set).0 (k ∷ []) in
      let s = ap (holds j) (evict-splits api most set) in
      let b = holds-append j (evict api most set).1 (evict api most set).0 in
      elim (Bool-cases (nat_eq k j || holds j set)) [
        | inl i ↦ holds-put api j u ((evict api most set).0 ++ k ∷ []) m (ground arith)
        | inr i ↦
            holds-put_other api j u ((evict api most set).0 ++ k ∷ []) m (ground arith)
              (ground arith)
      ]

  -- The gateway of `admit` when it evicts.
  registered : RealtimeOptions → ℕ → VerifiedToken → ℕ → Gateway api → Gateway api
  registered o k v now g =
      modify api k
        (λ c. record c {
          auth_timer = false;
          user_id = some v.id;
          expires_at_ms = expiry api v now;
        })
        (record g { pending = delete_conn api k g.pending })

  evicting-IsQuiet :
      (o : RealtimeOptions) (ks : List ℕ) (g : Gateway api)
      → IsQuiet api g (close_each api evicted "too_many_connections" ks g)
  unfolding close_each Hushes
  evicting-IsQuiet o ks g =
      for_conns-IsQuiet api (shut api evicted "too_many_connections") ks g
        (λ c x. shut-listens api evicted "too_many_connections" c)

  evicting-listens :
      (j : ℕ) (ks : List ℕ) (g : Gateway api)
      → holds j ks ≡ true
      → listens api ((close_each api evicted "too_many_connections" ks g).conns j) ≡ false
  unfolding close_each
  evicting-listens j ks g m =
      for_conns-listens api (shut api evicted "too_many_connections") j ks g
        (λ c x. shut-listens api evicted "too_many_connections" c)
        (shut-listens_any api evicted "too_many_connections" (g.conns j)) m

  registered-stays :
      (j : ℕ) (o : RealtimeOptions) (k : ℕ) (v : VerifiedToken) (now : ℕ) (g : Gateway api)
      → listens api (g.conns j) ≡ false
      → listens api ((registered o k v now g).conns j) ≡ false
  unfolding registered Hushes listens
  registered-stays j o k v now g h =
      (modify-IsQuiet api
          (λ c. record c {
            auth_timer = false;
            user_id = some v.id;
            expires_at_ms = expiry api v now;
          })
          k (record g { pending = delete_conn api k g.pending }) (λ c x. x)).stays
        j h

  admit-listens :
      (j : ℕ) (o : RealtimeOptions) (k : ℕ) (v : VerifiedToken) (now : ℕ) (g : Gateway api)
      → (not (listens api (g.conns j))
          || holds j (evict api o.max_per_user (sockets_of api v.id g.by_user)).1)
        ≡ true
      → listens api ((admit api o k v now g).conns j) ≡ false
  unfolding admit registered
  admit-listens j o k v now g h =
      let ks = (evict api o.max_per_user (sockets_of api v.id g.by_user)).1 in
      let g' = registered o k v now g in
      let g'' = close_each api evicted "too_many_connections" ks g' in
      let q = evicting-IsQuiet o ks g' in
      let sent = send_conn-IsStill api o (ready o.ping_interval_ms) k (record g'' {
        by_user =
            put_sockets api v.id
              ((evict api o.max_per_user (sockets_of api v.id g.by_user)).0 ++ k ∷ []) g''.by_user;
      }) in
      elim (Bool-cases (holds j ks)) [
        | inl m ↦ sent.quiet.stays j (evicting-listens j ks g' m)
        | inr m ↦ sent.quiet.stays j (q.stays j (registered-stays j o k v now g (ground arith)))
      ]

  and_none : (a b : Bool) → (a ≡ true → b ≡ false) → (a && b) ≡ false
  and_none true b f = f refl
  and_none false b f = refl

  -- Admitting a verified user, where `max_per_user` is not 0, leaves at most that many sockets registered for
  -- the user: those of before and then the new one, less the oldest, which were evicted. An evicted socket
  -- listens no more. The sockets of another user stay as they were.
  pub admit-bounded :
      (o : RealtimeOptions) (k : ℕ) (v : VerifiedToken) (now : ℕ) (u : String) (j : ℕ)
      (g : Gateway api)
      → 0 < o.max_per_user
      → (v.id == u) ≡ false
      → length (sockets_of api v.id (admit api o k v now g).by_user) ≤ o.max_per_user
        × (evict api o.max_per_user (sockets_of api v.id g.by_user)).1
            ++ sockets_of api v.id (admit api o k v now g).by_user
          ≡ sockets_of api v.id g.by_user ++ k ∷ []
        × (holds j (evict api o.max_per_user (sockets_of api v.id g.by_user)).1
            && listens api ((admit api o k v now g).conns j))
          ≡ false
        × sockets_of api u (admit api o k v now g).by_user ≡ sockets_of api u g.by_user
  admit-bounded o k v now u j g h n =
      let set = sockets_of api v.id g.by_user in
      let kept = evict api o.max_per_user set in
      let after = admit-sockets_of api o k v now g in
      (
        rw (after, length-append_one kept.0 k) (length-evict api o.max_per_user set h),
        rw (after) (
            sym (append_assoc kept.1 kept.0 (k ∷ []))
            ∙ ap (λ l. l ++ k ∷ []) (evict-splits api o.max_per_user set)),
        and_none (holds j kept.1) _
            (λ e. admit-listens j o k v now g (or_last (not (listens api (g.conns j))) _ e)),
        ap (sockets_of api u) (admit-by_user api o k v now g)
            ∙ sockets_of-put_other api v.id u (kept.0 ++ k ∷ []) g.by_user n,
      )
    where
      or_last : (a b : Bool) → b ≡ true → (a || b) ≡ true
      or_last a b e = ground arith

  admit-pending :
      (o : RealtimeOptions) (k : ℕ) (v : VerifiedToken) (now : ℕ) (g : Gateway api)
      → (admit api o k v now g).pending ≡ delete_conn api k g.pending
  unfolding admit registered send_conn modify
  admit-pending o k v now g =
      (evicting-IsQuiet o (evict api o.max_per_user (sockets_of api v.id g.by_user)).1
        (registered o k v now g)).same_pending

  admit-healthy :
      (o : RealtimeOptions) (k : ℕ) (v : VerifiedToken) (now : ℕ) (g : Gateway api)
      → (admit api o k v now g).healthy ≡ g.healthy
  unfolding admit registered send_conn modify
  admit-healthy o k v now g =
      (evicting-IsQuiet o (evict api o.max_per_user (sockets_of api v.id g.by_user)).1
        (registered o k v now g)).same_health

  admit-holds :
      (j : ℕ) (o : RealtimeOptions) (k : ℕ) (v : VerifiedToken) (now : ℕ) (g : Gateway api)
      → holds j (evict api o.max_per_user (sockets_of api v.id g.by_user)).1 ≡ false
      → holds j (all_conns api g) ≡ true
      → holds j (all_conns api (admit api o k v now g)) ≡ true
  unfolding all_conns
  admit-holds j o k v now g e h =
      let m' =
        put_sockets api v.id
          ((evict api o.max_per_user (sockets_of api v.id g.by_user)).0 ++ k ∷ []) g.by_user in
      let a = holds-append j g.pending (members api g.by_user) in
      let b =
        ap (λ xs. holds j (xs ++ members api (admit api o k v now g).by_user))
          (admit-pending o k v now g)
        ∙ ap (λ m. holds j (delete_conn api k g.pending ++ members api m))
            (admit-by_user api o k v now g)
        ∙ holds-append j (delete_conn api k g.pending) (members api m') in
      elim (Bool-cases (nat_eq k j || holds j (members api g.by_user))) [
        | inl i ↦ let p = holds-admit j k o.max_per_user v.id g.by_user e i in b ∙ ground arith
        | inr i ↦ let p = holds-delete api j k g.pending (ground arith) in b ∙ ground arith
      ]

  pub admit-kept :
      (j : ℕ) (o : RealtimeOptions) (k : ℕ) (v : VerifiedToken) (now : ℕ) (g : Gateway api)
      → g.healthy ≡ true
      → kept api j g ≡ true
      → kept api j (admit api o k v now g) ≡ true
  unfolding kept
  admit-kept j o k v now g e h =
      elim (Bool-cases (
        not (listens api (g.conns j))
        || holds j (evict api o.max_per_user (sockets_of api v.id g.by_user)).1)) [
          | inl s ↦ silent_kept api j (admit api o k v now g) (admit-listens j o k v now g s)
          | inr s ↦
              let p = admit-holds j o k v now g (ground arith) (ground arith) in
              let q = admit-healthy o k v now g in ground arith
        ]
