-- ===== src/Realtime/Gateway/Bounds.antt =====
-- What `RealtimeGateway` of src/realtime/realtime.gateway.ts keeps bounded, and for whom it routes.
use zudue_api.Base.{
  length-append_one, ℕ, ◌+◌, ◌≤◌, ◌<◌, ◌≡◌, refl, ap, ◌∙◌, String, Bool, true, false, Option, none,
  some, List, [], ◌∷◌, ◌++◌, arith, nat_eq, length, holds, ◌==◌, ◌||◌, Bool-cases, inl, inr,
  eq_refl, eq_iff,
}
use zudue_api.Auth.{VerifiedToken}
use zudue_api.Realtime.Types.{CallChangedEvent, RealtimeOptions, ServerMessage, call_changed}
use zudue_api.Realtime.Socket.{SocketApi}
use zudue_api.Realtime.Gateway.{
  Conn, Gateway, modify, for_conns, close_each, sockets_of, put_sockets,
}
use zudue_api.Realtime.Gateway.Delivery.{
  send_conn, deliver_one, deliver_each, deliver_users, parties_of, route,
}
use zudue_api.Realtime.Gateway.Handshake.{
  evict, admit, on_upgrade, upgrade_answer, handshake, on_connection, upgraded,
}

module _ (api : SocketApi) where
  open api use {Ws}

  pub evict-splits : (most : ℕ) (ks : List ℕ) → (evict api most ks).1 ++ (evict api most ks).0 ≡ ks
  unfolding evict
  evict-splits most [] = refl
  evict-splits most (k ∷ ks) = let ih = evict-splits most ks in ground arith

  pub length-evict : (most : ℕ) (ks : List ℕ) → 0 < most → length (evict api most ks).0 < most
  unfolding evict
  length-evict most [] h = h
  length-evict most (k ∷ ks) h = let ih = length-evict most ks h in ground arith

  sockets_of-put :
      (u : String) (set : List ℕ) (m : List (String × List ℕ))
      → sockets_of api u (put_sockets api u set m) ≡ set
  unfolding sockets_of put_sockets
  sockets_of-put u set [] = rw (eq_refl u) refl
  sockets_of-put u set ((v, old) ∷ m) = let ih = sockets_of-put u set m in ground arith

  pub sockets_of-put_other :
      (u v : String) (set : List ℕ) (m : List (String × List ℕ))
      → (u == v) ≡ false
      → sockets_of api v (put_sockets api u set m) ≡ sockets_of api v m
  unfolding sockets_of put_sockets
  sockets_of-put_other u v set [] h = rw (h) refl
  sockets_of-put_other u v set ((w, old) ∷ m) h = elim (Bool-cases (w == u)) [
    | inl e ↦ let n = ap (λ x. x == v) ((eq_iff w u).0 e) ∙ h in ground arith
    | inr e ↦ let ih = sockets_of-put_other u v set m h in ground arith
  ]

  for_conns-by_user :
      (f : Conn api → Conn api) (ks : List ℕ) (g : Gateway api)
      → (for_conns api f ks g).by_user ≡ g.by_user
  unfolding for_conns modify
  for_conns-by_user f [] g = refl
  for_conns-by_user f (k ∷ ks) g = for_conns-by_user f ks (modify api k f g)

  pub deliver_one-conns :
      (o : RealtimeOptions) (msg : ServerMessage) (j k : ℕ) (g : Gateway api)
      → nat_eq k j ≡ false
      → (deliver_one api o msg k g).conns j ≡ g.conns j
  unfolding deliver_one send_conn modify
  deliver_one-conns o msg j k g h = rw (h) refl

  pub deliver_each-conns :
      (o : RealtimeOptions) (msg : ServerMessage) (j : ℕ) (ks : List ℕ) (g : Gateway api)
      → holds j ks ≡ false
      → (deliver_each api o msg ks g).conns j ≡ g.conns j
  unfolding deliver_each
  deliver_each-conns o msg j [] g h = refl
  deliver_each-conns o msg j (k ∷ ks) g h =
      deliver_each-conns o msg j ks (deliver_one api o msg k g) (ground arith)
      ∙ deliver_one-conns o msg j k g (ground arith)

  pub deliver_each-by_user :
      (o : RealtimeOptions) (msg : ServerMessage) (ks : List ℕ) (g : Gateway api)
      → (deliver_each api o msg ks g).by_user ≡ g.by_user
  unfolding deliver_each deliver_one send_conn modify
  deliver_each-by_user o msg [] g = refl
  deliver_each-by_user o msg (k ∷ ks) g = deliver_each-by_user o msg ks (deliver_one api o msg k g)

  -- Whether a connection is registered for one of these users.
  unfoldable pub reaches : ℕ → List String → List (String × List ℕ) → Bool
  unfolding sockets_of
  reaches j [] m = false
  reaches j (u ∷ us) m = holds j (sockets_of api u m) || reaches j us m

  deliver_users-conns :
      (o : RealtimeOptions) (msg : ServerMessage) (j : ℕ) (us : List String) (g : Gateway api)
      → reaches j us g.by_user ≡ false
      → (deliver_users api o msg us g).conns j ≡ g.conns j
  unfolding deliver_users reaches
  deliver_users-conns o msg j [] g h = refl
  deliver_users-conns o msg j (u ∷ us) g h =
      let ks = sockets_of api u g.by_user in
      deliver_users-conns o msg j us (deliver_each api o msg ks g)
        (ap (reaches j us) (deliver_each-by_user o msg ks g) ∙ ground arith)
      ∙ deliver_each-conns o msg j ks g (ground arith)

  -- An event reaches no connection but those registered for the fan or for the partner whom it names: any
  -- other is the same before and after `route`.
  route-conns :
      (o : RealtimeOptions) (e : CallChangedEvent) (j : ℕ) (g : Gateway api)
      → holds j (sockets_of api e.fan_id g.by_user) ≡ false
      → holds j (sockets_of api e.partner_id g.by_user) ≡ false
      → (route api o e g).conns j ≡ g.conns j
  unfolding route parties_of reaches
  route-conns o e j g f p =
      deliver_users-conns o (call_changed e.message) j (parties_of api e)
        (record g { events_in = g.events_in + 1 }) (ground arith)

  pub admit-by_user :
      (o : RealtimeOptions) (k : ℕ) (v : VerifiedToken) (now : ℕ) (g : Gateway api)
      → (admit api o k v now g).by_user
        ≡ put_sockets api v.id
            ((evict api o.max_per_user (sockets_of api v.id g.by_user)).0 ++ k ∷ [])
            g.by_user
  unfolding admit send_conn modify close_each
  admit-by_user o k v now g =
      ap
        (put_sockets api v.id
          ((evict api o.max_per_user (sockets_of api v.id g.by_user)).0 ++ k ∷ []))
        (for_conns-by_user _ (evict api o.max_per_user (sockets_of api v.id g.by_user)).1 _)

  pub admit-sockets_of :
      (o : RealtimeOptions) (k : ℕ) (v : VerifiedToken) (now : ℕ) (g : Gateway api)
      → sockets_of api v.id (admit api o k v now g).by_user
        ≡ (evict api o.max_per_user (sockets_of api v.id g.by_user)).0 ++ k ∷ []
  admit-sockets_of o k v now g =
      ap (sockets_of api v.id) (admit-by_user o k v now g) ∙ sockets_of-put v.id _ g.by_user

  -- The number of connections that are not yet authenticated never passes `max_pending`, and a request is
  -- upgraded only while the gateway is enabled and its source is healthy.
  on_upgrade-pending :
      (o : RealtimeOptions) (path : String) (ws : Option Ws) (now : ℕ) (g : Gateway api)
      → length g.pending ≤ o.max_pending
      → length (on_upgrade api o path ws now g).1.pending ≤ o.max_pending
        × ((on_upgrade api o path ws now g).0 ≡ upgraded → g.enabled ≡ true × g.healthy ≡ true)
  unfolding on_upgrade upgrade_answer handshake on_connection
  on_upgrade-pending o path none now g h = ground arith
  on_upgrade-pending o path (some ws) now g h =
      let l = length-append_one g.pending g.next in ground arith
