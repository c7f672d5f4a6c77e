-- ===== src/Realtime/Gateway/Fanout.antt =====
-- What `route` of src/realtime/realtime.gateway.ts does to each connection, over every run of the gateway.
use zudue_api.Base.{
  ℕ, ◌+◌, ◌≡◌, sym, ap, ◌∙◌, String, Bool, true, false, not, ◌||◌, Option, none, some, List, [],
  ◌∷◌, arith, nat_eq, holds, ◌==◌, eq_iff, Bool-cases, inl, inr, eq_refl, if◌then◌else◌,
}
use zudue_api.Auth.{JoseResult}
use zudue_api.Realtime.Types.{RealtimeOptions, CallChangedEvent, ServerMessage, call_changed}
use zudue_api.Realtime.Socket.{SocketApi}
use zudue_api.Realtime.Gateway.{Conn, Gateway, on_conn, sockets_of, user_of}
use zudue_api.Realtime.Gateway.Delivery.{
  send_ws, send_conn, deliver_one, deliver_each, deliver_users, parties_of, route,
}
use zudue_api.Realtime.Gateway.Teardown.{modify_self}
use zudue_api.Realtime.Gateway.Still.{facts}
use zudue_api.Realtime.Gateway.Entries.{nodup, entry_holds-sockets_of, nodup-sockets_of}
use zudue_api.Realtime.Gateway.Bounds.{deliver_one-conns, deliver_each-conns, deliver_each-by_user}
use zudue_api.Realtime.Gateway.Sound.{IsSound}
use zudue_api.Realtime.Gateway.Events.{new_gateway}
use zudue_api.Realtime.Gateway.Run.{Reach, Reach-IsSound}

module _ (api : SocketApi) where
  -- A connection to which one frame was handed.
  unfoldable pub handed : RealtimeOptions → ServerMessage → Conn api → Conn api
  unfolding send_ws
  handed o msg c = record c { ws = (send_ws api o msg c.ws).0 }

  -- Whether a connection is registered for a party of the call.
  unfoldable pub concerns : CallChangedEvent → ℕ → Gateway api → Bool
  unfolding sockets_of
  concerns e j g =
      holds j (sockets_of api e.fan_id g.by_user) || holds j (sockets_of api e.partner_id g.by_user)

  -- The connections after an event, each by itself: one frame for those of the parties.
  unfoldable pub told : RealtimeOptions → CallChangedEvent → Gateway api → ℕ → Option (Conn api)
  unfolding handed concerns
  told o e g j =
      if concerns e j g
      then on_conn api (handed o (call_changed e.message)) (g.conns j)
      else g.conns j

  deliver_one_self :
      (o : RealtimeOptions) (msg : ServerMessage) (j k : ℕ) (g : Gateway api)
      → nat_eq k j ≡ true
      → (deliver_one api o msg k g).conns j ≡ on_conn api (handed o msg) (g.conns j)
  unfolding deliver_one send_conn handed
  deliver_one_self o msg j k g e = modify_self api (handed o msg) j k g e

  -- A list that names no connection twice hands the frame to each of its own.
  deliver_each-told :
      (o : RealtimeOptions) (msg : ServerMessage) (j : ℕ) (ks : List ℕ) (g : Gateway api)
      → nodup ks ≡ true
      → holds j ks ≡ true
      → (deliver_each api o msg ks g).conns j ≡ on_conn api (handed o msg) (g.conns j)
  unfolding deliver_each
  deliver_each-told o msg j [] g n h = ground arith
  deliver_each-told o msg j (k ∷ ks) g n h =
      let g' = deliver_one api o msg k g in
      elim (Bool-cases (nat_eq k j)) [
        | inl e ↦
            let same : k ≡ j = ground arith in
            let once = ap (λ i. holds i ks) same in
            deliver_each-conns api o msg j ks g' (ground arith) ∙ deliver_one_self o msg j k g e
        | inr e ↦
            deliver_each-told o msg j ks g' (ground arith) (ground arith)
            ∙ ap (on_conn api (handed o msg)) (deliver_one-conns api o msg j k g e)
      ]

  -- Nobody is registered for two users.
  one_user :
      (u v : String) (j : ℕ) (g : Gateway api)
      → IsSound api g
      → (u == v) ≡ false
      → holds j (sockets_of api u g.by_user) ≡ true
      → holds j (sockets_of api v g.by_user) ≡ false
  one_user u v j g s n h = elim (Bool-cases (holds j (sockets_of api v g.by_user))) [
    | inl i ↦
        let a = (s.own u j (entry_holds-sockets_of api u j g.by_user h)).0 in
        let b = (s.own v j (entry_holds-sockets_of api v j g.by_user i)).0 in
        let same = sym a ∙ b in
        let equal : u ≡ v = cc in let m = (eq_iff u v).1 equal in ground arith
    | inr i ↦ i
  ]

  sockets_of-nodup :
      (u : String) (g : Gateway api) → IsSound api g → nodup (sockets_of api u g.by_user) ≡ true
  sockets_of-nodup u g s = nodup-sockets_of api u g.by_user s.once

  -- The sockets of one user hear an event once, and no others do.
  deliver_user-told :
      (o : RealtimeOptions) (msg : ServerMessage) (u : String) (j : ℕ) (g g' : Gateway api)
      → IsSound api g
      → (deliver_each api o msg (sockets_of api u g.by_user) g').conns j ≡ (
          if holds j (sockets_of api u g.by_user)
          then on_conn api (handed o msg) (g'.conns j)
          else g'.conns j)
  deliver_user-told o msg u j g g' s = elim (Bool-cases (holds j (sockets_of api u g.by_user))) [
    | inl h ↦ rw (h) (deliver_each-told o msg j _ g' (sockets_of-nodup u g s) h)
    | inr h ↦ rw (h) (deliver_each-conns api o msg j _ g' h)
  ]

  route-told_sound :
      (o : RealtimeOptions) (e : CallChangedEvent) (j : ℕ) (g : Gateway api)
      → IsSound api g
      → (route api o e g).conns j ≡ told o e g j
  unfolding route parties_of deliver_users told concerns
  route-told_sound o e j g s =
      let msg = call_changed e.message in
      let g' = record g { events_in = g.events_in + 1 } in
      let fan = sockets_of api e.fan_id g.by_user in
      let partner = sockets_of api e.partner_id g.by_user in
      let one = deliver_user-told o msg e.fan_id j g g' s in
      elim (Bool-cases (e.fan_id == e.partner_id)) [
        | inl p ↦
            let same =
              ap (λ u. holds j (sockets_of api u g.by_user)) ((eq_iff e.fan_id e.partner_id).0 p) in
            rw (p) (one ∙ ground arith)
        | inr p ↦
            let two =
              ap
                (λ m.
                  (deliver_each api o msg (sockets_of api e.partner_id m)
                      (deliver_each api o msg fan g')).conns
                    j)
                (deliver_each-by_user api o msg fan g')
              ∙ deliver_user-told o msg e.partner_id j g (deliver_each api o msg fan g') s in
            elim (Bool-cases (holds j fan)) [
              | inl f ↦ let n = one_user e.fan_id e.partner_id j g s p f in rw (p) ground arith
              | inr f ↦ rw (p) ground arith
            ]
      ]

  -- Whether a connection is authenticated as the user.
  unfoldable pub is_of : String → Option (Conn api) → Bool
  unfolding user_of
  is_of u c = elim (user_of api c) [ none ↦ false | some v ↦ v == u ]

  facts-is_of :
      (c : Option (Conn api)) (u : String) → facts api c ≡ some (some u, false) → is_of u c ≡ true
  unfolding facts is_of user_of
  facts-is_of none u h = cc
  facts-is_of (some c) u h = let e = eq_refl u in ground arith

  concerns-is_of :
      (e : CallChangedEvent) (j : ℕ) (g : Gateway api)
      → IsSound api g
      → (not (concerns e j g) || is_of e.fan_id (g.conns j) || is_of e.partner_id (g.conns j))
        ≡ true
  unfolding concerns
  concerns-is_of e j g s =
      let own : (u : String)
          → holds j (sockets_of api u g.by_user) ≡ true
          → is_of u (g.conns j) ≡ true =
        λ u i.
          facts-is_of (g.conns j) u (s.own u j (entry_holds-sockets_of api u j g.by_user i)).0 in
      elim (Bool-cases (holds j (sockets_of api e.fan_id g.by_user))) [
        | inl f ↦ let x = own e.fan_id f in ground arith
        | inr f ↦ elim (Bool-cases (holds j (sockets_of api e.partner_id g.by_user))) [
          | inl p ↦ let x = own e.partner_id p in ground arith
          | inr p ↦ ground arith
        ]
      ]

  -- In every state that the gateway can reach from its start, with whatever verifier and whatever order of
  -- callbacks, an event changes each connection as if it were alone: one that is registered for the fan or the
  -- partner is handed the frame exactly once, also where the two are the same user, and any other is as before.
  -- One that is registered for a party is authenticated as the fan or as the partner.
  pub route-told :
      (o : RealtimeOptions) (jwt_verify : String → JoseResult) (enabled : Bool) (g : Gateway api)
      → Reach api o jwt_verify (new_gateway api enabled) g
      → (e : CallChangedEvent) (j : ℕ)
      → ((route api o e g).conns j ≡ told o e g j)
        × ((not (concerns e j g) || is_of e.fan_id (g.conns j) || is_of e.partner_id (g.conns j))
            ≡ true)
  route-told o jwt_verify enabled g r e j =
      let s = Reach-IsSound api enabled r in (route-told_sound o e j g s, concerns-is_of e j g s)
