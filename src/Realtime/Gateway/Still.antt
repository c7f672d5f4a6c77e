-- ===== src/Realtime/Gateway/Still.antt =====
-- The changes by which `RealtimeGateway` of src/realtime/realtime.gateway.ts only sends, closes and keeps times:
-- they are quiet, and no connection changes its user or begins or ends to be verified.
use zudue_api.Base.{
  ℕ, ◌+◌, ◌≡◌, refl, ◌∙◌, String, Option, none, some, List, [], ◌∷◌, arith, nat_eq, Bool,
  Bool-cases, inl, inr,
}
use zudue_api.Realtime.Types.{CloseCode, CallChangedEvent, ServerMessage, RealtimeOptions}
use zudue_api.Realtime.Socket.{SocketApi}
use zudue_api.Realtime.Gateway.{
  Conn, Gateway, modify, shut, close_conn, for_conns, members, on_conn,
}
use zudue_api.Realtime.Gateway.Delivery.{
  send_ws, send_conn, on_send_error, deliver_one, deliver_each, deliver_users, route, send_each,
  broadcast, tick, tick_conn,
}
use zudue_api.Realtime.Gateway.Teardown.{listens, shut-listens, tick_conn-listens}
use zudue_api.Realtime.Gateway.Quiet.{IsQuiet, IsQuiet-refl, IsQuiet-trans, Hushes, modify-IsQuiet}

module _ (api : SocketApi) where
  -- Whose connection it is, and whether its token is being verified.
  unfoldable pub facts : Option (Conn api) → Option (Option String × Bool)
  facts none = none
  facts (some c) = some (c.user_id, c.verifying)

  pub record IsStill (g g' : Gateway api) : Type 0 where
    pub quiet : IsQuiet api g g'
    pub same_next : g'.next ≡ g.next
    pub same_facts : (j : ℕ) → facts (g'.conns j) ≡ facts (g.conns j)

  IsStill-refl : (g : Gateway api) → IsStill g g
  IsStill-refl g = record { quiet = IsQuiet-refl api g; same_next = refl; same_facts = λ j. refl }

  pub IsStill-trans : (g g' g'' : Gateway api) → IsStill g g' → IsStill g' g'' → IsStill g g''
  IsStill-trans g g' g'' p q = record {
    quiet = IsQuiet-trans api g g' g'' p.quiet q.quiet;
    same_next = q.same_next ∙ p.same_next;
    same_facts = λ j. q.same_facts j ∙ p.same_facts j;
  }

  -- A change of a connection that keeps its user.
  unfoldable pub Calms : (Conn api → Conn api) → Type 0
  Calms f = Hushes api f × ((c : Conn api) → facts (some (f c)) ≡ facts (some c))

  on_conn-facts :
      (f : Conn api → Conn api) (o : Option (Conn api))
      → ((c : Conn api) → facts (some (f c)) ≡ facts (some c))
      → facts (on_conn api f o) ≡ facts o
  unfolding on_conn facts
  on_conn-facts f none s = refl
  on_conn-facts f (some c) s = s c

  modify-facts :
      (f : Conn api → Conn api) (k : ℕ) (g : Gateway api) (j : ℕ)
      → ((c : Conn api) → facts (some (f c)) ≡ facts (some c))
      → facts ((modify api k f g).conns j) ≡ facts (g.conns j)
  unfolding modify
  modify-facts f k g j s = elim (Bool-cases (nat_eq k j)) [
    | inl e ↦ rw (e) (on_conn-facts f (g.conns j) s)
    | inr e ↦ rw (e) refl
  ]

  pub modify-IsStill :
      (f : Conn api → Conn api) (k : ℕ) (g : Gateway api) → Calms f → IsStill g (modify api k f g)
  unfolding modify Calms
  modify-IsStill f k g s = record {
    quiet = modify-IsQuiet api f k g s.0;
    same_next = refl;
    same_facts = λ j. modify-facts f k g j s.1;
  }

  pub for_conns-IsStill :
      (f : Conn api → Conn api) (ks : List ℕ) (g : Gateway api)
      → Calms f
      → IsStill g (for_conns api f ks g)
  unfolding for_conns
  for_conns-IsStill f [] g s = IsStill-refl g
  for_conns-IsStill f (k ∷ ks) g s =
      IsStill-trans g (modify api k f g) _ (modify-IsStill f k g s)
        (for_conns-IsStill f ks (modify api k f g) s)

  pub shut-Calms : (code : CloseCode) (reason : String) → Calms (shut api code reason)
  unfolding Calms Hushes facts shut
  shut-Calms code reason = (λ c h. shut-listens api code reason c, λ c. ground arith)

  pub close_conn-IsStill :
      (code : CloseCode) (reason : String) (k : ℕ) (g : Gateway api)
      → IsStill g (close_conn api code reason k g)
  unfolding close_conn
  close_conn-IsStill code reason k g =
      modify-IsStill (shut api code reason) k g (shut-Calms code reason)

  send_ws-Calms :
      (o : RealtimeOptions) (msg : ServerMessage)
      → Calms (λ c. record c { ws = (send_ws api o msg c.ws).0 })
  unfolding Calms Hushes send_ws listens facts
  send_ws-Calms o msg = (λ c h. let t = api.terminate-is_open c.ws in ground arith, λ c. refl)

  pub send_conn-IsStill :
      (o : RealtimeOptions) (msg : ServerMessage) (k : ℕ) (g : Gateway api)
      → IsStill g (send_conn api o msg k g).0
  unfolding send_conn
  send_conn-IsStill o msg k g = modify-IsStill _ k g (send_ws-Calms o msg)

  pub on_send_error-IsStill : (k : ℕ) (g : Gateway api) → IsStill g (on_send_error api k g)
  unfolding on_send_error Calms Hushes listens facts
  on_send_error-IsStill k g =
      modify-IsStill (λ c. record c { ws = api.terminate c.ws }) k g
        (λ c h. let t = api.terminate-is_open c.ws in ground arith, λ c. refl)

  deliver_one-IsStill :
      (o : RealtimeOptions) (msg : ServerMessage) (k : ℕ) (g : Gateway api)
      → IsStill g (deliver_one api o msg k g)
  unfolding deliver_one
  deliver_one-IsStill o msg k g =
      let q = send_conn-IsStill o msg k g in
      record {
        quiet = record {
          same_pending = q.quiet.same_pending;
          same_users = q.quiet.same_users;
          same_health = q.quiet.same_health;
          stays = q.quiet.stays;
        };
        same_next = q.same_next;
        same_facts = q.same_facts;
      }

  deliver_each-IsStill :
      (o : RealtimeOptions) (msg : ServerMessage) (ks : List ℕ) (g : Gateway api)
      → IsStill g (deliver_each api o msg ks g)
  unfolding deliver_each
  deliver_each-IsStill o msg [] g = IsStill-refl g
  deliver_each-IsStill o msg (k ∷ ks) g =
      IsStill-trans g (deliver_one api o msg k g) _ (deliver_one-IsStill o msg k g)
        (deliver_each-IsStill o msg ks (deliver_one api o msg k g))

  deliver_users-IsStill :
      (o : RealtimeOptions) (msg : ServerMessage) (us : List String) (g : Gateway api)
      → IsStill g (deliver_users api o msg us g)
  unfolding deliver_users
  deliver_users-IsStill o msg [] g = IsStill-refl g
  deliver_users-IsStill o msg (u ∷ us) g =
      IsStill-trans g _ _ (deliver_each-IsStill o msg _ g) (deliver_users-IsStill o msg us _)

  pub route-IsStill :
      (o : RealtimeOptions) (e : CallChangedEvent) (g : Gateway api) → IsStill g (route api o e g)
  unfolding route
  route-IsStill o e g =
      let q = deliver_users-IsStill o _ _ (record g { events_in = g.events_in + 1 }) in
      record {
        quiet = record {
          same_pending = q.quiet.same_pending;
          same_users = q.quiet.same_users;
          same_health = q.quiet.same_health;
          stays = q.quiet.stays;
        };
        same_next = q.same_next;
        same_facts = q.same_facts;
      }

  send_each-IsStill :
      (o : RealtimeOptions) (msg : ServerMessage) (ks : List ℕ) (g : Gateway api)
      → IsStill g (send_each api o msg ks g)
  unfolding send_each
  send_each-IsStill o msg [] g = IsStill-refl g
  send_each-IsStill o msg (k ∷ ks) g =
      IsStill-trans g (send_conn api o msg k g).0 _ (send_conn-IsStill o msg k g)
        (send_each-IsStill o msg ks (send_conn api o msg k g).0)

  pub broadcast-IsStill :
      (o : RealtimeOptions) (msg : ServerMessage) (g : Gateway api)
      → IsStill g (broadcast api o msg g)
  unfolding broadcast
  broadcast-IsStill o msg g = send_each-IsStill o msg (members api g.by_user) g

  tick_conn-facts :
      (o : RealtimeOptions) (now : ℕ) (c : Conn api)
      → facts (some (tick_conn api o now c)) ≡ facts (some c)
  unfolding tick_conn shut facts
  tick_conn-facts o now c = ground arith

  pub tick-IsStill :
      (o : RealtimeOptions) (now : ℕ) (g : Gateway api) → IsStill g (tick api o now g)
  unfolding tick Calms Hushes
  tick-IsStill o now g =
      for_conns-IsStill (tick_conn api o now) (members api g.by_user) g
        (tick_conn-listens api o now, tick_conn-facts o now)
