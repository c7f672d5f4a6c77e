-- ===== src/Realtime/Gateway/Teardown.antt =====
-- Which connections `RealtimeGateway` of src/realtime/realtime.gateway.ts still listens to once it has closed
-- them.
use zudue_api.Base.{
  ℕ, ◌≡◌, refl, String, Bool, true, false, not, ◌&&◌, ◌||◌, Option, none, some, List, [], ◌∷◌,
  arith, nat_eq, Bool-cases, inl, inr, or_else, leb, ltb, holds, ◌*◌, ◌-◌,
}
use zudue_api.Realtime.Types.{CloseCode, unavailable, unauthorized, close_code, RealtimeOptions}
use zudue_api.Realtime.Socket.{SocketApi}
use zudue_api.Realtime.Gateway.{
  Conn, Gateway, modify, on_conn, shut, close_each, for_conns, members, all_conns, close_all,
}
use zudue_api.Realtime.Gateway.Delivery.{on_health, send_ws, tick_conn, tick}

module _ (api : SocketApi) where
  open api use {Ws, is_open, close, terminate, close-is_open, terminate-is_open}

  -- Whether a connection is still one that frames are handed to.
  unfoldable pub listens : Option (Conn api) → Bool
  listens none = false
  listens (some c) = not c.closed && is_open c.ws

  closed-is_open :
      (r : Option Ws) (w : Ws) (c : ℕ) (s : String)
      → close c s w ≡ r
      → is_open (or_else r (terminate w)) ≡ false
  closed-is_open none w c s e = terminate-is_open w
  closed-is_open (some w') w c s e = close-is_open c s w w' e

  pub shut-listens :
      (code : CloseCode) (reason : String) (c : Conn api)
      → listens (some (shut api code reason c)) ≡ false
  unfolding listens shut
  shut-listens code reason c = elim (Bool-cases c.closed) [
    | inl h ↦ rw (h) refl
    | inr h ↦ rw (h) (
        closed-is_open (close (close_code code) (api.slice reason 0 100) c.ws) c.ws
          (close_code code) (api.slice reason 0 100) refl)
  ]

  on_conn-listens :
      (f : Conn api → Conn api) (o : Option (Conn api))
      → ((c : Conn api) → listens (some c) ≡ false → listens (some (f c)) ≡ false)
      → listens o ≡ false
      → listens (on_conn api f o) ≡ false
  unfolding on_conn listens
  on_conn-listens f none s h = refl
  on_conn-listens f (some c) s h = s c h

  pub modify-listens :
      (f : Conn api → Conn api) (j k : ℕ) (g : Gateway api)
      → ((c : Conn api) → listens (some c) ≡ false → listens (some (f c)) ≡ false)
      → listens (g.conns j) ≡ false
      → listens ((modify api k f g).conns j) ≡ false
  unfolding modify
  modify-listens f j k g s h = elim (Bool-cases (nat_eq k j)) [
    | inl e ↦ rw (e) (on_conn-listens f (g.conns j) s h)
    | inr e ↦ rw (e) h
  ]

  for_conns-listens_kept :
      (f : Conn api → Conn api) (j : ℕ) (ks : List ℕ) (g : Gateway api)
      → ((c : Conn api) → listens (some c) ≡ false → listens (some (f c)) ≡ false)
      → listens (g.conns j) ≡ false
      → listens ((for_conns api f ks g).conns j) ≡ false
  unfolding for_conns
  for_conns-listens_kept f j [] g s h = h
  for_conns-listens_kept f j (k ∷ ks) g s h =
      for_conns-listens_kept f j ks (modify api k f g) s (modify-listens f j k g s h)

  pub modify_self :
      (f : Conn api → Conn api) (j k : ℕ) (g : Gateway api)
      → nat_eq k j ≡ true
      → (modify api k f g).conns j ≡ on_conn api f (g.conns j)
  unfolding modify
  modify_self f j k g e = rw (e) refl

  pub modify_other :
      (f : Conn api → Conn api) (j k : ℕ) (g : Gateway api)
      → nat_eq k j ≡ false
      → (modify api k f g).conns j ≡ g.conns j
  unfolding modify
  modify_other f j k g e = rw (e) refl

  pub for_conns-listens :
      (f : Conn api → Conn api) (j : ℕ) (ks : List ℕ) (g : Gateway api)
      → ((c : Conn api) → listens (some c) ≡ false → listens (some (f c)) ≡ false)
      → listens (on_conn api f (g.conns j)) ≡ false
      → holds j ks ≡ true
      → listens ((for_conns api f ks g).conns j) ≡ false
  unfolding for_conns
  for_conns-listens f j [] g s h m = ground arith
  for_conns-listens f j (k ∷ ks) g s h m = elim (Bool-cases (nat_eq k j)) [
    | inl e ↦ for_conns-listens_kept f j ks (modify api k f g) s (rw (modify_self f j k g e) h)
    | inr e ↦
        for_conns-listens f j ks (modify api k f g) s (rw (modify_other f j k g e) h) (ground arith)
  ]

  pub shut-listens_any :
      (code : CloseCode) (reason : String) (o : Option (Conn api))
      → listens (on_conn api (shut api code reason) o) ≡ false
  unfolding on_conn listens
  shut-listens_any code reason none = refl
  shut-listens_any code reason (some c) = shut-listens code reason c

  -- When the source reports that it is no longer healthy, no connection that the gateway knows, pending or
  -- authenticated, listens any more.
  pub on_health-closed :
      (j : ℕ) (g : Gateway api)
      → g.healthy ≡ true
      → holds j (all_conns api g) ≡ true
      → listens ((on_health api false g).conns j) ≡ false
  unfolding on_health close_all close_each all_conns
  on_health-closed j g h m = rw (h) (
      for_conns-listens (shut api unavailable "realtime_unavailable") j (all_conns api g)
        (record g { healthy = false }) (λ c e. shut-listens unavailable "realtime_unavailable" c)
        (shut-listens_any unavailable "realtime_unavailable" (g.conns j)) m)

  pub tick_conn-listens :
      (o : RealtimeOptions) (now : ℕ) (c : Conn api)
      → listens (some c) ≡ false
      → listens (some (tick_conn api o now c)) ≡ false
  unfolding tick_conn send_ws listens
  tick_conn-listens o now c h = elim (Bool-cases (leb c.expires_at_ms now)) [
    | inl e ↦ rw (e) (shut-listens unauthorized "token_expired" c)
    | inr e ↦ let t = terminate-is_open c.ws in ground arith
  ]

  overdue-listens :
      (o : RealtimeOptions) (now : ℕ) (c : Conn api)
      → leb c.expires_at_ms now || ltb (5 * o.ping_interval_ms) (2 * (now - c.last_seen_ms)) ≡ true
      → listens (on_conn api (tick_conn api o now) (some c)) ≡ false
  unfolding tick_conn on_conn listens
  overdue-listens o now c due = elim (Bool-cases (leb c.expires_at_ms now)) [
    | inl e ↦ rw (e) (shut-listens unauthorized "token_expired" c)
    | inr e ↦ let t = terminate-is_open c.ws in ground arith
  ]

  -- A tick silences what is overdue: a connection of a user whose token has expired, or from which nothing
  -- came for more than two and a half ping intervals, does not listen after it.
  pub tick-silenced :
      (o : RealtimeOptions) (now j : ℕ) (c : Conn api) (g : Gateway api)
      → holds j (members api g.by_user) ≡ true
      → g.conns j ≡ some c
      → leb c.expires_at_ms now || ltb (5 * o.ping_interval_ms) (2 * (now - c.last_seen_ms)) ≡ true
      → listens ((tick api o now g).conns j) ≡ false
  unfolding tick
  tick-silenced o now j c g m e due =
      for_conns-listens (tick_conn api o now) j (members api g.by_user) g (tick_conn-listens o now)
        (rw (e) (overdue-listens o now c due)) m
