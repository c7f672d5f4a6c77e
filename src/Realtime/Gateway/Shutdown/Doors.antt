-- ===== src/Realtime/Gateway/Shutdown/Doors.antt =====
-- When a server that runs `destroy` of src/realtime/realtime.gateway.ts closes its doors.

use zudue_api.Base.{
  ℕ, ◌≤◌, ◌≡◌, refl, ap, ◌∙◌, Bool, true, false, not, ◌&&◌, ◌||◌, some, List, [], ◌∷◌, arith,
  nat_eq, length, holds, Bool-cases, inl, inr,
}
use zudue_api.Realtime.Types.{going_away}
use zudue_api.Realtime.Socket.{SocketApi}
use zudue_api.Realtime.Gateway.{Gateway, all_conns, close_all, delete_conn, on_close}
use zudue_api.Realtime.Gateway.Shutdown.{
  Drain, heard, is_gone, drain, Server, after_drain, destroy, drain_heard, socket_closes,
  sockets_close,
}
use zudue_api.Realtime.Gateway.Shutdown.Drained.{Awaits, open_conns, heard-Awaits, drain-Awaits}

module _ (api : SocketApi) (is_closed : api.Ws → Bool) where
  -- Some connection is still open and is not among those that closed.
  unfoldable pub is_waited_for : List ℕ → Gateway api → List ℕ → Bool
  unfolding is_gone
  is_waited_for closed g [] = false
  is_waited_for closed g (j ∷ js) =
      (not (is_gone api is_closed (g.conns j)) && not (holds j closed)) || is_waited_for closed g js

  -- The rest of a list of connections once some have closed.
  unfoldable pub without : List ℕ → List ℕ → List ℕ
  unfolding delete_conn
  without [] ls = ls
  without (k ∷ ks) ls = without ks (delete_conn api k ls)

  unfoldable pub left_over : List ℕ → List ℕ → Bool
  left_over closed [] = false
  left_over closed (j ∷ js) = not (holds j closed) || left_over closed js

  pub left_over-open :
      (closed : List ℕ) (g : Gateway api) (js : List ℕ)
      → left_over closed (open_conns api is_closed g js) ≡ is_waited_for closed g js
  unfolding left_over open_conns is_waited_for
  left_over-open closed g [] = refl
  left_over-open closed g (j ∷ js) = let ih = left_over-open closed g js in ground arith

  left_over-delete :
      (k : ℕ) (ks ls : List ℕ) → left_over ks (delete_conn api k ls) ≡ left_over (k ∷ ks) ls
  unfolding left_over delete_conn
  left_over-delete k ks [] = refl
  left_over-delete k ks (j ∷ js) =
      let ih = left_over-delete k ks js in
      let s : nat_eq j k ≡ nat_eq k j = ground arith in ground arith

  none_closed : (ls : List ℕ) → left_over [] ls ≡ not (nat_eq (length ls) 0)
  unfolding left_over
  none_closed [] = refl
  none_closed (j ∷ js) = ground arith

  pub without-left_over :
      (ks ls : List ℕ) → nat_eq (length (without ks ls)) 0 ≡ not (left_over ks ls)
  unfolding without
  without-left_over [] ls = let n = none_closed ls in ground arith
  without-left_over (k ∷ ks) ls =
      without-left_over ks (delete_conn api k ls) ∙ ap not (left_over-delete k ks ls)

  -- A server that drains, and whose doors are open until that is done.
  pub record IsDraining (ls : List ℕ) (s : Server api is_closed) : Type 0 where
    pub current : Drain
    pub under_way : s.draining ≡ some current
    pub awaits : Awaits ls current
    pub doors : s.wss_open ≡ not current.resolved

  length-delete : (k : ℕ) (ls : List ℕ) → length (delete_conn api k ls) ≤ length ls
  unfolding delete_conn
  length-delete k [] = omega arith
  length-delete k (j ∷ js) = let ih = length-delete k js in ground arith

  after_drain-doors :
      (d d' : Drain) (s : Server api is_closed)
      → s.wss_open ≡ not d.resolved
      → (d.resolved ≡ true → d'.resolved ≡ true)
      → (after_drain api is_closed d' s).wss_open ≡ not d'.resolved
  unfolding after_drain
  after_drain-doors d d' s h r = elim (Bool-cases d.resolved) [
    | inl e ↦ let x = r e in ground arith
    | inr e ↦ ground arith
  ]

  after_drain-draining :
      (d : Drain) (s : Server api is_closed) → (after_drain api is_closed d s).draining ≡ some d
  unfolding after_drain
  after_drain-draining d s = ground arith

  still_resolved :
      (k : ℕ) (ls : List ℕ) (d d' : Drain)
      → Awaits ls d
      → Awaits (delete_conn api k ls) d'
      → d.resolved ≡ true
      → d'.resolved ≡ true
  still_resolved k ls d d' a b r =
      let x = a.decided.0 in
      let y = b.decided.0 in
      let p = a.counted in let q = b.counted in let n = length-delete k ls in ground arith

  heard-IsDraining :
      (k : ℕ) (ls : List ℕ) (d : Drain) (s : Server api is_closed)
      → Awaits ls d
      → s.wss_open ≡ not d.resolved
      → IsDraining (delete_conn api k ls) (drain_heard api is_closed k (some d) s)
  unfolding drain_heard
  heard-IsDraining k ls d s a o =
      let d' = heard k d.listeners (record d { listeners = delete_conn api k d.listeners }) in
      let w = heard-Awaits api k ls d a in
      record {
        current = d';
        under_way = after_drain-draining d' s;
        awaits = w;
        doors = after_drain-doors d d' s o (still_resolved k ls d d' a w);
      }

  close-IsDraining :
      (k : ℕ) (ls : List ℕ) (s : Server api is_closed)
      → IsDraining ls s
      → IsDraining (delete_conn api k ls) (socket_closes api is_closed k s)
  unfolding socket_closes
  close-IsDraining k ls s i = rw (i.under_way) (
      heard-IsDraining k ls i.current (record s { gateway = on_close api k s.gateway }) i.awaits
        i.doors)

  pub closes-IsDraining :
      (ks ls : List ℕ) (s : Server api is_closed)
      → IsDraining ls s
      → IsDraining (without ks ls) (sockets_close api is_closed ks s)
  unfolding sockets_close without
  closes-IsDraining [] ls s i = i
  closes-IsDraining (k ∷ ks) ls s i =
      closes-IsDraining ks (delete_conn api k ls) (socket_closes api is_closed k s)
        (close-IsDraining k ls s i)

  -- What `destroy` closes.
  unfoldable pub closing : Server api is_closed → Gateway api
  closing s = close_all api going_away "server_shutdown" s.gateway

  pub destroy-IsDraining :
      (s : Server api is_closed)
      → s.wss_open ≡ true
      → IsDraining
          (open_conns api is_closed (closing s) (all_conns api (closing s)))
          (destroy api is_closed s)
  unfolding destroy closing
  destroy-IsDraining s o =
      let g = closing s in
      let ks = all_conns api g in
      let d = drain api is_closed ks g in
      let s' = record s { gateway = g; upgrades = false; heartbeat = false } in
      record {
        current = d;
        under_way = after_drain-draining d s';
        awaits = drain-Awaits api is_closed ks g;
        doors =
            after_drain-doors (record d { resolved = false }) d s' o
              (λ e. let x : false ≡ true = e in cc);
      }
