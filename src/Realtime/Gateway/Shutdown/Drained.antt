-- ===== src/Realtime/Gateway/Shutdown/Drained.antt =====
-- When the wait of `drain` in src/realtime/realtime.gateway.ts is over.
use mathlib.Core.Path.{subst}
use zudue_api.Base.{
  append_assoc, append_nil, length-append_one, if_by, ℕ, suc, ◌+◌, ◌≡◌, refl, sym, ap, ◌∙◌, Bool,
  true, false, not, List, [], ◌∷◌, ◌++◌, arith, nat_eq, length, Bool-cases, inl, inr, if◌then◌else◌,
}
use zudue_api.Realtime.Socket.{SocketApi}
use zudue_api.Realtime.Gateway.{Gateway, delete_conn}
use zudue_api.Realtime.Gateway.Shutdown.{Drain, finish, count_down, heard, is_gone, watch, drain}

-- The promise is resolved once nobody is left, and its timer runs until then.
abbrev pub IsDecided : Drain → Type 0
IsDecided d = (d.resolved ≡ nat_eq d.left 0) × (d.timer ≡ not d.resolved)

-- The connections that a drain waits for, as its count and its promise tell.
pub record Awaits (ls : List ℕ) (d : Drain) : Type 0 where
  pub listening : d.listeners ≡ ls
  pub counted : d.left ≡ length ls
  pub decided : IsDecided d

count_down-IsDecided : (d : Drain) → IsDecided d → IsDecided (count_down d)
unfolding count_down finish
count_down-IsDecided d r = ground arith

heard-listeners : (k : ℕ) (js : List ℕ) (d : Drain) → (heard k js d).listeners ≡ d.listeners
unfolding heard count_down finish
heard-listeners k [] d = refl
heard-listeners k (j ∷ js) d = elim (Bool-cases (nat_eq j k)) [
  | inl e ↦ heard-listeners k js _ ∙ ground arith
  | inr e ↦ heard-listeners k js _ ∙ ground arith
]

heard-IsDecided : (k : ℕ) (js : List ℕ) (d : Drain) → IsDecided d → IsDecided (heard k js d)
unfolding heard
heard-IsDecided k [] d r = r
heard-IsDecided k (j ∷ js) d r =
    heard-IsDecided k js (if nat_eq j k then count_down d else d)
      (if_by IsDecided (nat_eq j k) (count_down d) d (λ e. count_down-IsDecided d r) (λ e. r))

module _ (api : SocketApi) where
  heard-left :
      (k : ℕ) (js : List ℕ) (m : ℕ) (d : Drain)
      → d.left ≡ length js + m
      → (heard k js d).left ≡ length (delete_conn api k js) + m
  unfolding heard count_down finish delete_conn
  heard-left k [] m d h = h
  heard-left k (j ∷ js) m d h = elim (Bool-cases (nat_eq j k)) [
    | inl e ↦
        let ih = heard-left k js m (if nat_eq j k then count_down d else d) (ground arith) in
        ground arith
    | inr e ↦
        let ih = heard-left k js (suc m) (if nat_eq j k then count_down d else d) (ground arith) in
        ground arith
  ]

  add_zero : (n : ℕ) → n + 0 ≡ n
  add_zero n = omega arith

  pub heard-Awaits :
      (k : ℕ) (ls : List ℕ) (d : Drain)
      → Awaits ls d
      → Awaits
          (delete_conn api k ls)
          (heard k d.listeners (record d { listeners = delete_conn api k d.listeners }))
  heard-Awaits k ls d w =
      let d' = record d { listeners = delete_conn api k d.listeners } in
      record {
        listening = heard-listeners k d.listeners d' ∙ ap (delete_conn api k) w.listening;
        counted =
            heard-left k d.listeners 0 d'
              (w.counted ∙ ap length (sym w.listening) ∙ sym (add_zero (length d.listeners)))
            ∙ add_zero _
            ∙ ap (λ xs. length (delete_conn api k xs)) w.listening;
        decided = heard-IsDecided k d.listeners d' w.decided;
      }

module _ (api : SocketApi) (is_closed : api.Ws → Bool) where
  -- Those of the connections whose socket is not CLOSED.
  unfoldable pub open_conns : Gateway api → List ℕ → List ℕ
  unfolding is_gone
  open_conns g [] = []
  open_conns g (k ∷ ks) =
      let rest = open_conns g ks in if is_gone api is_closed (g.conns k) then rest else k ∷ rest

  watch-Awaits :
      (g : Gateway api) (ks js : List ℕ) (d : Drain)
      → d.listeners ≡ js
      → d.left ≡ length js + length ks
      → IsDecided d
      → Awaits (js ++ open_conns g ks) (watch api is_closed g ks d)
  unfolding watch open_conns count_down finish
  watch-Awaits g [] js d l c r = record {
    listening = l ∙ sym (append_nil js);
    counted = c ∙ ap (λ n. n) (omega arith) ∙ ap length (sym (append_nil js));
    decided = r;
  }
  watch-Awaits g (k ∷ ks) js d l c r = elim (Bool-cases (is_gone api is_closed (g.conns k))) [
    | inl e ↦ rw (e) (
        watch-Awaits g ks js (count_down d) (ground arith) (ground arith)
          (count_down-IsDecided d r))
    | inr e ↦ rw (e) (
        let a = length-append_one js k in
        let m =
          watch-Awaits g ks (js ++ k ∷ []) (record d { listeners = d.listeners ++ k ∷ [] })
            (ap (λ xs. xs ++ k ∷ []) l) (omega arith) r in
        subst
          (λ xs.
            Awaits xs (watch api is_closed g ks (record d { listeners = d.listeners ++ k ∷ [] })))
          (append_assoc js (k ∷ []) (open_conns g ks)) m)
  ]

  pub drain-Awaits :
      (ks : List ℕ) (g : Gateway api) → Awaits (open_conns g ks) (drain api is_closed ks g)
  unfolding drain open_conns
  drain-Awaits [] g = record { listening = refl; counted = refl; decided = (refl, refl) }
  drain-Awaits (k ∷ ks) g =
      let d : Drain = record {
        sockets = k ∷ ks;
        left = length (k ∷ ks);
        listeners = [];
        timer = true;
        resolved = false;
      } in
      watch-Awaits g (k ∷ ks) [] d refl (omega arith) (ground arith, refl)
