-- ===== src/Realtime/Gateway/Registry.antt =====
-- Which connections the registry of `RealtimeGateway` in src/realtime/realtime.gateway.ts still holds after a
-- change of it.
use zudue_api.Base.{
  ℕ, ◌≡◌, refl, sym, ap, ◌∙◌, String, true, false, ◌||◌, List, [], ◌∷◌, ◌++◌, arith, nat_eq, holds,
  ◌==◌, Bool-cases, inl, inr,
}
use zudue_api.Realtime.Socket.{SocketApi}
use zudue_api.Realtime.Gateway.{
  members, sockets_of, put_sockets, delete_conn, keep_entry, drop_socket,
}

pub holds-append : (j : ℕ) (xs ys : List ℕ) → holds j (xs ++ ys) ≡ (holds j xs || holds j ys)
holds-append j [] ys = refl
holds-append j (x ∷ xs) ys = let ih = holds-append j xs ys in ground arith

module _ (api : SocketApi) where
  pub holds-delete :
      (j k : ℕ) (ks : List ℕ) → nat_eq k j ≡ false → holds j (delete_conn api k ks) ≡ holds j ks
  unfolding delete_conn
  holds-delete j k [] n = refl
  holds-delete j k (i ∷ ks) n = let ih = holds-delete j k ks n in ground arith

  members-keep_entry :
      (v : String) (set : List ℕ) (m : List (String × List ℕ))
      → members api (keep_entry api v set m) ≡ set ++ members api m
  unfolding members keep_entry
  members-keep_entry v [] m = refl
  members-keep_entry v (j ∷ js) m = refl

  pub holds-drop :
      (j k : ℕ) (u : String) (m : List (String × List ℕ))
      → nat_eq k j ≡ false
      → holds j (members api (drop_socket api u k m)) ≡ holds j (members api m)
  unfolding members drop_socket
  holds-drop j k u [] n = refl
  holds-drop j k u ((v, set) ∷ m) n =
      let ih = holds-drop j k u m n in
      let d = holds-delete j k set n in
      let a = holds-append j set (members api m) in
      let b = holds-append j (delete_conn api k set) (members api m) in
      let c = holds-append j set (members api (drop_socket api u k m)) in
      elim (Bool-cases (v == u)) [
        | inl e ↦ rw (e) (
            ap (holds j) (members-keep_entry v (delete_conn api k set) m)
            ∙ b
            ∙ ap (λ x. x || holds j (members api m)) d
            ∙ sym a)
        | inr e ↦ rw (e) (c ∙ ap (λ b. holds j set || b) ih ∙ sym a)
      ]

  pub holds-put :
      (j : ℕ) (u : String) (set : List ℕ) (m : List (String × List ℕ))
      → holds j set ≡ true
      → holds j (members api (put_sockets api u set m)) ≡ true
  unfolding members put_sockets
  holds-put j u set [] h = holds-append j set [] ∙ ap (λ b. b || false) h
  holds-put j u set ((v, old) ∷ m) h = elim (Bool-cases (v == u)) [
    | inl e ↦ rw (e) (holds-append j set (members api m) ∙ ap (λ b. b || holds j (members api m)) h)
    | inr e ↦ rw (e) (
        let ih = holds-put j u set m h in
        let a = holds-append j old (members api (put_sockets api u set m)) in ground arith)
  ]

  -- What is in no entry of the user stays.
  pub holds-put_other :
      (j : ℕ) (u : String) (set : List ℕ) (m : List (String × List ℕ))
      → holds j (sockets_of api u m) ≡ false
      → holds j (members api m) ≡ true
      → holds j (members api (put_sockets api u set m)) ≡ true
  unfolding members put_sockets sockets_of
  holds-put_other j u set [] n h = ground arith
  holds-put_other j u set ((v, old) ∷ m) n h =
      let a = holds-append j old (members api m) in
      elim (Bool-cases (v == u)) [
        | inl e ↦ rw (e) (let b = holds-append j set (members api m) in ground arith)
        | inr e ↦
            let b = holds-append j old (members api (put_sockets api u set m)) in
            rw (e) (elim (Bool-cases (holds j old)) [
              | inl p ↦ b ∙ ap (λ x. x || holds j (members api (put_sockets api u set m))) p
              | inr p ↦
                  let ih = holds-put_other j u set m (ground arith) (ground arith) in
                  b ∙ ap (λ x. x || holds j (members api (put_sockets api u set m))) p ∙ ih
            ])
      ]
