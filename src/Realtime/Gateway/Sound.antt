-- ===== src/Realtime/Gateway/Sound.antt =====
-- Who is registered in `byUser` of src/realtime/realtime.gateway.ts, as a condition on one state, and the changes
-- that keep it.
use zudue_api.Base.{
  ℕ, ◌≤◌, ◌≡◌, refl, sym, ap, ◌∙◌, String, true, false, Option, none, some, List, [], ◌∷◌, ◌++◌,
  arith, nat_eq, holds, ◌==◌, eq_iff, ◌⊎◌, Bool-cases, inl, inr,
}
use zudue_api.Realtime.Socket.{SocketApi}
use zudue_api.Realtime.Gateway.{
  Conn, Gateway, modify, on_conn, put_sockets, delete_conn, user_of, leave, on_close,
}
use zudue_api.Realtime.Gateway.Handshake.{on_connection}
use zudue_api.Realtime.Gateway.Teardown.{listens, modify_self, modify_other}
use zudue_api.Realtime.Gateway.Quiet.{Hushes}
use zudue_api.Realtime.Gateway.Still.{facts, IsStill, Calms, modify-IsStill}
use zudue_api.Realtime.Gateway.Entries.{
  nodup, entry_holds, all_nodup, entry_holds-put, nodup-put, entry_holds-drop, nodup-drop,
  holds-append_one, nodup-append_one,
}

module _ (api : SocketApi) where
  open api use {Ws}

  -- Whoever is registered is so under the user as whom it is authenticated, which is not empty, and once; the
  -- numbers of connections to come are unused.
  pub record IsSound (g : Gateway api) : Type 0 where
    pub own :
        (u : String) (j : ℕ)
        → entry_holds u j g.by_user ≡ true
        → facts api (g.conns j) ≡ some (some u, false) × (u == "") ≡ false
    pub once : all_nodup g.by_user ≡ true
    pub fresh : (j : ℕ) → g.next ≤ j → facts api (g.conns j) ≡ none

  pub still-IsSound : (g g' : Gateway api) → IsStill api g g' → IsSound g → IsSound g'
  still-IsSound g g' s h = record {
    own = λ u j e.
        let o = h.own u j (ap (entry_holds u j) (sym s.quiet.same_users) ∙ e) in
        (s.same_facts j ∙ o.0, o.1);
    once = ap all_nodup s.quiet.same_users ∙ h.once;
    fresh = λ j l. s.same_facts j ∙ h.fresh j (let n = s.same_next in omega arith);
  }

  -- A connection that no entry holds.
  unfoldable pub Unlisted : ℕ → Gateway api → Type 0
  Unlisted k g = (u : String) → entry_holds u k g.by_user ≡ false

  pub facts-Unlisted :
      (k : ℕ) (g : Gateway api)
      → IsSound g
      → ((u : String)
          → facts api (g.conns k) ≡ some (some u, false)
          → (u == "") ≡ false
          → true ≡ false)
      → Unlisted k g
  unfolding Unlisted
  facts-Unlisted k g s h u = elim (Bool-cases (entry_holds u k g.by_user)) [
    | inl e ↦ let o = s.own u k e in e ∙ h u o.0 o.1
    | inr e ↦ e
  ]

  on_conn-none :
      (f : Conn api → Conn api) (o : Option (Conn api))
      → facts api o ≡ none
      → facts api (on_conn api f o) ≡ none
  unfolding on_conn facts
  on_conn-none f none h = refl
  on_conn-none f (some c) h = cc

  fresh-modify :
      (f : Conn api → Conn api) (k j : ℕ) (g : Gateway api)
      → facts api (g.conns j) ≡ none
      → facts api ((modify api k f g).conns j) ≡ none
  fresh-modify f k j g h = elim (Bool-cases (nat_eq k j)) [
    | inl e ↦ ap (facts api) (modify_self api f j k g e) ∙ on_conn-none f (g.conns j) h
    | inr e ↦ ap (facts api) (modify_other api f j k g e) ∙ h
  ]

  -- A registered connection is none that is unlisted.
  listed_other :
      (u : String) (j k : ℕ) (g : Gateway api)
      → Unlisted k g
      → entry_holds u j g.by_user ≡ true
      → nat_eq k j ≡ false
  unfolding Unlisted
  listed_other u j k g n e = elim (Bool-cases (nat_eq k j)) [
    | inl i ↦
        let same : k ≡ j = ground arith in
        let both = ap (λ x. entry_holds u x g.by_user) same in let none_holds = n u in ground arith
    | inr i ↦ i
  ]

  pub modify-IsSound :
      (f : Conn api → Conn api) (k : ℕ) (g : Gateway api)
      → Unlisted k g
      → IsSound g
      → IsSound (modify api k f g)
  unfolding modify
  modify-IsSound f k g n s = record {
    own = λ u j e.
        let o = s.own u j e in
        (ap (facts api) (modify_other api f j k g (listed_other u j k g n e)) ∙ o.0, o.1);
    once = s.once;
    fresh = λ j l. fresh-modify f k j g (s.fresh j l);
  }

  leave-IsSound :
      (who : Option String) (k : ℕ) (ps : List ℕ) (g : Gateway api)
      → IsSound g
      → IsSound (record g { pending = ps; by_user = leave api who k g.by_user })
  unfolding leave
  leave-IsSound none k ps g s = record { own = s.own; once = s.once; fresh = s.fresh }
  leave-IsSound (some v) k ps g s = elim (Bool-cases (v == "")) [
    | inl e ↦ rw (e) (record { own = s.own; once = s.once; fresh = s.fresh })
    | inr e ↦ rw (e) (record {
      own = λ u j h. s.own u j (entry_holds-drop api u v j k g.by_user h);
      once = nodup-drop api v k g.by_user s.once;
      fresh = s.fresh;
    })
  ]

  pub on_close-IsSound : (k : ℕ) (g : Gateway api) → IsSound g → IsSound (on_close api k g)
  unfolding on_close Calms Hushes listens facts
  on_close-IsSound k g s =
      let g' = record g {
        pending = delete_conn api k g.pending;
        by_user = leave api (user_of api (g.conns k)) k g.by_user;
      } in
      let f : Conn api → Conn api = λ c. record c { closed = true; auth_timer = false } in
      still-IsSound g' (modify api k f g') (modify-IsStill api f k g' (λ c h. refl, λ c. refl))
        (leave-IsSound (user_of api (g.conns k)) k (delete_conn api k g.pending) g s)

  pub on_connection-IsSound :
      (ws : Ws) (now : ℕ) (g : Gateway api) → IsSound g → IsSound (on_connection api ws now g)
  unfolding on_connection facts
  on_connection-IsSound ws now g s = record {
    own = λ u j e.
        let o = s.own u j e in
        elim (Bool-cases (nat_eq g.next j)) [
          | inl i ↦
              let f = s.fresh j (ground arith) in
              let clash : some (some u, false) ≡ none = sym o.0 ∙ f in cc
          | inr i ↦ (rw (i) o.0, o.1)
        ];
    once = s.once;
    fresh = λ j l. let f = s.fresh j (omega arith) in ground arith;
  }

  holds_joined :
      (u v : String) (j k : ℕ) (set : List ℕ) (m : List (String × List ℕ))
      → ((i : ℕ) → holds i set ≡ true → entry_holds v i m ≡ true)
      → entry_holds u j (put_sockets api v (set ++ k ∷ []) m) ≡ true
      → ((v ≡ u) × (k ≡ j)) ⊎ (entry_holds u j m ≡ true)
  holds_joined u v j k set m sub e =
      let p = entry_holds-put api u v j (set ++ k ∷ []) m e in
      let a = holds-append_one j k set in
      elim (Bool-cases (entry_holds u j m)) [
        | inl i ↦ inr i
        | inr i ↦
            let same : v ≡ u = (eq_iff v u).0 (ground arith) in
            elim (Bool-cases (nat_eq k j)) [
              | inl x ↦ inl (same, ground arith)
              | inr x ↦ inr (ap (λ w. entry_holds w j m) (sym same) ∙ sub j (ground arith))
            ]
      ]

  -- A connection that joins sockets of its own user.
  pub register-IsSound :
      (v : String) (k : ℕ) (set : List ℕ) (g : Gateway api)
      → Unlisted k g
      → facts api (g.conns k) ≡ some (some v, false)
      → (v == "") ≡ false
      → ((i : ℕ) → holds i set ≡ true → entry_holds v i g.by_user ≡ true)
      → nodup set ≡ true
      → IsSound g
      → IsSound (record g { by_user = put_sockets api v (set ++ k ∷ []) g.by_user })
  unfolding Unlisted
  register-IsSound v k set g n f w sub d s = record {
    own = λ u j e. elim (holds_joined u v j k set g.by_user sub e) [
      | inl (same, i) ↦ (
        ap (λ x. facts api (g.conns x)) (sym i) ∙ f ∙ ap (λ x. some (some x, false)) same,
        ap (λ x. x == "") (sym same) ∙ w,
      )
      | inr h ↦ s.own u j h
    ];
    once =
        nodup-put api v (set ++ k ∷ []) g.by_user
          (nodup-append_one k set d (elim (Bool-cases (holds k set)) [
            | inl i ↦ let x = sub k i in let y = n v in ground arith
            | inr i ↦ i
          ]))
          s.once;
    fresh = s.fresh;
  }
