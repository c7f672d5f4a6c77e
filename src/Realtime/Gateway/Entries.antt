-- ===== src/Realtime/Gateway/Entries.antt =====
-- The entries of `byUser` in src/realtime/realtime.gateway.ts: which user holds which connection, and how often.
use zudue_api.Base.{
  ℕ, ◌≡◌, refl, ap, String, Bool, true, false, not, ◌&&◌, ◌||◌, List, [], ◌∷◌, ◌++◌, arith, nat_eq,
  holds, ◌==◌, Bool-cases, inl, inr, eq_iff,
}
use zudue_api.Realtime.Socket.{SocketApi}
use zudue_api.Realtime.Gateway.{sockets_of, put_sockets, delete_conn, keep_entry, drop_socket}
use zudue_api.Realtime.Gateway.Handshake.{evict}

abbrev pub nodup : List ℕ → Bool
nodup [] = true
nodup (k ∷ ks) = not (holds k ks) && nodup ks

-- Some entry of the user holds the connection.
abbrev pub entry_holds : String → ℕ → List (String × List ℕ) → Bool
entry_holds u j [] = false
entry_holds u j ((v, set) ∷ m) = (v == u && holds j set) || entry_holds u j m

-- No set holds a connection twice.
abbrev pub all_nodup : List (String × List ℕ) → Bool
all_nodup [] = true
all_nodup ((v, set) ∷ m) = nodup set && all_nodup m

pub holds-append_one : (j k : ℕ) (ks : List ℕ) → holds j (ks ++ k ∷ []) ≡ (holds j ks || nat_eq k j)
holds-append_one j k [] = ground arith
holds-append_one j k (i ∷ ks) = let ih = holds-append_one j k ks in ground arith

nat_eq_sym : (j k : ℕ) → nat_eq j k ≡ nat_eq k j
nat_eq_sym j k = ground arith

pub nodup-append_one :
    (k : ℕ) (ks : List ℕ) → nodup ks ≡ true → holds k ks ≡ false → nodup (ks ++ k ∷ []) ≡ true
nodup-append_one k [] n h = refl
nodup-append_one k (j ∷ ks) n h =
    let ih = nodup-append_one k ks (ground arith) (ground arith) in
    let a = holds-append_one j k ks in let s = nat_eq_sym j k in ground arith

module _ (api : SocketApi) where
  pub entry_holds-sockets_of :
      (u : String) (j : ℕ) (m : List (String × List ℕ))
      → holds j (sockets_of api u m) ≡ true
      → entry_holds u j m ≡ true
  unfolding sockets_of
  entry_holds-sockets_of u j [] h = h
  entry_holds-sockets_of u j ((v, set) ∷ m) h = elim (Bool-cases (v == u)) [
    | inl e ↦ ground arith
    | inr e ↦ let ih = entry_holds-sockets_of u j m (ground arith) in ground arith
  ]

  pub nodup-sockets_of :
      (u : String) (m : List (String × List ℕ))
      → all_nodup m ≡ true
      → nodup (sockets_of api u m) ≡ true
  unfolding sockets_of
  nodup-sockets_of u [] h = refl
  nodup-sockets_of u ((v, set) ∷ m) h = let ih = nodup-sockets_of u m (ground arith) in ground arith

  pub entry_holds-put :
      (u v : String) (j : ℕ) (set : List ℕ) (m : List (String × List ℕ))
      → entry_holds u j (put_sockets api v set m) ≡ true
      → ((v == u && holds j set) || entry_holds u j m) ≡ true
  unfolding put_sockets
  entry_holds-put u v j set [] h = h
  entry_holds-put u v j set ((w, old) ∷ m) h = elim (Bool-cases (w == v)) [
    | inl e ↦ let s = ap (λ x. x == u) ((eq_iff w v).0 e) in ground arith
    | inr e ↦ elim (Bool-cases (w == u && holds j old)) [
      | inl i ↦ ground arith
      | inr i ↦ let ih = entry_holds-put u v j set m (ground arith) in ground arith
    ]
  ]

  pub nodup-put :
      (v : String) (set : List ℕ) (m : List (String × List ℕ))
      → nodup set ≡ true
      → all_nodup m ≡ true
      → all_nodup (put_sockets api v set m) ≡ true
  unfolding put_sockets
  nodup-put v set [] n h = ground arith
  nodup-put v set ((w, old) ∷ m) n h = let ih = nodup-put v set m n (ground arith) in ground arith

  delete-holds : (j k : ℕ) (ks : List ℕ) → holds j (delete_conn api k ks) ≡ true → holds j ks ≡ true
  unfolding delete_conn
  delete-holds j k [] h = h
  delete-holds j k (i ∷ ks) h = elim (Bool-cases (nat_eq i j)) [
    | inl e ↦ ground arith
    | inr e ↦ let ih = delete-holds j k ks (ground arith) in ground arith
  ]

  nodup-delete : (k : ℕ) (ks : List ℕ) → nodup ks ≡ true → nodup (delete_conn api k ks) ≡ true
  unfolding delete_conn
  nodup-delete k [] n = refl
  nodup-delete k (i ∷ ks) n =
      let ih = nodup-delete k ks (ground arith) in
      elim (Bool-cases (holds i (delete_conn api k ks))) [
        | inl e ↦ let d = delete-holds i k ks e in ground arith
        | inr e ↦ ground arith
      ]

  keep_entry-holds :
      (u v : String) (j : ℕ) (set : List ℕ) (m : List (String × List ℕ))
      → entry_holds u j (keep_entry api v set m) ≡ ((v == u && holds j set) || entry_holds u j m)
  unfolding keep_entry
  keep_entry-holds u v j [] m = ground arith
  keep_entry-holds u v j (k ∷ ks) m = refl

  keep_entry-nodup :
      (v : String) (set : List ℕ) (m : List (String × List ℕ))
      → all_nodup (keep_entry api v set m) ≡ (nodup set && all_nodup m)
  unfolding keep_entry
  keep_entry-nodup v [] m = refl
  keep_entry-nodup v (k ∷ ks) m = refl

  pub entry_holds-drop :
      (u v : String) (j k : ℕ) (m : List (String × List ℕ))
      → entry_holds u j (drop_socket api v k m) ≡ true
      → entry_holds u j m ≡ true
  unfolding drop_socket
  entry_holds-drop u v j k [] h = h
  entry_holds-drop u v j k ((w, set) ∷ m) h = elim (Bool-cases (w == v)) [
    | inl e ↦
        let a = keep_entry-holds u w j (delete_conn api k set) m in
        elim (Bool-cases (holds j (delete_conn api k set))) [
          | inl d ↦ let p = delete-holds j k set d in ground arith
          | inr d ↦ ground arith
        ]
    | inr e ↦ elim (Bool-cases (w == u && holds j set)) [
      | inl i ↦ ground arith
      | inr i ↦ let ih = entry_holds-drop u v j k m (ground arith) in ground arith
    ]
  ]

  pub nodup-drop :
      (v : String) (k : ℕ) (m : List (String × List ℕ))
      → all_nodup m ≡ true
      → all_nodup (drop_socket api v k m) ≡ true
  unfolding drop_socket
  nodup-drop v k [] h = refl
  nodup-drop v k ((w, set) ∷ m) h =
      let ih = nodup-drop v k m (ground arith) in
      let d = nodup-delete k set (ground arith) in
      let a = keep_entry-nodup w (delete_conn api k set) m in ground arith

  pub evict-holds :
      (j most : ℕ) (ks : List ℕ) → holds j (evict api most ks).0 ≡ true → holds j ks ≡ true
  unfolding evict
  evict-holds j most [] h = h
  evict-holds j most (k ∷ ks) h = let ih = evict-holds j most ks in ground arith

  pub nodup-evict : (most : ℕ) (ks : List ℕ) → nodup ks ≡ true → nodup (evict api most ks).0 ≡ true
  unfolding evict
  nodup-evict most [] n = refl
  nodup-evict most (k ∷ ks) n = let ih = nodup-evict most ks (ground arith) in ground arith
