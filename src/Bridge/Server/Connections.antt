-- ===== src/Bridge/Server/Connections.antt =====
-- The count of the open connections, and the bound on it.
use botbtc.Prelude.{
  ℕ, zero, suc, ◌+◌, ◌≤◌, ◌<◌, ◌^◌, pos, negsuc, leb_ℤ, add64, inc64, inc64_exact, ◌≡◌, refl, sym,
  ap, ◌∙◌, arith, Bool, Bool-cases, true, false, inl, inr, List, [], ◌∷◌, ◌++◌, if◌then◌else◌,
}
use botbtc.Float.{Float64}
use botbtc.Bridge.{Json}
use botbtc.Bridge.Server.{
  Connection, Read, Server, new_connection, new_server, accept, serve, serve_one, serve_at,
}

one_less : (n : ℕ) → n + 1 < 2 ^ 63 → add64 (pos (n + 1)) (negsuc 0) ≡ pos n
unfolding add64
one_less n h = ground arith

module _ {F Bytes : Type 0} ⦃fl : Float64 F⦄ (json : Json F Bytes) (is_empty : Bytes → Bool)
    (max_connections : ℕ) where
  -- Connections that are accepted or refused and rounds of their handlers, in any order.
  pub data Run : Server F → Type 0 where
    start : Run (new_server (pos max_connections))
    connected : {s : Server F} → Run s → Run (accept s)
    served : {s : Server F} (i : ℕ) (r : Read Bytes) → Run s → Run (serve_at json is_empty i r s)

  unfoldable pub open_count : List (Connection F) → ℕ
  open_count [] = 0
  open_count (c ∷ conns) = (if c.is_open then 1 else 0) + open_count conns

  open_count-append :
      (conns : List (Connection F))
      → open_count (conns ++ (new_connection ∷ [])) ≡ open_count conns + 1
  unfolding open_count
  open_count-append [] = refl
  open_count-append (c ∷ conns) = omega (arith, open_count-append conns)

  round-count :
      (was : Bool) (c c' : Connection F) (conns : List (Connection F))
      → c.is_open ≡ was
      → let (conns', closed) : List (Connection F) × Bool =
          if was then (c' ∷ conns, if c'.is_open then false else true) else (c ∷ conns, false) in
        open_count (c ∷ conns) ≡ open_count conns' + (if closed then 1 else 0)
  unfolding open_count
  round-count true c c' conns e = elim (Bool-cases c'.is_open) [
    | inl e' ↦ rw (e, e') (omega arith)
    | inr e' ↦ rw (e, e') (omega arith)
  ]
  round-count false c c' conns e = omega arith

  open_count-serve_one :
      (i : ℕ) (r : Read Bytes) (conns : List (Connection F))
      → let (conns', closed) = serve_one json is_empty i r conns in
        open_count conns ≡ open_count conns' + (if closed then 1 else 0)
  unfolding serve_one open_count
  open_count-serve_one i r [] = refl
  open_count-serve_one zero r (c ∷ conns) =
      round-count c.is_open c (serve json is_empty r c) conns refl
  open_count-serve_one (suc i) r (c ∷ conns) = omega (arith, open_count-serve_one i r conns)

  pub record IsCounted (s : Server F) : Type 0 where
    pub limit : s.max_connections ≡ pos max_connections
    pub counted : s.active_conns ≡ pos (open_count s.conns)
    pub bounded : open_count s.conns ≤ max_connections

  start-IsCounted : IsCounted (new_server (pos max_connections))
  unfolding new_server open_count
  start-IsCounted = record { limit = refl; counted = refl; bounded = omega arith }

  accept-IsCounted : (s : Server F) → max_connections < 2 ^ 63 → IsCounted s → IsCounted (accept s)
  unfolding accept
  accept-IsCounted s small h = elim (Bool-cases (leb_ℤ s.max_connections s.active_conns)) [
    | inl e ↦ rw e h
    | inr e ↦
        let room : open_count s.conns < max_connections =
          ground (arith, rw (h.limit, h.counted) at e) in
        rw e (record {
          limit = h.limit;
          counted =
              ap inc64 h.counted
              ∙ inc64_exact (open_count s.conns) (omega arith)
              ∙ ap pos (sym (open_count-append s.conns));
          bounded = omega (arith, open_count-append s.conns);
        })
  ]

  serve_at-IsCounted :
      (i : ℕ) (r : Read Bytes) (s : Server F)
      → max_connections < 2 ^ 63
      → IsCounted s
      → IsCounted (serve_at json is_empty i r s)
  unfolding serve_at
  serve_at-IsCounted i r s small h =
      let (conns, closed) = serve_one json is_empty i r s.conns in
      let count : open_count s.conns ≡ open_count conns + (if closed then 1 else 0) =
        open_count-serve_one i r s.conns in
      elim (Bool-cases closed) [
        | inl e ↦
            let count' = rw e at count in
            record {
              limit = h.limit;
              counted =
                  rw (e, h.counted, count')
                    (one_less (open_count conns) (omega (arith, count', h.bounded)));
              bounded = omega (arith, count', h.bounded);
            }
        | inr e ↦
            let count' = rw e at count in
            record {
              limit = h.limit;
              counted = rw (e, h.counted) (ap pos (omega (arith, count')));
              bounded = omega (arith, count', h.bounded);
            }
      ]

  -- While connections come, are served and close, in any order, `activeConns` is the number of open
  -- connections, and never above the limit that the server was given, an `int`.
  pub connections_bound : {s : Server F} → max_connections < 2 ^ 63 → Run s → IsCounted s
  connections_bound small start = start-IsCounted
  connections_bound small (connected {s} run) =
      accept-IsCounted s small (connections_bound small run)
  connections_bound small (served {s} i r run) =
      serve_at-IsCounted i r s small (connections_bound small run)
