-- ===== src/Bingx/Live/Clock.antt =====
-- How far the measured difference of the clocks is from the real one.
use mathlib.Core.Path.{subst}
use botbtc.Prelude.{
  ℕ, ◌+◌, ◌-◌, ◌/◌, ◌≤◌, ◌<◌, ◌^◌, ℤ, pos, ◌-ℤ◌, ◌≤ℤ◌, add64, sub64, ◌≡◌, refl, sym, ap, ◌∙◌, arith,
  none, Option,
}
use botbtc.Bingx.Live.{
  LiveClient, Network, Reply, replied, get_server_time, LiveError, time_delta, store_delta,
  sync_server_time,
}

pub time_delta_exact :
    (before server after : ℕ)
    → before ≤ after
    → after < 2 ^ 62
    → server < 2 ^ 62
    → time_delta (pos before) (pos server) (pos after)
      ≡ pos after -ℤ pos (server + (after - before) / 2)
unfolding time_delta add64 sub64
time_delta_exact before server after h small small' = ground arith

abbrev pub IsWithin : (error : ℤ) (round_trip : ℕ) → Type 0
IsWithin error round_trip =
    (pos 0 -ℤ pos (round_trip / 2) ≤ℤ error) × (error ≤ℤ pos ((round_trip + 1) / 2))

within :
    (before at after server : ℕ)
    → before ≤ at
    → at ≤ after
    → IsWithin
        ((pos after -ℤ pos (server + (after - before) / 2)) -ℤ (pos at -ℤ pos server))
        (after - before)
unfolding ◌-ℤ◌
within before at after server h h' = (ground arith, ground arith)

module _ {E Bytes : Type 0} (net : Network E Bytes) (server_time : Bytes → Option ℤ)
    (c : LiveClient) where
  synced :
      (e e1 e2 e3 : E) (before after server : ℕ)
      → net.now_ms e ≡ (pos before, e1)
      → get_server_time net server_time c e1 ≡ (replied (pos server), e2)
      → net.now_ms e2 ≡ (pos after, e3)
      → sync_server_time net server_time c e ≡ (
        none,
        record c { server_time_delta = time_delta (pos before) (pos server) (pos after) },
        e3,
      )
  unfolding sync_server_time store_delta
  synced e e1 e2 e3 before after server first got last =
      ap
        (λ (p : ℤ × E).
          store_delta net p.0 (get_server_time net server_time c p.1).0 c
            (get_server_time net server_time c p.1).1)
        first
      ∙ ap (λ (p : Reply ℤ × E). store_delta net (pos before) p.0 c p.1) got
      ∙ ap
          (λ (p : ℤ × E).
            (none, record c { server_time_delta = time_delta (pos before) (pos server) p.0 }, p.1))
          last

  -- If the server read its clock, at `server` ms, while the local clock stood at `moment` ms between the two
  -- readings around the request, then the stored difference of the clocks is off the real one by at most half
  -- the round trip, rounded up; the times are milliseconds below 2^62.
  pub sync_server_time_lem :
      (e e1 e2 e3 : E) (before moment after server : ℕ)
      → net.now_ms e ≡ (pos before, e1)
      → get_server_time net server_time c e1 ≡ (replied (pos server), e2)
      → net.now_ms e2 ≡ (pos after, e3)
      → before ≤ moment
      → moment ≤ after
      → after < 2 ^ 62
      → server < 2 ^ 62
      → let (error, c', e') = sync_server_time net server_time c e in
        (error ≡ none)
        × IsWithin (c'.server_time_delta -ℤ (pos moment -ℤ pos server)) (after - before)
  sync_server_time_lem e e1 e2 e3 before moment after server first got last h h' small small' =
      let real = pos moment -ℤ pos server in
      let round_trip = after - before in
      subst
        (λ (done : Option LiveError × LiveClient × E).
          (done.0 ≡ none) × IsWithin (done.1.server_time_delta -ℤ real) round_trip)
        (sym (synced e e1 e2 e3 before after server first got last))
        (
          refl,
          subst (λ d. IsWithin (d -ℤ real) round_trip)
              (sym (time_delta_exact before server after (omega arith) small small'))
              (within before moment after server h h'),
        )
