-- ===== src/Bridge/Server/Stopping/Returns.antt =====
-- When the channel of signals is closed, and how `Stop` comes to its end.
use botbtc.Prelude.{
  ℕ, zero, suc, ◌+◌, ◌-◌, ◌<◌, ◌≡◌, refl, ◌∙◌, arith, Bool, true, false, if◌then◌else◌,
}
use botbtc.Bridge.Server.Stopping.{
  Phase, not_called, cancelled, listener_closed, waited, channel_closed, Listening, start, let_in,
  accept_returns, handler_returns, stop_from, stop, Step, letting_in, accept_returning,
  handler_returning, stopping, Steps, none_yet, then_one,
}

abbrev running : Bool → ℕ
running b = if b then 1 else 0

-- What the phase says of the rest.
abbrev Says : Phase → Listening → Type 0
Says not_called s = s.channel_open ≡ true
Says cancelled s = (s.channel_open ≡ true) × (s.ctx_done ≡ true)
Says listener_closed s = (s.channel_open ≡ true) × (s.ctx_done ≡ true) × (s.listener_open ≡ false)
Says waited s = (s.channel_open ≡ true) × (s.wg ≡ 0)
Says channel_closed s = (s.channel_open ≡ false) × (s.wg ≡ 0)

record IsSound (s : Listening) : Type 0 where
  counts : s.wg ≡ running s.accepting + s.handlers
  says : Says s.phase s

-- A phase that is over when nothing runs stays what it says while something runs.
Says-busy :
    (phase : Phase) (s t : Listening)
    → 0 < s.wg
    → t.channel_open ≡ s.channel_open
    → t.ctx_done ≡ s.ctx_done
    → t.listener_open ≡ s.listener_open
    → Says phase s
    → Says phase t
Says-busy not_called s t busy c d l h = c ∙ h
Says-busy cancelled s t busy c d l h = (c ∙ h.0, d ∙ h.1)
Says-busy listener_closed s t busy c d l h = (c ∙ h.0, d ∙ h.1, l ∙ h.2)
Says-busy waited s t busy c d l h = absurd (omega (arith, busy, h.1))
Says-busy channel_closed s t busy c d l h = absurd (omega (arith, busy, h.1))

accepting-busy : (s : Listening) → IsSound s → s.accepting ≡ true → 0 < s.wg
accepting-busy s i a = let counts = rw a at i.counts in omega (arith, counts)

stop-IsSound :
    (phase : Phase) (s : Listening) → IsSound s → Says phase s → IsSound (stop_from phase s)
unfolding stop_from
stop-IsSound not_called s i h = record { counts = i.counts; says = (h, refl) }
stop-IsSound cancelled s i h = record { counts = i.counts; says = (h.0, h.1, refl) }
stop-IsSound listener_closed s i h = of s.wg refl
  where
    of : (n : ℕ) → s.wg ≡ n → IsSound (elim n [ zero ↦ record s { phase = waited } | suc n ↦ s ])
    of zero e = record { counts = i.counts; says = (h.0, e) }
    of (suc n) e = i
stop-IsSound waited s i h = record { counts = i.counts; says = (refl, h.1) }
stop-IsSound channel_closed s i h = i

Step-IsSound : {s t : Listening} → Step s t → IsSound s → IsSound t
unfolding let_in accept_returns handler_returns stop
Step-IsSound {s} (letting_in a) i = record {
  counts = let counts = i.counts in omega (arith, counts);
  says = Says-busy s.phase s _ (accepting-busy s i a) refl refl refl i.says;
}
Step-IsSound {s} (accept_returning a l d) i = record {
  counts = let counts = rw a at i.counts in omega (arith, counts);
  says = Says-busy s.phase s _ (accepting-busy s i a) refl refl refl i.says;
}
Step-IsSound {s} (handler_returning h) i = record {
  counts = let counts = i.counts in omega (arith, counts, h);
  says =
      Says-busy s.phase s _ (let counts = i.counts in omega (arith, counts, h)) refl refl refl
        i.says;
}
Step-IsSound {s} stopping i = stop-IsSound s.phase s i i.says

Steps-IsSound : {s : Listening} → Steps start s → IsSound s
unfolding start
Steps-IsSound none_yet = record { counts = refl; says = refl }
Steps-IsSound (then_one r s) = Step-IsSound s (Steps-IsSound r)

Says-open : (phase : Phase) (s : Listening) → Says phase s → 0 < s.wg → s.channel_open ≡ true
Says-open not_called s h busy = h
Says-open cancelled s h busy = h.0
Says-open listener_closed s h busy = h.0
Says-open waited s h busy = h.0
Says-open channel_closed s h busy = absurd (omega (arith, busy, h.1))

-- While a handler runs the channel of signals is open, however far a call of `Stop` is: no handler sends
-- on a closed channel.
pub handling-open : {s : Listening} → Steps start s → 0 < s.handlers → s.channel_open ≡ true
handling-open {s} r h =
    let i = Steps-IsSound r in
    let counts = i.counts in Says-open s.phase s i.says (omega (arith, counts, h))

Steps-trans : {s t u : Listening} → Steps s t → Steps t u → Steps s u
Steps-trans p none_yet = p
Steps-trans p (then_one q s) = then_one (Steps-trans p q) s

-- The goroutines can go on so that `Stop` returns, and then none of them is left.
pub record CanStop (s : Listening) : Type 0 where
  pub end : Listening
  pub way : Steps s end
  pub stopped : end.phase ≡ channel_closed
  pub idle : end.wg ≡ 0

CanStop-after : {s t : Listening} → Step s t → CanStop t → CanStop s
CanStop-after step c = record {
  end = c.end;
  way = Steps-trans (then_one none_yet step) c.way;
  stopped = c.stopped;
  idle = c.idle;
}

abbrev state : Phase → (d l a : Bool) (n w : ℕ) (c : Bool) → Listening
state phase d l a n w c = record {
  ctx_done = d;
  listener_open = l;
  accepting = a;
  handlers = n;
  wg = w;
  channel_open = c;
  phase = phase;
}

waited-CanStop : (d l a : Bool) (n w : ℕ) (c : Bool) → w ≡ 0 → CanStop (state waited d l a n w c)
unfolding stop stop_from
waited-CanStop d l a n w c e = record {
  end = _;
  way = then_one none_yet stopping;
  stopped = refl;
  idle = e;
}

idle-CanStop : (w : ℕ) (c : Bool) → w ≡ 0 → CanStop (state listener_closed true false false 0 w c)
unfolding stop stop_from
idle-CanStop zero c e = CanStop-after stopping (waited-CanStop true false false 0 0 c refl)
idle-CanStop (suc w) c e = absurd (omega (arith, e))

-- With the listener closed: the handlers return one after another, then the loop.
closed-CanStop :
    (a : Bool) (n w : ℕ) (c : Bool)
    → w ≡ running a + n
    → CanStop (state listener_closed true false a n w c)
unfolding accept_returns handler_returns
closed-CanStop false zero w c e = idle-CanStop w c e
closed-CanStop true zero w c e =
    CanStop-after (accept_returning refl refl refl) (idle-CanStop (w - 1) c (omega (arith, e)))
closed-CanStop a (suc n) w c e =
    let less : suc n - 1 ≡ n = omega arith in
    CanStop-after (handler_returning (omega arith))
      (rw less (closed-CanStop a n (w - 1) c (omega (arith, e))))

can_stop :
    (phase : Phase) (d l a : Bool) (n w : ℕ) (c : Bool)
    → w ≡ running a + n
    → Says phase (state phase d l a n w c)
    → CanStop (state phase d l a n w c)
unfolding stop stop_from
can_stop channel_closed d l a n w c e h = record {
  end = _;
  way = none_yet;
  stopped = refl;
  idle = h.1;
}
can_stop waited d l a n w c e h = waited-CanStop d l a n w c h.1
can_stop listener_closed d l a n w c e h = rw (h.1, h.2) (closed-CanStop a n w c e)
can_stop cancelled d l a n w c e h = CanStop-after stopping (rw h.1 (closed-CanStop a n w c e))
can_stop not_called d l a n w c e h =
    CanStop-after stopping (CanStop-after stopping (closed-CanStop a n w c e))

-- From every state that the server reaches, when its goroutines return `Stop` can run to its end: the
-- counter that it waits for comes down to 0.
pub stop-ends : {s : Listening} → Steps start s → CanStop s
stop-ends {s} r =
    let i = Steps-IsSound r in
    can_stop s.phase s.ctx_done s.listener_open s.accepting s.handlers s.wg s.channel_open i.counts
      i.says
