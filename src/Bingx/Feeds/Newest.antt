-- ===== src/Bingx/Feeds/Newest.antt =====
-- The channel and the latest book of a feed, over its runs; the poller's.
use mathlib.Core.Path.{subst}
use mathlib.Core.List.{append_assoc, append-nil}
use botbtc.Prelude.{
  ℕ, ◌≤◌, ◌<◌, ◌≡◌, refl, sym, ap, ◌∙◌, arith, Bool-cases, inl, inr, Option, none, some, List, [],
  ◌∷◌, ◌++◌, length, length-append, ltb, ltb→lt, lt→ltb,
}
use botbtc.Channel.{send_newest, drop_oldest}
use botbtc.Bingx.{BookTicker}
use botbtc.Bingx.Feeds.{Feed, new_feed, publish, poll, poller_capacity, take_book}

-- `kept` is `all` with some elements left out.
pub data IsPart {ℓ} {A : Type ℓ} : (kept all : List A) → Type ℓ where
  nothing : IsPart [] []
  skipped : {kept all : List A} (a : A) → IsPart kept all → IsPart kept (all ++ (a ∷ []))
  kept : {kept all : List A} (a : A) → IsPart kept all → IsPart (kept ++ (a ∷ [])) (all ++ (a ∷ []))

abbrev pub to_list {ℓ} : {A : Type ℓ} → Option A → List A
to_list none = []
to_list (some a) = a ∷ []

module _ {ℓ} {A : Type ℓ} where
  unfoldable pub last : List A → Option A
  last [] = none
  last (a ∷ []) = some a
  last (a ∷ b ∷ later) = last (b ∷ later)

  last-append : (xs : List A) (a : A) → last (xs ++ (a ∷ [])) ≡ some a
  unfolding last
  last-append [] a = refl
  last-append (x ∷ []) a = refl
  last-append (x ∷ y ∷ later) a = last-append (y ∷ later) a

  IsPart-append : (taken all later : List A) → IsPart taken all → IsPart taken (all ++ later)
  IsPart-append taken all [] h = subst (IsPart taken) (sym (append-nil all)) h
  IsPart-append taken all (a ∷ later) h =
      subst (IsPart taken) (append_assoc all (a ∷ []) later)
        (IsPart-append taken (all ++ (a ∷ [])) later (skipped a h))

  -- Sending the newest keeps the end of what was sent.
  record Sent (capacity : ℕ) (a : A) (queue queue' : List A) : Type ℓ where
    lost : List A
    splits : queue ++ (a ∷ []) ≡ lost ++ queue'
    fits : length queue' ≤ capacity

  send_newest-Sent :
      (capacity : ℕ) (a : A) (queue : List A)
      → 0 < capacity
      → length queue ≤ capacity
      → Sent capacity a queue (send_newest capacity a queue)
  unfolding send_newest
  send_newest-Sent capacity a [] some_room fits =
      rw (lt→ltb 0 capacity some_room) (record { lost = []; splits = refl; fits = omega arith })
  send_newest-Sent capacity a (x ∷ queue) some_room fits =
      elim (Bool-cases (ltb (length (x ∷ queue)) capacity)) [
        | inl e ↦ rw e (record {
          lost = [];
          splits = refl;
          fits =
              omega (arith, length-append queue (a ∷ []), ltb→lt (length (x ∷ queue)) capacity e);
        })
        | inr e ↦
            rw (e, lt→ltb (length queue) capacity (omega arith))
              (record {
                lost = x ∷ [];
                splits = refl;
                fits = omega (arith, length-append queue (a ∷ []));
              })
      ]

-- After the books of `published`, of which a reader of the channel took those of `taken`.
pub record IsNewest {F : Type 0} (capacity : ℕ) (published taken : List (BookTicker F)) (p : Feed F)
    : Type 0 where
  pub gone : List (BookTicker F)
  pub splits : published ≡ gone ++ p.book_ch
  pub in_order : IsPart taken gone
  pub fits : length p.book_ch ≤ capacity
  pub latest : p.latest_book ≡ last published

module _ {F : Type 0} where
  pub publish-IsNewest :
      (capacity : ℕ) (bt : BookTicker F) (published taken : List (BookTicker F)) (p : Feed F)
      → 0 < capacity
      → IsNewest capacity published taken p
      → IsNewest capacity (published ++ (bt ∷ [])) taken (publish capacity bt p)
  unfolding publish
  publish-IsNewest capacity bt published taken p some_room h =
      let s = send_newest-Sent capacity bt p.book_ch some_room h.fits in
      record {
        gone = h.gone ++ s.lost;
        splits =
            ap (λ l. l ++ (bt ∷ [])) h.splits
            ∙ append_assoc h.gone p.book_ch (bt ∷ [])
            ∙ ap (λ l. h.gone ++ l) s.splits
            ∙ sym (append_assoc h.gone s.lost (send_newest capacity bt p.book_ch));
        in_order = IsPart-append taken h.gone s.lost h.in_order;
        fits = s.fits;
        latest = sym (last-append published bt);
      }

  pub take_book-IsNewest :
      (capacity : ℕ) (bt : BookTicker F) (queue published taken : List (BookTicker F)) (p : Feed F)
      → p.book_ch ≡ bt ∷ queue
      → IsNewest capacity published taken p
      → IsNewest capacity published (taken ++ (bt ∷ [])) (take_book p)
  unfolding take_book
  take_book-IsNewest capacity bt queue published taken p e h =
      let rest : drop_oldest p.book_ch ≡ queue = rw e refl in
      record {
        gone = h.gone ++ (bt ∷ []);
        splits =
            h.splits
            ∙ ap (λ l. h.gone ++ l) e
            ∙ sym (append_assoc h.gone (bt ∷ []) queue)
            ∙ ap (λ l. (h.gone ++ (bt ∷ [])) ++ l) (sym rest);
        in_order = kept bt h.in_order;
        fits = rw rest (omega (arith, rw e at h.fits));
        latest = h.latest;
      }

  -- The run of a poller: answers of the exchange, and books that are taken from the channel.
  pub data Polls : (published taken : List (BookTicker F)) → Feed F → Type 0 where
    start : Polls [] [] new_feed
    polled :
        {published taken : List (BookTicker F)} {p : Feed F} (answer : Option (BookTicker F))
        → Polls published taken p
        → Polls (published ++ to_list answer) taken (poll answer p)
    took :
        {published taken : List (BookTicker F)} {p : Feed F} (bt : BookTicker F)
        (queue : List (BookTicker F))
        → Polls published taken p
        → p.book_ch ≡ bt ∷ queue
        → Polls published (taken ++ (bt ∷ [])) (take_book p)

  pub new_feed-IsNewest : (capacity : ℕ) → IsNewest {F = F} capacity [] [] new_feed
  unfolding last
  new_feed-IsNewest capacity = record {
    gone = [];
    splits = refl;
    in_order = nothing;
    fits = omega arith;
    latest = refl;
  }

  poll-IsNewest :
      (answer : Option (BookTicker F)) (published taken : List (BookTicker F)) (p : Feed F)
      → IsNewest poller_capacity published taken p
      → IsNewest poller_capacity (published ++ to_list answer) taken (poll answer p)
  unfolding poll
  poll-IsNewest none published taken p h =
      subst (λ l. IsNewest poller_capacity l taken p) (sym (append-nil published)) h
  poll-IsNewest (some bt) published taken p h =
      publish-IsNewest poller_capacity bt published taken p (omega arith) h

  -- Whatever the exchange answers and however slowly the channel is read, the poller's channel holds the
  -- newest of the fetched books, at most 64; those taken from it came in order and none twice, and the
  -- latest book is the last one fetched.
  pub poller-IsNewest :
      {published taken : List (BookTicker F)} {p : Feed F}
      → Polls published taken p
      → IsNewest poller_capacity published taken p
  poller-IsNewest start = new_feed-IsNewest poller_capacity
  poller-IsNewest (polled {published} {taken} {p} answer run) =
      poll-IsNewest answer published taken p (poller-IsNewest run)
  poller-IsNewest (took {published} {taken} {p} bt queue run e) =
      take_book-IsNewest poller_capacity bt queue published taken p e (poller-IsNewest run)
