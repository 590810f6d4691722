-- ===== src/Bingx/Feeds/Stream.antt =====
-- What the WebSocket client makes of the messages of its sessions.
use mathlib.Core.Path.{subst}
use mathlib.Core.List.{append-nil}
use botbtc.Prelude.{
  ◌≡◌, sym, arith, Option-cases, inl, inr, ℤ, Bool, true, false, Option, none, some, String, List,
  [], ◌∷◌, ◌++◌,
}
use botbtc.Bingx.{BookTicker}
use botbtc.Bingx.Feeds.{
  Feed, new_feed, ws_capacity, take_book, Wire, decompressed, handle_ping_pong,
  parse_book_ticker_ws, handle_message, read_messages, connect_and_stream, Session, ws_start,
}
use botbtc.Bingx.Feeds.Newest.{
  IsNewest, to_list, new_feed-IsNewest, publish-IsNewest, take_book-IsNewest,
}

module _ {F Bytes : Type 0} (wire : Wire F Bytes) where
  -- The book of a message, with the time at which it came: none for a ping or one that cannot be read.
  unfoldable pub book_of : (now_ms : ℤ) → Bytes → Option (BookTicker F)
  book_of now_ms raw =
      let msg = decompressed wire raw in
      elim (handle_ping_pong wire msg) [
        | some reply ↦ none
        | none ↦ elim (parse_book_ticker_ws wire now_ms msg) [
          | none ↦ none
          | some bt ↦ some (record bt { timestamp = now_ms })
        ]
      ]

  -- Sessions of the client and takings from its channel. A session that ends, and the next that
  -- begins, leave the feed as it is.
  pub data Streams : (published taken : List (BookTicker F)) → Feed F → Type 0 where
    start : Streams [] [] new_feed
    received :
        {published taken : List (BookTicker F)} {w : Feed F} (now_ms : ℤ) (raw : Bytes)
        → Streams published taken w
        → Streams
            (published ++ to_list (book_of now_ms raw))
            taken
            (handle_message wire now_ms raw w).0
    took :
        {published taken : List (BookTicker F)} {w : Feed F} (bt : BookTicker F)
        (queue : List (BookTicker F))
        → Streams published taken w
        → w.book_ch ≡ bt ∷ queue
        → Streams published (taken ++ (bt ∷ [])) (take_book w)

  handle_message-IsNewest :
      (now_ms : ℤ) (raw : Bytes) (published taken : List (BookTicker F)) (w : Feed F)
      → IsNewest ws_capacity published taken w
      → IsNewest ws_capacity
          (published ++ to_list (book_of now_ms raw))
          taken
          (handle_message wire now_ms raw w).0
  unfolding handle_message book_of
  handle_message-IsNewest now_ms raw published taken w h =
      let msg = decompressed wire raw in
      let kept = subst (λ l. IsNewest ws_capacity l taken w) (sym (append-nil published)) h in
      elim (Option-cases (handle_ping_pong wire msg)) [
        | inr (reply, e) ↦ rw (handle_message, book_of, e) kept
        | inl e ↦ elim (Option-cases (parse_book_ticker_ws wire now_ms msg)) [
          | inl e' ↦ rw (handle_message, book_of, e, e') kept
          | inr (bt, e') ↦
              rw (handle_message, book_of, e, e')
                (publish-IsNewest ws_capacity (record bt { timestamp = now_ms }) published taken w
                  (omega arith) h)
        ]
      ]

  -- Whatever messages come and however slowly the channel is read, the WebSocket client's channel holds
  -- the newest of the books that could be read, at most 256; those taken from it came in order and none
  -- twice, and the latest book is the last one that came.
  pub stream-IsNewest :
      {published taken : List (BookTicker F)} {w : Feed F}
      → Streams published taken w
      → IsNewest ws_capacity published taken w
  stream-IsNewest start = new_feed-IsNewest ws_capacity
  stream-IsNewest (received {published} {taken} {w} now_ms raw run) =
      handle_message-IsNewest now_ms raw published taken w (stream-IsNewest run)
  stream-IsNewest (took {published} {taken} {w} bt queue run e) =
      take_book-IsNewest ws_capacity bt queue published taken w e (stream-IsNewest run)

  -- A run of the sessions of `Start` is one of the runs above.
  pub record IsStreamed (taken : List (BookTicker F)) (w : Feed F) : Type 0 where
    pub published : List (BookTicker F)
    pub run : Streams published taken w

  read_messages-IsStreamed :
      (messages : List (ℤ × Bytes)) (taken : List (BookTicker F)) (w : Feed F)
      → IsStreamed taken w
      → IsStreamed taken (read_messages wire messages w).0
  unfolding read_messages
  read_messages-IsStreamed [] taken w s = s
  read_messages-IsStreamed ((now_ms, raw) ∷ later) taken w s =
      read_messages-IsStreamed later taken (handle_message wire now_ms raw w).0
        (record { published = _; run = received now_ms raw s.run })

  session-IsStreamed :
      (symbol : String) (dialled subscribed : Bool) (messages : List (ℤ × Bytes))
      (taken : List (BookTicker F)) (w : Feed F)
      → IsStreamed taken w
      → IsStreamed taken (connect_and_stream wire symbol dialled subscribed messages w).0
  unfolding connect_and_stream
  session-IsStreamed symbol true true messages taken w s =
      read_messages-IsStreamed messages taken w s
  session-IsStreamed symbol true false messages taken w s = s
  session-IsStreamed symbol false subscribed messages taken w s = s

  -- Sessions that begin and end in any way, failures to dial or subscribe included, lead from a feed that
  -- such a run reaches to another one.
  pub ws_start-IsStreamed :
      (symbol : String) (sessions : List (Session Bytes)) (taken : List (BookTicker F)) (w : Feed F)
      → IsStreamed taken w
      → IsStreamed taken (ws_start wire symbol sessions w).0
  unfolding ws_start
  ws_start-IsStreamed symbol [] taken w s = s
  ws_start-IsStreamed symbol (session ∷ later) taken w s =
      ws_start-IsStreamed symbol later taken _
        (session-IsStreamed symbol session.dialled session.subscribed session.messages taken w s)
