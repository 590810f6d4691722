-- ===== src/Bridge/Server/Replies.antt =====
-- The replies of `handleConnection`, and the signals that it passes on.
use mathlib.Core.Path.{subst}
use mathlib.Core.List.{append_assoc, append-nil}
use botbtc.Prelude.{
  ◌≡◌, ◌⊎◌, refl, sym, ap, ◌∙◌, arith, Bool-cases, Option-cases, inl, inr, Bool, true, false,
  String, List, [], ◌∷◌, ◌++◌, if◌then◌else◌,
}
use botbtc.Float.{Float64}
use botbtc.Model.{Signal}
use botbtc.Bridge.{
  Json, ParseError, err_heartbeat, bad_json, missing_id, invalid_side, Parsed, parsed, failed,
  parse_signal, build_ack,
}
use botbtc.Bridge.Parsing.{Outcome, Judgement, parse_signal_lem}
use botbtc.Bridge.Server.{
  Connection, Read, cancelled, timed_out, ended, scanned, new_connection, acknowledge, refuse,
  serve, handle_connection,
}
use botbtc.Bridge.Server.Answers.{
  IsValid, of_cancelled, of_timed_out, of_ended, of_blank, of_heartbeat, of_no_ack, Answered,
  nothing, quiet, refused, accepted, IsAnswered,
}

module _ {F Bytes : Type 0} ⦃fl : Float64 F⦄ (json : Json F Bytes) (is_empty : Bytes → Bool) where
  parsed-IsValid : {line : Bytes} {sig : Signal F} → Outcome json line (parsed sig) → IsValid sig
  parsed-IsValid (Outcome.read raw sig e e' r (Judgement.fine has_id side)) = (has_id, side)

  IsAnswered-open :
      (reads : List (Read Bytes)) (c : Connection F)
      → IsAnswered json is_empty reads c
      → c.is_open ≡ true
      → Answered json is_empty reads c.written c.forwarded
  IsAnswered-open reads c h is_open = elim h.complete [
    | inl e ↦
        subst (Answered json is_empty reads c.written)
          (ap (λ l. c.forwarded ++ l) e ∙ append-nil c.forwarded) h.answered
    | inr (closed, last) ↦ absurd (grind (arith, is_open, closed))
  ]

  passed_on :
      (reads : List (Read Bytes)) (c : Connection F)
      → Answered json is_empty reads c.written c.forwarded
      → IsAnswered json is_empty reads c
  passed_on reads c h = record {
    pending = [];
    answered = subst (Answered json is_empty reads c.written) (sym (append-nil c.forwarded)) h;
    complete = inl refl;
  }

  module _ (reads : List (Read Bytes)) (line : Bytes) (reply_written delivered : Bool)
      (c : Connection F) (full : is_empty line ≡ false)
      (h : Answered json is_empty reads c.written c.forwarded) where
    abbrev after : List (Read Bytes)
    after = reads ++ (scanned line reply_written delivered ∷ [])

    refuse-IsAnswered :
        (e : ParseError)
        → parse_signal json line ≡ failed e
        → IsAnswered json is_empty after (refuse json e c)
    unfolding refuse
    refuse-IsAnswered err_heartbeat is_e = passed_on after c (
        quiet (scanned line reply_written delivered) h
          (of_heartbeat line reply_written delivered full is_e))
    refuse-IsAnswered bad_json is_e =
        passed_on after (refuse json bad_json c)
          (refused line reply_written delivered bad_json h full is_e (grind arith))
    refuse-IsAnswered missing_id is_e =
        passed_on after (refuse json missing_id c)
          (refused line reply_written delivered missing_id h full is_e (grind arith))
    refuse-IsAnswered (invalid_side side) is_e =
        passed_on after (refuse json (invalid_side side) c)
          (refused line reply_written delivered (invalid_side side) h full is_e (grind arith))

    replied-IsAnswered :
        (sig : Signal F) (ack : String) (is_written is_delivered : Bool)
        → Answered json is_empty after (c.written ++ (ack ∷ [])) (c.forwarded ++ (sig ∷ []))
        → IsAnswered json is_empty after (
            let c' = record c { written = c.written ++ (ack ∷ []) } in
            if is_written
            then (if is_delivered
                then record c' { forwarded = c.forwarded ++ (sig ∷ []) }
                else record c' { is_open = false })
            else record c' { is_open = false })
    replied-IsAnswered sig ack true true h' =
        passed_on after
          (record c { written = c.written ++ (ack ∷ []); forwarded = c.forwarded ++ (sig ∷ []) }) h'
    replied-IsAnswered sig ack true false h' = record {
      pending = sig ∷ [];
      answered = h';
      complete = inr (refl, (sig, refl));
    }
    replied-IsAnswered sig ack false is_delivered h' = record {
      pending = sig ∷ [];
      answered = h';
      complete = inr (refl, (sig, refl));
    }

    acknowledge-IsAnswered :
        (sig : Signal F)
        → parse_signal json line ≡ parsed sig
        → IsValid sig
        → IsAnswered json is_empty after (acknowledge json sig reply_written delivered c)
    unfolding acknowledge
    acknowledge-IsAnswered sig is_sig valid =
        elim (Option-cases (build_ack json sig.signal_id "OK")) [
          | inl e ↦
              rw (acknowledge, e)
                (passed_on after c (
                  quiet (scanned line reply_written delivered) h
                    (of_no_ack line reply_written delivered sig full is_sig e)))
          | inr (ack, e) ↦
              rw (acknowledge, e)
                (replied-IsAnswered sig ack reply_written delivered
                  (accepted line reply_written delivered sig ack h full is_sig valid e))
        ]

    answer-IsAnswered :
        (result : Parsed F)
        → parse_signal json line ≡ result
        → Outcome json line result
        → IsAnswered json is_empty after (elim result [
          | failed e ↦ refuse json e c
          | parsed sig ↦ acknowledge json sig reply_written delivered c
        ])
    answer-IsAnswered (failed e) is_e o = refuse-IsAnswered e is_e
    answer-IsAnswered (parsed sig) is_sig o = acknowledge-IsAnswered sig is_sig (parsed-IsValid o)

  serve-IsAnswered :
      (reads : List (Read Bytes)) (r : Read Bytes) (c : Connection F)
      → Answered json is_empty reads c.written c.forwarded
      → IsAnswered json is_empty (reads ++ (r ∷ [])) (serve json is_empty r c)
  unfolding serve
  serve-IsAnswered reads cancelled c h =
      passed_on (reads ++ (cancelled ∷ [])) (record c { is_open = false })
        (quiet cancelled h of_cancelled)
  serve-IsAnswered reads timed_out c h =
      passed_on (reads ++ (timed_out ∷ [])) c (quiet timed_out h of_timed_out)
  serve-IsAnswered reads ended c h =
      passed_on (reads ++ (ended ∷ [])) (record c { is_open = false }) (quiet ended h of_ended)
  serve-IsAnswered reads (scanned line reply_written delivered) c h =
      elim (Bool-cases (is_empty line)) [
        | inl e ↦
            rw (serve, e)
              (passed_on (reads ++ (scanned line reply_written delivered ∷ [])) c (
                quiet (scanned line reply_written delivered) h
                  (of_blank line reply_written delivered e)))
        | inr e ↦
            rw (serve, e)
              (answer-IsAnswered reads line reply_written delivered c e h (parse_signal json line)
                refl (parse_signal_lem json line))
      ]

  -- The rounds that were taken: all, unless the connection closed.
  pub record IsServed (reads : List (Read Bytes)) (c : Connection F) : Type 0 where
    pub taken : List (Read Bytes)
    pub left : List (Read Bytes)
    pub splits : taken ++ left ≡ reads
    pub until_closed : (left ≡ []) ⊎ (c.is_open ≡ false)
    pub replies : IsAnswered json is_empty taken c

  handle_connection-IsServed :
      (before reads : List (Read Bytes)) (c : Connection F)
      → IsAnswered json is_empty before c
      → c.is_open ≡ true
      → IsServed (before ++ reads) (handle_connection json is_empty reads c)
  unfolding handle_connection
  handle_connection-IsServed before [] c h is_open = record {
    taken = before;
    left = [];
    splits = refl;
    until_closed = inl refl;
    replies = h;
  }
  handle_connection-IsServed before (r ∷ later) c h is_open =
      let c' = serve json is_empty r c in
      let h' = serve-IsAnswered before r c (IsAnswered-open before c h is_open) in
      let splits = append_assoc before (r ∷ []) later in
      elim (Bool-cases c'.is_open) [
        | inl e ↦
            rw (handle_connection, e)
              (subst (λ l. IsServed l (handle_connection json is_empty later c')) splits
                (handle_connection-IsServed (before ++ (r ∷ [])) later c' h' e))
        | inr e ↦
            rw (handle_connection, e)
              (record {
                taken = before ++ (r ∷ []);
                left = later;
                splits = splits;
                until_closed = inr e;
                replies = h';
              })
      ]

  -- Whatever a new connection reads, its rounds are taken in order until it closes; an empty line and a
  -- heartbeat get no reply, and every other message gets its reply, in order: OK for a signal, which has an id and
  -- the side BUY or SELL, and an error for the rest; only a signal whose OK cannot be made as JSON gets
  -- none and is not passed on. The signals that were answered with OK are those that went to the
  -- channel, in that order; a last one may be missing there when the connection closed.
  pub handle_connection_lem :
      (reads : List (Read Bytes))
      → IsServed reads (handle_connection json is_empty reads new_connection)
  handle_connection_lem reads =
      handle_connection-IsServed [] reads new_connection (passed_on [] new_connection nothing) refl
