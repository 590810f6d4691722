-- ===== src/Bridge/Server/Answers.antt =====
-- What a connection that answers its messages has written and passed on.
use botbtc.Prelude.{◌≡◌, ◌≢◌, ◌⊎◌, Bool, true, false, none, some, String, List, [], ◌∷◌, ◌++◌}
use botbtc.Float.{Float64}
use botbtc.Model.{Signal}
use botbtc.Bridge.{Json, ParseError, err_heartbeat, parsed, failed, parse_signal, build_ack}
use botbtc.Bridge.Words.{IsSide}
use botbtc.Bridge.Server.{Connection, Read, cancelled, timed_out, ended, scanned, text_or_empty}

-- An id, and a side that is BUY or SELL.
abbrev pub IsValid : {F : Type 0} → Signal F → Type 0
IsValid sig = (sig.signal_id ≢ "") × IsSide sig.side

module _ {F Bytes : Type 0} ⦃fl : Float64 F⦄ (json : Json F Bytes) (is_empty : Bytes → Bool) where
  -- Rounds without a reply; the last is one whose reply could not be made.
  pub data IsQuiet : Read Bytes → Type 0 where
    of_cancelled : IsQuiet cancelled
    of_timed_out : IsQuiet timed_out
    of_ended : IsQuiet ended
    of_blank :
        (line : Bytes) (reply_written delivered : Bool)
        → is_empty line ≡ true
        → IsQuiet (scanned line reply_written delivered)
    of_heartbeat :
        (line : Bytes) (reply_written delivered : Bool)
        → is_empty line ≡ false
        → parse_signal json line ≡ failed err_heartbeat
        → IsQuiet (scanned line reply_written delivered)
    of_no_ack :
        (line : Bytes) (reply_written delivered : Bool) (sig : Signal F)
        → is_empty line ≡ false
        → parse_signal json line ≡ parsed sig
        → build_ack json sig.signal_id "OK" ≡ none
        → IsQuiet (scanned line reply_written delivered)

  -- The rounds so far, what they wrote, and the signals that were answered with OK, in their order.
  pub data Answered : List (Read Bytes) → List String → List (Signal F) → Type 0 where
    nothing : Answered [] [] []
    quiet :
        {reads : List (Read Bytes)} {written : List String} {sigs : List (Signal F)}
        (r : Read Bytes)
        → Answered reads written sigs
        → IsQuiet r
        → Answered (reads ++ (r ∷ [])) written sigs
    refused :
        {reads : List (Read Bytes)} {written : List String} {sigs : List (Signal F)} (line : Bytes)
        (reply_written delivered : Bool) (e : ParseError)
        → Answered reads written sigs
        → is_empty line ≡ false
        → parse_signal json line ≡ failed e
        → e ≢ err_heartbeat
        → Answered
            (reads ++ (scanned line reply_written delivered ∷ []))
            (written ++ (text_or_empty (build_ack json "" "ERROR") ∷ []))
            sigs
    accepted :
        {reads : List (Read Bytes)} {written : List String} {sigs : List (Signal F)} (line : Bytes)
        (reply_written delivered : Bool) (sig : Signal F) (ack : String)
        → Answered reads written sigs
        → is_empty line ≡ false
        → parse_signal json line ≡ parsed sig
        → IsValid sig
        → build_ack json sig.signal_id "OK" ≡ some ack
        → Answered
            (reads ++ (scanned line reply_written delivered ∷ []))
            (written ++ (ack ∷ []))
            (sigs ++ (sig ∷ []))

  -- Every answered signal was passed on in its place, but possibly the last of a closed connection.
  pub record IsAnswered (reads : List (Read Bytes)) (c : Connection F) : Type 0 where
    pub pending : List (Signal F)
    pub answered : Answered reads c.written (c.forwarded ++ pending)
    pub complete :
        (pending ≡ []) ⊎ ((c.is_open ≡ false) × ((sig : Signal F) × (pending ≡ sig ∷ [])))
