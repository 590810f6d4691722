-- ===== src/Bridge/Parsing.antt =====
-- What `ParseSignal` accepts, and what the fields of an accepted signal are.
use botbtc.Prelude.{
  ℤ, ◌≡◌, ◌≢◌, ◌⊎◌, refl, ap, arith, Bool-cases, Option-cases, inl, inr, Bool, true, false, not,
  ◌&&◌, Option, none, some, String, List, [], ◌∷◌, str_eq, eq_iff,
}
use botbtc.Float.{Float64, zero_f}
use botbtc.Model.{Signal}
use botbtc.Bridge.{
  CustomSignal, Json, err_heartbeat, bad_json, missing_id, invalid_side, Parsed, parsed, failed,
  side_of, with_custom, with_price, validated, parse_signal, is_heartbeat,
}
use botbtc.Bridge.Words.{
  first_text, first_int, IsSide, same_text, resolve_side_lem, or_int_lem, text_unless_empty,
  int_unless_zero,
}

beat-cases :
    (kind : Option String)
    → let beats : Bool = elim kind [ none ↦ false | some k ↦ str_eq k "heartbeat" ] in
      ((kind ≡ some "heartbeat") × (beats ≡ true)) ⊎ ((kind ≢ some "heartbeat") × (beats ≡ false))
beat-cases none = inr (grind arith, refl)
beat-cases (some k) = elim (Bool-cases (str_eq k "heartbeat")) [
  | inl e ↦ inl (ap some (same_text k "heartbeat" e), e)
  | inr e ↦ inr ((λ h. grind (arith, e, eq_iff k "heartbeat")), e)
]

module _ {F : Type 0} ⦃fl : Float64 F⦄ where
  -- The texts and times of the second reading of a message, when there is one.
  abbrev pub other_sides : Option (CustomSignal F) → List String
  other_sides none = []
  other_sides (some custom) = custom.side ∷ side_of custom.signal ∷ []

  abbrev pub other_times : Option (CustomSignal F) → List ℤ
  other_times none = []
  other_times (some custom) = custom.timestamp_ms ∷ []

  -- A signal that was made of the two readings of a message.
  pub record IsResolved (raw : Signal F) (custom : Option (CustomSignal F)) (sig : Signal F)
      : Type 0 where
    pub id : sig.signal_id ≡ raw.signal_id
    pub book : (sig.bid ≡ raw.bid) × (sig.ask ≡ raw.ask)
    pub side : sig.side ≡ first_text (raw.side ∷ other_sides custom)
    pub tick : sig.t0_tick_ms ≡ first_int (raw.t0_tick_ms ∷ other_times custom)
    pub sent : sig.t1_signal_ms ≡ first_int (raw.t1_signal_ms ∷ other_times custom)
    pub price :
        (sig.signal_price ≡ raw.signal_price)
        ⊎ (sig.signal_price ≡ fl.div (fl.add raw.bid raw.ask) (fl.literal 2 0))

  pub data Judgement (sig : Signal F) : Parsed F → Type 0 where
    no_id : sig.signal_id ≡ "" → Judgement sig (failed missing_id)
    bad_side :
        sig.signal_id ≢ "" → ¬ IsSide sig.side → Judgement sig (failed (invalid_side sig.side))
    fine : sig.signal_id ≢ "" → IsSide sig.side → Judgement sig (parsed sig)

  validated-Judgement : (sig : Signal F) → Judgement sig (validated sig)
  unfolding validated
  validated-Judgement sig = elim (Bool-cases (str_eq sig.signal_id "")) [
    | inl e ↦ rw e (no_id (same_text sig.signal_id "" e))
    | inr e ↦ elim (Bool-cases (not (str_eq sig.side "BUY") && not (str_eq sig.side "SELL"))) [
      | inl e' ↦
          rw (e, e')
            (bad_side (λ h. ground (arith, eq_iff sig.signal_id ""))
              (λ h. ground (arith, eq_iff sig.side "BUY", eq_iff sig.side "SELL")))
      | inr e' ↦
          rw (e, e')
            (fine (λ h. ground (arith, eq_iff sig.signal_id ""))
              (ground (arith, eq_iff sig.side "BUY", eq_iff sig.side "SELL")))
    ]
  ]

  with_price-IsResolved :
      (raw : Signal F) (custom : Option (CustomSignal F)) (sig : Signal F)
      → IsResolved raw custom sig
      → sig.signal_price ≡ raw.signal_price
      → IsResolved raw custom (with_price sig)
  unfolding with_price
  with_price-IsResolved raw custom sig r same =
      elim (Bool-cases (
        fl.eq sig.signal_price zero_f
        && (not (fl.eq sig.bid zero_f) && not (fl.eq sig.ask zero_f)))) [
          | inl e ↦ rw e (record {
            id = r.id;
            book = r.book;
            side = r.side;
            tick = r.tick;
            sent = r.sent;
            price = inr (rw (r.book.0, r.book.1) refl);
          })
          | inr e ↦ rw e r
        ]

  with_custom-IsResolved :
      (raw : Signal F) (custom : CustomSignal F)
      → IsResolved raw (some custom) (with_custom custom raw)
  unfolding with_custom
  with_custom-IsResolved raw custom = record {
    id = refl;
    book = (refl, refl);
    side = resolve_side_lem custom raw.side;
    tick = or_int_lem raw.t0_tick_ms custom.timestamp_ms;
    sent = or_int_lem raw.t1_signal_ms custom.timestamp_ms;
    price = inl refl;
  }

  with_custom-price :
      (raw : Signal F) (custom : CustomSignal F)
      → (with_custom custom raw).signal_price ≡ raw.signal_price
  unfolding with_custom
  with_custom-price raw custom = refl

  plain-IsResolved : (raw : Signal F) → IsResolved raw none raw
  plain-IsResolved raw = record {
    id = refl;
    book = (refl, refl);
    side = text_unless_empty raw.side;
    tick = int_unless_zero raw.t0_tick_ms;
    sent = int_unless_zero raw.t1_signal_ms;
    price = inl refl;
  }

  -- Both readings into one signal.
  unfoldable pub resolved : Signal F → Option (CustomSignal F) → Signal F
  resolved raw none = with_price raw
  resolved raw (some custom) = with_price (with_custom custom raw)

  resolved-IsResolved :
      (raw : Signal F) (custom : Option (CustomSignal F))
      → IsResolved raw custom (resolved raw custom)
  unfolding resolved
  resolved-IsResolved raw none = with_price-IsResolved raw none raw (plain-IsResolved raw) refl
  resolved-IsResolved raw (some custom) =
      with_price-IsResolved raw (some custom) (with_custom custom raw)
        (with_custom-IsResolved raw custom) (with_custom-price raw custom)

  module _ {Bytes : Type 0} (json : Json F Bytes) where
    pub data Outcome (line : Bytes) : Parsed F → Type 0 where
      heartbeat : json.base_type line ≡ some "heartbeat" → Outcome line (failed err_heartbeat)
      unreadable :
          json.base_type line ≢ some "heartbeat"
          → json.signal line ≡ none
          → Outcome line (failed bad_json)
      read :
          {result : Parsed F} (raw sig : Signal F)
          → json.base_type line ≢ some "heartbeat"
          → json.signal line ≡ some raw
          → IsResolved raw (json.custom_signal line) sig
          → Judgement sig result
          → Outcome line result

    parsed-Judgement :
        (raw : Signal F) (custom : Option (CustomSignal F))
        → Judgement
            (resolved raw custom)
            (validated (with_price (elim custom [ none ↦ raw | some c ↦ with_custom c raw ])))
    unfolding resolved
    parsed-Judgement raw none = validated-Judgement (with_price raw)
    parsed-Judgement raw (some custom) = validated-Judgement (with_price (with_custom custom raw))

    heartbeat-cases :
        (line : Bytes)
        → ((json.base_type line ≡ some "heartbeat") × (is_heartbeat json line ≡ true))
          ⊎ ((json.base_type line ≢ some "heartbeat") × (is_heartbeat json line ≡ false))
    heartbeat-cases line = beat-cases (json.base_type line)

    -- A message is a heartbeat, unreadable, or one of three: with the id of the first reading, the first
    -- side that is not empty among its own and those of the second reading (LONG and SHORT taken as BUY
    -- and SELL), and the first times that are not 0, it is refused without an id, refused with a side
    -- that is neither BUY nor SELL, or accepted with an id and one of these sides.
    pub parse_signal_lem : (line : Bytes) → Outcome line (parse_signal json line)
    unfolding parse_signal
    parse_signal_lem line = elim (heartbeat-cases line) [
      | inl (e, is_beat) ↦ rw is_beat (heartbeat e)
      | inr (e, no_beat) ↦ elim (Option-cases (json.signal line)) [
        | inl e' ↦ rw (no_beat, e') (unreadable e e')
        | inr (raw, e') ↦
            rw (no_beat, e')
              (read raw (resolved raw (json.custom_signal line)) e e'
                (resolved-IsResolved raw (json.custom_signal line))
                (parsed-Judgement raw (json.custom_signal line)))
      ]
    ]
