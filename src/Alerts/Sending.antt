-- ===== src/Alerts/Sending.antt =====
-- What an alert sends, and when it fails.
use botbtc.Prelude.{
  ℤ, pos, ◌≡◌, ◌≢◌, ap, ◌↔◌, refl, arith, Bool-cases, Option-cases, inl, inr, true, false, Option,
  none, some, String, List, [], ◌∷◌, ◌++◌, eq_ℤ, eq_iff, ◌⊎◌, concat,
}
use botbtc.Alerts.{
  AlertSender, TelegramPayload, AlertError, not_marshalled, not_created, Telegram, message_url,
  payload_of, is_silent, status_error, send,
}

failed : {e : AlertError} → ◌≢◌ {A = Option AlertError} (some e) none
failed h = grind (arith, h)

eq_code : (code : ℤ) → eq_ℤ code (pos 200) ≡ true → code ≡ pos 200
eq_code code h = ground (arith, h)

status_error-none : (status : Option ℤ) → (status_error status ≡ none) ↔ (status ≡ some (pos 200))
unfolding status_error
status_error-none none = (λ h. absurd (failed h), λ h. absurd (grind (arith, h)))
status_error-none (some code) = elim (Bool-cases (eq_ℤ code (pos 200))) [
  | inl e ↦ rw e (λ h. ap some (eq_code code e), λ h. refl)
  | inr e ↦ rw e (λ h. absurd (failed h), λ h. absurd (grind (arith, e, h)))
]

-- A message as it leaves: where it is posted, and its body.
abbrev pub Post : Type 0 → Type 0
Post Bytes = String × Bytes

-- The interface with what was posted, oldest first, beside the state of the outside.
unfoldable pub posting :
    {E Bytes : Type 0} → Telegram E Bytes → Telegram (List (Post Bytes) × E) Bytes
posting net = record {
  marshal = net.marshal;
  builds = net.builds;
  post = λ url body s.
      ((net.post url body s.1).0, (s.0 ++ ((url, body) ∷ []), (net.post url body s.1).1));
}

-- Nothing is to be sent: the sender is disabled or has no token.
abbrev pub IsOff : AlertSender → Type 0
IsOff a = (a.enabled ≡ false) ⊎ (a.bot_token ≡ "")

abbrev pub IsOn : AlertSender → Type 0
IsOn a = (a.enabled ≡ true) × (a.bot_token ≢ "")

is_silent-IsOff : (a : AlertSender) → is_silent a ≡ true → IsOff a
is_silent-IsOff a h = ground (arith, h, eq_iff a.bot_token "")

is_silent-IsOn : (a : AlertSender) → is_silent a ≡ false → IsOn a
is_silent-IsOn a h = ground (arith, h, eq_iff a.bot_token "")

-- The address of the bot, and the message for the sender's chat.
abbrev pub bot_address : (token : String) → String
bot_address token = concat "https://api.telegram.org/bot" (concat token "/sendMessage")

abbrev pub message : (chat_id text : String) → TelegramPayload
message chat_id text = record { chat_id = chat_id; text = text; parse_mode = "HTML" }

module _ {E Bytes : Type 0} (net : Telegram E Bytes) (a : AlertSender) (text : String)
    (log : List (Post Bytes)) (e : E) where
  -- How sending ended: with nothing posted, silently or by an error before the request; or with one post of
  -- the text to the bot's address, and no error exactly when the answer's status is 200.
  pub data Sending : Option AlertError → List (Post Bytes) → Type 0 where
    silent : IsOff a → Sending none log
    unmarshalled :
        IsOn a → net.marshal (message a.chat_id text) ≡ none → Sending (some not_marshalled) log
    unbuilt :
        (body : Bytes)
        → IsOn a
        → net.marshal (message a.chat_id text) ≡ some body
        → net.builds (bot_address a.bot_token) ≡ false
        → Sending (some not_created) log
    posted :
        (body : Bytes) (result : Option AlertError)
        → IsOn a
        → net.marshal (message a.chat_id text) ≡ some body
        → net.builds (bot_address a.bot_token) ≡ true
        → (result ≡ none) ↔ ((net.post (bot_address a.bot_token) body e).0 ≡ some (pos 200))
        → Sending result (log ++ ((bot_address a.bot_token, body) ∷ []))

  -- An alert, whatever its text, is sent to nobody and without an error exactly while the sender is
  -- disabled or has no token; otherwise it fails before the request with nothing posted, because the
  -- message cannot be made as JSON or the request cannot be built, or it is posted once, for the sender's
  -- chat, to the address of its token, and then there is no error exactly when the answer's status is 200.
  pub send-Sending : let (result, s) = send (posting net) a text (log, e) in Sending result s.0
  unfolding send posting
  send-Sending = elim (Bool-cases (is_silent a)) [
    | inl h ↦ rw (send, h) (silent (is_silent-IsOff a h))
    | inr h ↦
        let on = is_silent-IsOn a h in
        elim (Option-cases (net.marshal (payload_of a text))) [
          | inl h' ↦ rw (send, posting, h, h') (unmarshalled on h')
          | inr (body, h') ↦ elim (Bool-cases (net.builds (message_url a))) [
            | inr h'' ↦ rw (send, posting, h, h', h'') (unbuilt body on h' h'')
            | inl h'' ↦
                rw (send, posting, h, h', h'')
                  (posted body _ on h' h'' (status_error-none (net.post (message_url a) body e).0))
          ]
        ]
  ]
