-- ===== src/Bingx/Live/Requests.antt =====
-- When a request of the live client ends with a body, and what a signed request carries.
use botbtc.Prelude.{
  ℤ, pos, ◌≤ℤ◌, ◌<ℤ◌, ltb_ℤ, leb_ℤ, eq_ℤ, sub64, ◌≡◌, ◌≢◌, ◌↔◌, ◌⊎◌, refl, ap, ◌∙◌, arith,
  Bool-cases, Option-cases, inl, inr, Bool, true, false, ◌||◌, Option, none, some, String, str_eq,
  Dict, lookup, insert, lookup-insert, concat, if◌then◌else◌,
}
use botbtc.Bingx.Signing.{build_query_string, sign_request, add_timestamp}
use botbtc.Bingx.Live.{
  LiveClient, HttpRequest, HttpResponse, ApiResponse, LiveError, Reply, replied, failed, Network,
  read_response, execute_request, signed_params, signed_request, do_signed,
}

abbrev refused_status : ℤ → Bool
refused_status code = ltb_ℤ code (pos 200) || leb_ℤ (pos 300) code

status_ok : (code : ℤ) → (pos 200 ≤ℤ code) × (code <ℤ pos 300) → refused_status code ≡ false
status_ok code h = ground (arith, h)

ok-status : (code : ℤ) → refused_status code ≡ false → (pos 200 ≤ℤ code) × (code <ℤ pos 300)
ok-status code h = ground (arith, h)

zero_code : (code : ℤ) → eq_ℤ code (pos 0) ≡ true → code ≡ pos 0
zero_code code h = ground (arith, h)

not_failed : {A : Type 0} {why : LiveError} {a : A} → Reply.failed why ≢ replied a
not_failed h = grind (arith, h)

replied_same : {A : Type 0} {a b : A} → replied a ≡ replied b → a ≡ b
replied_same {a = a} h = ap (λ r. elim r [ replied c ↦ c | failed why ↦ a ]) h

inserted :
    (at key value : String) (params : Dict String)
    → (str_eq at key ≡ true) ⊎ (lookup key (insert at value params) ≡ lookup key params)
inserted at key value params = elim (Bool-cases (str_eq at key)) [
  | inl e ↦ inl e
  | inr e ↦ inr (lookup-insert at key value params ∙ rw e refl)
]

module _ {E Bytes : Type 0} (net : Network E Bytes) where
  -- A response with a readable body, a status of 2xx, and an envelope of code 0 around `content`.
  pub record IsAccepted (answer : Option (HttpResponse Bytes)) (content : Bytes) : Type 0 where
    pub resp : HttpResponse Bytes
    pub arrived : answer ≡ some resp
    pub bytes : Bytes
    pub was_read : resp.body ≡ some bytes
    pub success : (pos 200 ≤ℤ resp.status_code) × (resp.status_code <ℤ pos 300)
    pub api : ApiResponse Bytes
    pub decoded : net.envelope bytes ≡ some api
    pub no_error : api.code ≡ pos 0
    pub inside : api.content ≡ content

  accepted-replied :
      (answer : Option (HttpResponse Bytes)) (content : Bytes)
      → IsAccepted answer content
      → read_response net answer ≡ replied content
  unfolding read_response
  accepted-replied answer content a =
      let in_range = status_ok a.resp.status_code a.success in
      let no_error : eq_ℤ a.api.code (pos 0) ≡ true = rw a.no_error refl in
      rw (a.arrived, a.was_read, in_range, a.decoded, no_error) (ap replied a.inside)

  replied-IsAccepted :
      (answer : Option (HttpResponse Bytes)) (content : Bytes)
      → read_response net answer ≡ replied content
      → IsAccepted answer content
  unfolding read_response
  replied-IsAccepted none content h = grind (arith, h)
  replied-IsAccepted (some resp) content h = elim (Option-cases resp.body) [
    | inl e ↦ absurd (not_failed (rw (read_response, e) at h))
    | inr (bytes, e) ↦ elim (Bool-cases (refused_status resp.status_code)) [
      | inl e1 ↦ absurd (not_failed (rw (read_response, e, e1) at h))
      | inr e1 ↦ elim (Option-cases (net.envelope bytes)) [
        | inl e2 ↦ absurd (not_failed (rw (read_response, e, e1, e2) at h))
        | inr (api, e2) ↦ elim (Bool-cases (eq_ℤ api.code (pos 0))) [
          | inr e3 ↦ absurd (not_failed (rw (read_response, e, e1, e2, e3) at h))
          | inl e3 ↦ record {
            resp = resp;
            arrived = refl;
            bytes = bytes;
            was_read = e;
            success = ok-status resp.status_code e1;
            api = api;
            decoded = e2;
            no_error = zero_code api.code e3;
            inside = replied_same (rw (read_response, e, e1, e2, e3) at h);
          }
        ]
      ]
    ]
  ]

  -- The parameters of a signed request: those given, the time by the server's clock, and the window.
  pub record IsSigned (c : LiveClient) (local_ms : ℤ) (params signed : Dict String) : Type 0 where
    pub timestamp :
        lookup "timestamp" signed ≡ some (net.decimal (sub64 local_ms c.server_time_delta))
    pub window : lookup "recvWindow" signed ≡ (
        if ltb_ℤ (pos 0) c.recv_window
        then some (net.decimal c.recv_window)
        else lookup "recvWindow" params)
    pub others :
        (key : String)
        → (str_eq "timestamp" key ≡ true)
          ⊎ (str_eq "recvWindow" key ≡ true)
          ⊎ (lookup key signed ≡ lookup key params)

  pub signed_params-IsSigned :
      (c : LiveClient) (local_ms : ℤ) (params : Dict String)
      → IsSigned c local_ms params (signed_params net c local_ms params)
  unfolding signed_params add_timestamp
  signed_params-IsSigned c local_ms params =
      let time = net.decimal (sub64 local_ms c.server_time_delta) in
      let stamped = insert "timestamp" time params in
      elim (Bool-cases (ltb_ℤ (pos 0) c.recv_window)) [
        | inl e ↦
            rw (signed_params, e)
              (record {
                timestamp = simp lookup-insert;
                window = rw e (simp lookup-insert);
                others = λ key.
                    elim (inserted "recvWindow" key (net.decimal c.recv_window) stamped) [
                      | inl is_window ↦ inr (inl is_window)
                      | inr kept ↦ elim (inserted "timestamp" key time params) [
                        | inl is_time ↦ inl is_time
                        | inr kept' ↦ inr (inr (kept ∙ kept'))
                      ]
                    ];
              })
        | inr e ↦
            rw (signed_params, e)
              (record {
                timestamp = simp lookup-insert;
                window = rw e (simp lookup-insert);
                others = λ key. elim (inserted "timestamp" key time params) [
                  | inl is_time ↦ inl is_time
                  | inr kept' ↦ inr (inr kept')
                ];
              })
      ]

  execute_request-replied :
      (req : HttpRequest) (e : E) (content : Bytes)
      → ((execute_request net req e).0 ≡ replied content)
        ↔ ((net.builds req ≡ true) × IsAccepted (net.send req e).0 content)
  unfolding execute_request
  execute_request-replied req e content = elim (Bool-cases (net.builds req)) [
    | inl b ↦ (
      (λ h. (b, replied-IsAccepted (net.send req e).0 content (rw (execute_request, b) at h))),
      λ h. rw (execute_request, b) (accepted-replied (net.send req e).0 content h.1),
    )
    | inr b ↦ (
      (λ h. absurd (not_failed (rw (execute_request, b) at h))),
      λ h. absurd (grind (arith, b, h.0)),
    )
  ]

  -- A signed call ends with a body exactly when its request could be built and the exchange's response to
  -- it is one with a readable body, a status of 2xx and an envelope of code 0 around that body. The
  -- request's query is the sorted string of the signed parameters, followed by the signature of that
  -- string; these are the given parameters, the time by the server's clock and the receive window.
  pub do_signed-replied :
      (c : LiveClient) (verb path : String) (params : Dict String) (e : E) (content : Bytes)
      → let (local_ms, e') = net.now_ms e in
        let signed = signed_params net c local_ms params in
        let query = build_query_string net.sort signed in
        let req : HttpRequest = record {
          verb = verb;
          url =
              concat
                (concat c.base_url path)
                (concat "?" (concat query (concat "&signature=" (net.hmac c.api_secret query))));
          key_header = some c.api_key;
        } in
        IsSigned c local_ms params signed
        × (((do_signed net c verb path params e).0 ≡ replied content)
            ↔ ((net.builds req ≡ true) × IsAccepted (net.send req e').0 content))
  unfolding do_signed signed_request sign_request
  do_signed-replied c verb path params e content =
      let (local_ms, e') = net.now_ms e in
      let signed = signed_params net c local_ms params in
      (
        signed_params-IsSigned c local_ms params,
        execute_request-replied (signed_request net c verb path signed) e' content,
      )
