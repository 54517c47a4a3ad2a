-- ===== src/Agent/Exchange.antt =====
-- The broker and its agent over a socket that delivers datagrams: the broker gets what the key signs.
use symbolon.Prelude.{
  ℕ, zero, suc, ◌+◌, ◌*◌, ◌≤◌, ◌≡◌, refl, ap, ◌∙◌, inl, inr, true, false, [], ◌∷◌, ◌++◌, arith, ltb,
  ◌==◌, length, take, Bytes, Result, ok, err, Result-cases,
}
use symbolon.Strings.{codes}
use symbolon.JwtBackend.{JwtClaims, JwtBackendError, backend_dead, rejected}
use symbolon.AgentProtocol.{
  AgentRequest, sign_jwt, ping, AgentResponse, jwt, pong, error_response, max_message, clip_error,
  error, Json, encode,
}
use symbolon.AgentProtocol.Clip.{clip_error-length}
use symbolon.Agent.{
  Signer, handle, answer, datagram, serve_loop, round_trip, sign, self_check, exchange_by,
}

-- What the broker relies on of `serde_json`: each message is read back, is not empty, and a text in it
-- takes at most six bytes for each of its own, beside at most 128.
pub record IsJson (json : Json) : Type 0 where
  pub request_back : (r : AgentRequest) → json.request_from (json.request_to_vec r) ≡ ok r
  pub response_back : (r : AgentResponse) → json.response_from (json.response_to_vec r) ≡ ok r
  pub ping_length : length (json.request_to_vec ping) ≤ 128
  pub sign_length :
      (c : JwtClaims) → length (json.request_to_vec (sign_jwt c)) ≤ 6 * length c.iss + 128
  pub pong_length : length (json.response_to_vec pong) ≤ 128
  pub jwt_length : (t : Bytes) → length (json.response_to_vec (jwt t)) ≤ 6 * length t + 128
  pub error_length :
      (t : Bytes) → length (json.response_to_vec (error_response t)) ≤ 6 * length t + 128
  pub request_some : (r : AgentRequest) → 1 ≤ length (json.request_to_vec r)
  pub response_some : (r : AgentResponse) → 1 ≤ length (json.response_to_vec r)

-- The socket between the broker and an agent that serves: the answer is the one datagram that the loop
-- sends for the request, or the agent is gone.
unfoldable pub channel : Json → Signer → Bytes → Result Bytes JwtBackendError
unfolding serve_loop
channel json sign_rs256 request =
    elim (serve_loop json sign_rs256 ((datagram request, true) ∷ [])).0 [
      | [] ↦ err backend_dead
      | reply ∷ _ ↦ ok reply
    ]

encode-fits : (bytes : Bytes) → length bytes ≤ max_message → encode bytes ≡ ok bytes
unfolding encode
encode-fits bytes fits =
    let test : ltb max_message (length bytes) ≡ false = ground arith in rw (encode, test) refl

pub take_fits : (n : ℕ) (s : Bytes) → length s ≤ n → take n s ≡ s
take_fits zero [] h = refl
take_fits zero (b ∷ s) h = absurd (omega arith)
take_fits (suc n) [] h = refl
take_fits (suc n) (b ∷ s) h = ap (◌∷◌ b) (take_fits n s (omega arith))

module _ (json : Json) (sign_rs256 : Signer) (laws : IsJson json) where
  -- A request that fits is answered with the agent's response, if that fits.
  exchange-response :
      (request : AgentRequest) (response : AgentResponse)
      → length (json.request_to_vec request) ≤ max_message
      → handle json sign_rs256 (json.request_to_vec request) ≡ response
      → length (json.response_to_vec response) ≤ max_message
      → round_trip json (exchange_by (channel json sign_rs256)) request ≡ ok response
  unfolding round_trip exchange_by channel serve_loop answer
  exchange-response request response small handled short =
      let bytes = json.request_to_vec request in
      let reply = json.response_to_vec response in
      let some_bytes = laws.request_some request in
      let some_reply = laws.response_some response in
      let not_closed : (length bytes == 0) ≡ false = ground arith in
      let not_dead : (length reply == 0) ≡ false = ground arith in
      let answered : answer json sign_rs256 (take max_message bytes) ≡ ok reply =
        ap (answer json sign_rs256) (take_fits max_message bytes small)
        ∙ ap (λ r. encode (json.response_to_vec r)) handled
        ∙ encode-fits reply short in
      let served : channel json sign_rs256 bytes ≡ ok reply =
        rw (channel, serve_loop, not_closed, answered) refl in
      rw
        (
          round_trip,
          encode-fits bytes small,
          exchange_by,
          served,
          not_dead,
          take_fits max_message reply short,
          laws.response_back response,
        )
        refl

  handle-sign :
      (claims : JwtClaims) (r : Result Bytes Bytes)
      → sign_rs256 claims ≡ r
      → handle json sign_rs256 (json.request_to_vec (sign_jwt claims))
        ≡ elim r [ ok token ↦ jwt token | err e ↦ error (codes "sign: " ++ e) ]
  unfolding handle
  handle-sign claims r q = rw (handle, laws.request_back (sign_jwt claims), q) refl

  -- Over an agent that serves, and claims and tokens of at most 1024 bytes: the broker's `sign` returns
  -- exactly the token of the key, and an error of the key as `Rejected` with its text, cut; no
  -- message is too long, and `self_check` succeeds.
  pub sign-agent :
      (claims : JwtClaims)
      → length claims.iss ≤ 1024
      → ((token : Bytes) → sign_rs256 claims ≡ ok token → length token ≤ 1024)
      → (sign json (exchange_by (channel json sign_rs256)) claims ≡ elim (sign_rs256 claims) [
        | ok token ↦ ok token
        | err e ↦ err (rejected (clip_error (codes "sign: " ++ e)))
      ])
        × (self_check json (exchange_by (channel json sign_rs256)) ≡ ok tt)
  unfolding sign self_check
  sign-agent claims iss_short tokens_short =
      let small : length (json.request_to_vec (sign_jwt claims)) ≤ max_message =
        omega (arith, laws.sign_length claims) in
      (
        elim (Result-cases (sign_rs256 claims)) [
          | inl (token, signed) ↦
              let short : length (json.response_to_vec (jwt token)) ≤ max_message =
                omega (arith, laws.jwt_length token, tokens_short token signed) in
              let answered =
                exchange-response (sign_jwt claims) (jwt token) small
                  (handle-sign claims (ok token) signed) short in
              rw (sign, answered, signed) refl
          | inr (e, refused) ↦
              let text = codes "sign: " ++ e in
              let short : length (json.response_to_vec (error text)) ≤ max_message =
                unfold error in
                omega (arith, laws.error_length (clip_error text), clip_error-length text) in
              let answered =
                exchange-response (sign_jwt claims) (error text) small
                  (handle-sign claims (err e) refused) short in
              rw (sign, answered, refused) (unfold error in refl)
        ],
        (let ping_small : length (json.request_to_vec ping) ≤ max_message =
              omega (arith, laws.ping_length) in
            let pong_small : length (json.response_to_vec pong) ≤ max_message =
              omega (arith, laws.pong_length) in
            let handled : handle json sign_rs256 (json.request_to_vec ping) ≡ pong =
              unfold handle in rw (handle, laws.request_back ping) refl in
            rw (self_check, exchange-response ping pong ping_small handled pong_small) refl),
      )
