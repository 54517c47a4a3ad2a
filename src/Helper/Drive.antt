-- ===== src/Helper/Drive.antt =====
-- The loop of the credential helper is one exchange with the broker, from start to end.
use symbolon.Prelude.{
  ℕ, suc, ◌≡◌, refl, sym, ap, ◌∙◌, inl, inr, Option, none, some, [], ◌∷◌, arith, leb, leb→le,
  Bool-cases, Option-cases, length, take, length-take, Bytes, Result, ok, err, ◌>>=◌, map_err,
  ok_or, Result-cases,
}
use symbolon.Identity.{Identity}
use symbolon.Psk.{Psk}
use symbolon.BrokerKey.{BrokerPublicKey}
use symbolon.Transport.Noise
use symbolon.Transport.Noise.{Noise}
use symbolon.Transport.Errors.{SessionError, TransportError, from_transport_error}
use symbolon.Transport.Frame.{frame, read_frame_length}
use symbolon.Transport.Session.{Step, check_recv_len, recv_chunk, settle}
use symbolon.Transport.Tlv.{encode_identity_tlv}
use symbolon.Transport.Initiator
use symbolon.Transport.Initiator.{
  Initiator, IState, failed, write_hs1, wrote_hs1_pending, want_hs2_len, want_hs2_body, write_req,
  wrote_req_pending, want_resp_len, want_resp_body, done,
}
use symbolon.Helper.{
  ClientError, session, read_handshake, write_handshake, Stream, read_exact, write_all, go_on,
  drive,
}
use symbolon.Helper.Straight.{frame_len, lift, take_frame, answered, shaken, straight}

module _ (noise : Noise) where
  abbrev Client : Type 0
  Client = Result Bytes (ClientError noise.Error)

  -- The loop returns from this state what `f` does, within so many rounds, whatever the stream does.
  Gives : ℕ → Initiator noise → (Stream → Client) → Type 0
  Gives fuel sess f = (s : Stream) → drive noise fuel s sess ≡ some (f s)

  -- The same behind a method.
  Goes : ℕ → Result (Initiator noise) (SessionError noise.Error) → (Stream → Client) → Type 0
  Goes fuel (ok sess) f = Gives fuel sess f
  Goes fuel (err e) f = (s : Stream) → f s ≡ err (session e)

  go_on-Goes :
      (fuel : ℕ) (res : Result (Initiator noise) (SessionError noise.Error)) (f : Stream → Client)
      (s : Stream)
      → Goes fuel res f
      → go_on noise (drive noise fuel s) (settle failed res) ≡ some (f s)
  unfolding go_on settle Goes Gives
  go_on-Goes fuel (ok sess) f s g = g s
  go_on-Goes fuel (err e) f s g = ap some (sym (g s))

  ok-Goes :
      (fuel : ℕ) (st : Initiator noise) (f : Stream → Client)
      → Gives fuel st f
      → Goes fuel (ok st) f
  unfolding Goes
  ok-Goes fuel st f g = g

  bind-Goes :
      {A : Type 0} (fuel : ℕ) (m : Result A (TransportError noise.Error))
      (k : A → Result (Initiator noise) (SessionError noise.Error)) (f : A → Stream → Client)
      → ((a : A) → Goes fuel (k a) (f a))
      → Goes fuel (map_err from_transport_error m >>= k) (λ s. lift m >>= λ a. f a s)
  unfolding Goes
  bind-Goes fuel (ok a) k f g = g a
  bind-Goes fuel (err e) k f g = λ s. refl

  -- A round that reads: the bytes are as many as the state asks for.
  read_exact-length :
      (n : ℕ) (s s1 : Stream) (buf : Bytes) → read_exact n s ≡ some (buf, s1) → length buf ≡ n
  unfolding read_exact
  read_exact-length n s s1 buf h = elim (Bool-cases (leb n (length s.incoming))) [
    | inr short ↦ absurd (ground arith)
    | inl enough ↦
        let same : take n s.incoming ≡ buf = ground arith in
        ap length (sym same) ∙ length-take n s.incoming (leb→le n (length s.incoming) enough)
  ]

  done-Gives : (p : Bytes) → Gives 1 (done p) (λ s. ok p)
  unfolding Gives drive Initiator.step Initiator.take_response
  done-Gives p s = refl

  -- A state that asks for bytes, and goes on with as many.
  read-Gives :
      (fuel n : ℕ) (st : Initiator noise)
      (take_in : Bytes → Result (Initiator noise) (SessionError noise.Error))
      (g : Bytes → Stream → Client)
      → Initiator.step noise st ≡ (st, ok (Step.read_exact n))
      → ((bytes : Bytes) → Initiator.recv noise st bytes ≡ settle failed (take_in bytes))
      → ((bytes : Bytes) → length bytes ≡ n → Goes fuel (take_in bytes) (g bytes))
      → Gives (suc fuel) st (λ s. ok_or (read_exact n s) read_handshake >>= λ r. g r.0 r.1)
  unfolding Gives drive
  read-Gives fuel n st take_in g steps receives fine s =
      let next = ap (λ x. x.0) steps in
      let asks = ap (λ x. x.1) steps in
      elim (Option-cases (read_exact n s)) [
        | inl short ↦ rw (drive, asks, short) refl
        | inr ((buf, s1), enough) ↦
            let ended =
              go_on-Goes fuel (take_in buf) (g buf) s1
                (fine buf (read_exact-length n s s1 buf enough)) in
            rw (drive, asks, enough, next, receives buf) ended
      ]

  -- A state that writes, and then another.
  write-Gives :
      (fuel : ℕ) (bytes : Bytes) (st st1 st2 : Initiator noise) (f : Stream → Client)
      → Initiator.step noise st ≡ (st1, ok (Step.write bytes))
      → Initiator.wrote noise st1 ≡ (st2, ok tt)
      → Gives fuel st2 f
      → Gives (suc fuel) st (λ s. ok_or (write_all s) write_handshake >>= f)
  unfolding Gives drive go_on
  write-Gives fuel bytes st st1 st2 f steps wrote later s =
      let next = ap (λ x. x.0) steps in
      let asks = ap (λ x. x.1) steps in
      elim (Option-cases (write_all s)) [
        | inl broken ↦ rw (drive, asks, broken) refl
        | inr (s1, written) ↦ rw (drive, asks, written, next, wrote) (later s1)
      ]

  check_recv_len-eq : (n m : ℕ) → m ≡ n → check_recv_len {S = noise.Error} n m ≡ ok tt
  unfolding check_recv_len
  check_recv_len-eq n m q = ground arith

  recv_len-Goes :
      (fuel : ℕ) (bytes : Bytes) (k : ℕ → Initiator noise) (f : ℕ → Stream → Client)
      → length bytes ≡ 2
      → ((n : ℕ) → Gives fuel (k n) (f n))
      → Goes fuel
          (Initiator.recv_len noise bytes >>= λ n. ok (k n))
          (λ s. lift (frame_len bytes) >>= λ n. f n s)
  unfolding Initiator.recv_len recv_chunk
  recv_len-Goes fuel (hi ∷ lo ∷ []) k f two later =
      bind-Goes fuel (read_frame_length hi lo) (λ n. ok (k n)) f (λ n. unfold Goes in later n)
  recv_len-Goes fuel [] k f two later = absurd (omega arith)
  recv_len-Goes fuel (a ∷ []) k f two later = absurd (omega arith)
  recv_len-Goes fuel (a ∷ b ∷ c ∷ s) k f two later = absurd (omega arith)

  -- the end of a frame: its bytes, then `f`
  abbrev body :
      {A : Type 0}
      → ℕ
      → (Bytes → Stream → Result A (ClientError noise.Error))
      → Stream
      → Result A (ClientError noise.Error)
  body n f s = ok_or (read_exact n s) read_handshake >>= λ r. f r.0 r.1

  -- A state that asks for the length of a frame, and then for its bytes.
  frame-Gives :
      (fuel : ℕ) (st : Initiator noise) (k : ℕ → Initiator noise) (f : Bytes → Stream → Client)
      → Initiator.step noise st ≡ (st, ok (Step.read_exact 2))
      → ((bytes : Bytes)
          → Initiator.recv noise st bytes
            ≡ settle failed (Initiator.recv_len noise bytes >>= λ n. ok (k n)))
      → ((n : ℕ) → Gives fuel (k n) (body n f))
      → Gives (suc fuel) st (λ s. take_frame s >>= λ r. f r.0 r.1)
  unfolding Gives
  frame-Gives fuel st k f steps receives later s =
      read-Gives fuel 2 st (λ bytes. Initiator.recv_len noise bytes >>= λ n. ok (k n))
        (λ bytes s. lift (frame_len bytes) >>= λ n. body n f s) steps receives
        (λ bytes two. recv_len-Goes fuel bytes k (λ n. body n f) two (λ n. later n)) s
      ∙ ap some (flat (read_exact 2 s))
    where
      flat :
          (o : Option (Bytes × Stream))
          → (ok_or o read_handshake >>= λ r. lift (frame_len r.0) >>= λ n. body n f r.1) ≡ (
              (ok_or o read_handshake >>= λ r.
              lift (frame_len r.0) >>= λ n. ok_or (read_exact n r.1) read_handshake)
              >>= λ r. f r.0 r.1)
      flat none = refl
      flat (some (buf, s1)) = elim (Result-cases (frame_len {S = noise.Error} buf)) [
        | inl (n, q) ↦ rw q refl
        | inr (e, q) ↦ rw q refl
      ]

  resp_body-Gives :
      (ts : noise.TransportState) (n : ℕ)
      → Gives 2
          (want_resp_body ts n)
          (body n (λ bytes s. lift (Noise.transport_read noise ts bytes) >>= λ a. ok a.1))
  unfolding Initiator.step Initiator.recv Initiator.recv_resp_body
  resp_body-Gives ts n =
      read-Gives 1 n (want_resp_body ts n) (Initiator.recv_resp_body noise ts n) _ refl
        (λ bytes. refl)
        (λ bytes q.
          rw (Initiator.recv_resp_body, check_recv_len-eq n (length bytes) q)
            (bind-Goes 1 (Noise.transport_read noise ts bytes) _ (λ a s. ok a.1)
              (λ a. unfold Goes in done-Gives a.1)))

  resp-Gives : (ts : noise.TransportState) → Gives 3 (want_resp_len ts) (answered noise ts)
  unfolding Initiator.step Initiator.recv
  resp-Gives ts =
      frame-Gives 2 (want_resp_len ts) (λ n. want_resp_body ts n)
        (λ bytes s. lift (Noise.transport_read noise ts bytes) >>= λ a. ok a.1) refl (λ bytes. refl)
        (λ n. resp_body-Gives ts n)

  write_req-Gives :
      (ts : noise.TransportState) (out : Bytes)
      → Gives 4 (write_req ts out) (λ s. ok_or (write_all s) write_handshake >>= answered noise ts)
  unfolding Initiator.step Initiator.wrote
  write_req-Gives ts out =
      write-Gives 3 out (write_req ts out) (wrote_req_pending ts) (want_resp_len ts)
        (answered noise ts) refl refl (resp-Gives ts)

  -- what the helper does with the second message of the handshake
  abbrev behind_hs2 : noise.HandshakeState → Bytes → Bytes → Stream → Client
  behind_hs2 hs request bytes s = lift (Noise.handshake_read noise hs bytes) >>= λ a.
      lift (Noise.into_transport noise a.0) >>= λ ts.
      lift (Noise.transport_write noise ts request) >>= λ b.
      lift (frame b.1) >>= λ out. ok_or (write_all s) write_handshake >>= λ s. answered noise b.0 s

  hs2_body-Gives :
      (hs : noise.HandshakeState) (n : ℕ) (request : Bytes)
      → Gives 5 (want_hs2_body hs n request) (body n (behind_hs2 hs request))
  unfolding Initiator.step Initiator.recv Initiator.recv_hs2_body
  hs2_body-Gives hs n request =
      read-Gives 4 n (want_hs2_body hs n request)
        (λ bytes. Initiator.recv_hs2_body noise hs n request bytes) (behind_hs2 hs request) refl
        (λ bytes. refl)
        (λ bytes q.
          rw (Initiator.recv_hs2_body, check_recv_len-eq n (length bytes) q)
            (bind-Goes 4 (Noise.handshake_read noise hs bytes) _ _ (λ a.
              bind-Goes 4 (Noise.into_transport noise a.0) _ _ (λ ts.
                bind-Goes 4 (Noise.transport_write noise ts request) _ _ (λ b.
                  bind-Goes 4 (frame b.1) _ _ (λ out.
                    ok-Goes 4 (write_req b.0 out)
                      (λ s. ok_or (write_all s) write_handshake >>= answered noise b.0)
                      (write_req-Gives b.0 out)))))))

  hs2-Gives :
      (hs : noise.HandshakeState) (request : Bytes)
      → Gives 6 (want_hs2_len hs request) (shaken noise hs request)
  unfolding Initiator.step Initiator.recv
  hs2-Gives hs request =
      frame-Gives 5 (want_hs2_len hs request) (λ n. want_hs2_body hs n request)
        (behind_hs2 hs request) refl (λ bytes. refl) (λ n. hs2_body-Gives hs n request)

  -- The loop of the helper ends after at most seven rounds, whatever the broker sends, wherever the
  -- stream breaks and whatever the Noise library says of it, and what it returns is that of the
  -- exchange written out as `straight`: the response is what the Noise library reads out of the last
  -- frame; a read that fails is `ReadHandshake`, a write that fails `WriteHandshake`, and an error of
  -- the library or of the frames a `Session` of this error.
  pub drive-straight :
      (identity : Identity) (psk : Psk) (broker_pub : BrokerPublicKey) (request : Bytes)
      (sess : Initiator noise) (s : Stream)
      → Initiator.new noise identity psk broker_pub request ≡ ok sess
      → drive noise 7 s sess ≡ some (straight noise identity psk broker_pub request s)
  unfolding Initiator.new Initiator.step Initiator.wrote Gives straight
  drive-straight identity psk broker_pub request sess s made =
      elim (Result-cases (Noise.initiator noise psk broker_pub)) [
        | inr (e, failed0) ↦ absurd (ground arith)
        | inl (hs, built) ↦
            elim (Result-cases (Noise.handshake_write noise hs (encode_identity_tlv identity))) [
              | inr (e, failed1) ↦ absurd (ground arith)
              | inl ((hs1, msg), wrote) ↦ elim (Result-cases (frame {S = noise.Error} msg)) [
                | inr (e, failed2) ↦ absurd (ground arith)
                | inl (msg1, framed) ↦
                    let starts : write_hs1 hs1 msg1 request ≡ sess = ground arith in
                    let first =
                      write-Gives 6 msg1 (write_hs1 hs1 msg1 request)
                        (wrote_hs1_pending hs1 request) (want_hs2_len hs1 request)
                        (shaken noise hs1 request) refl refl (hs2-Gives hs1 request) s in
                    ap (drive noise 7 s) (sym starts)
                    ∙ first
                    ∙ rw (straight, built, wrote, framed) refl
              ]
            ]
      ]
