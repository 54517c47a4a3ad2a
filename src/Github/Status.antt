-- ===== src/Github/Status.antt =====
-- What a refusal of the provider becomes: the error of the endpoint, and the event the broker logs.
use symbolon.Prelude.{
  ℕ, zero, suc, ◌+◌, ◌-◌, ◌*◌, ◌/◌, ◌%◌, ◌^◌, ◌<◌, ◌≡◌, refl, sym, ap, ◌∙◌, subst, ◌≢◌, inl, inr,
  true, false, ◌||◌, Option, none, some, [], ◌∷◌, ◌++◌, arith, ltb, leb, ◌==◌, if◌then◌else◌,
  Bool-cases, replicate, All, All-imp, Bytes, err,
}
use symbolon.Strings.{digits_from, decimal}
use symbolon.Strings.Lemmas.{IsDigit, decimal-IsDigit, decimal-starts}
use symbolon.Connection.{LogEvent, event, mint_denied, provider_error, log_mint_error}
use symbolon.Github.Errors.{Decode, GithubError, from_common_status, into_provider_error}
use symbolon.Github.Responses.{
  HttpResponse, on_repo, on_token, is_space, trim_start, trim_end, parse_digits, parse_u64,
  read_retry_after,
}

-- The event for a status.
abbrev pub status_event : ℕ → LogEvent
status_event s =
    if s == 404
    then event mint_denied "repo_not_accessible"
    else if s == 401 || s == 403 || s == 429
    then event mint_denied "provider_4xx"
    else event provider_error ""

from_common_status-event :
    (d : Decode) (s : ℕ) (body : Bytes) (retry : Option ℕ)
    → (s == 404) ≡ false
    → log_mint_error (into_provider_error (from_common_status d s body retry)) ≡ status_event s
unfolding from_common_status into_provider_error log_mint_error
from_common_status-event d s body retry h = ground arith

-- A response with a body that can be read and another status than success is an error of the lookup and
-- of the mint, and the broker logs for both what `status_event` says of the status: 404 as a
-- repository that is not accessible, 401, 403 and 429 as a refusal of the provider, any other, of 400
-- to 499 too, as an error of the provider.
pub refusal_event :
    (d : Decode) (resp : HttpResponse) (body : Bytes)
    → resp.body ≡ some body
    → ((resp.status ≢ 200)
        → (e : GithubError) × (on_repo d resp ≡ err e)
          × (log_mint_error (into_provider_error e) ≡ status_event resp.status))
      × ((resp.status ≢ 201)
          → (e : GithubError) × (on_token d resp ≡ err e)
            × (log_mint_error (into_provider_error e) ≡ status_event resp.status))
unfolding on_repo on_token into_provider_error log_mint_error
refusal_event d resp body read =
    let e = from_common_status d resp.status body (read_retry_after resp) in
    let logged = from_common_status-event d resp.status body (read_retry_after resp) in
    (
      λ ne. elim (Bool-cases (resp.status == 404)) [
        | inl gone ↦ (GithubError.repo_not_found, ground arith, ground arith)
        | inr other ↦ (e, ground arith, logged other)
      ],
      λ ne. elim (Bool-cases (resp.status == 404)) [
        | inl gone ↦ (GithubError.repo_not_found, ground arith, ground arith)
        | inr other ↦ (e, ground arith, logged other)
      ],
    )

parse_digits-step :
    (m k n : ℕ) (acc : Bytes)
    → k < 10
    → m * 10 + k ≡ n
    → parse_digits m ((b'0' + k) ∷ acc) ≡ (if ltb n (2 ^ 64) then parse_digits n acc else none)
unfolding parse_digits
parse_digits-step m k n acc lt q =
    let digit : m * 10 + (b'0' + k - b'0') ≡ n = omega arith in
    let low : leb b'0' (b'0' + k) ≡ true = ground arith in
    let high : leb (b'0' + k) b'9' ≡ true = ground arith in rw (parse_digits, digit, low, high) refl

parse_digits-digits_from :
    (fuel n : ℕ) (acc : Bytes)
    → n < fuel
    → parse_digits 0 (digits_from fuel n acc)
      ≡ (if ltb n (2 ^ 64) then parse_digits n acc else none)
unfolding digits_from
parse_digits-digits_from zero n acc lt = absurd (omega arith)
parse_digits-digits_from (suc fuel) n acc lt = elim (Bool-cases (ltb n 10)) [
  | inl one ↦ rw one (parse_digits-step 0 n n acc (ground arith) (omega arith))
  | inr more ↦
      let rest : Bytes = (b'0' + n % 10) ∷ acc in
      let ih = parse_digits-digits_from fuel (n / 10) rest (ground arith) in
      let step = parse_digits-step (n / 10) (n % 10) n acc (omega arith) (omega arith) in
      rw more (
        ih ∙ (elim (Bool-cases (ltb (n / 10) (2 ^ 64))) [
          | inl fits ↦ rw fits step
          | inr large ↦ (let over : ltb n (2 ^ 64) ≡ false = ground arith in rw (large, over) refl)
        ]))
]

-- blanks
abbrev pub pad : ℕ → Bytes
pad n = replicate n b' '

abbrev NoSpace : Bytes → Type 0
NoSpace s = All (λ b. is_space b ≡ false) s

trim_end-pad : (n : ℕ) → trim_end (pad n) ≡ []
unfolding trim_end
trim_end-pad zero = refl
trim_end-pad (suc n) = rw (trim_end, trim_end-pad n) refl

trim_end-append : (s : Bytes) (n : ℕ) → NoSpace s → trim_end (s ++ pad n) ≡ s
unfolding trim_end
trim_end-append [] n h = trim_end-pad n
trim_end-append (b ∷ s) n h = ground (arith, trim_end-append s n h.1)

trim_end-pad_before :
    (n : ℕ) (b : ℕ) (s t : Bytes) → trim_end t ≡ b ∷ s → trim_end (pad n ++ t) ≡ pad n ++ b ∷ s
unfolding trim_end
trim_end-pad_before zero b s t h = h
trim_end-pad_before (suc zero) b s t h = rw (trim_end, h) refl
trim_end-pad_before (suc (suc n)) b s t h = rw (trim_end, trim_end-pad_before (suc n) b s t h) refl

trim_start-pad :
    (n : ℕ) (b : ℕ) (s : Bytes) → is_space b ≡ false → trim_start (pad n ++ b ∷ s) ≡ b ∷ s
unfolding trim_start
trim_start-pad zero b s h = rw (trim_start, h) refl
trim_start-pad (suc n) b s h = trim_start-pad n b s h

spaceless : (b : ℕ) → IsDigit b → is_space b ≡ false
spaceless b h = ground arith

parse_u64-decimal : (n : ℕ) → parse_u64 (decimal n) ≡ (if ltb n (2 ^ 64) then some n else none)
unfolding parse_u64
parse_u64-decimal n =
    let (b, s, starts) = decimal-starts n in
    let digit : IsDigit b = (subst (All IsDigit) starts (decimal-IsDigit n)).0 in
    let plus : (b == b'+') ≡ false = ground arith in
    rw (starts, parse_u64, plus)
      (ap (parse_digits 0) (sym starts)
        ∙ (unfold decimal in parse_digits-digits_from (suc n) n [] (omega arith)))

trim-decimal :
    (before behind n : ℕ)
    → trim_start (trim_end (pad before ++ (decimal n ++ pad behind))) ≡ decimal n
trim-decimal before behind n =
    let (b, s, starts) = decimal-starts n in
    let digits = decimal-IsDigit n in
    let digit : IsDigit b = (subst (All IsDigit) starts digits).0 in
    let back = trim_end-append (decimal n) behind (All-imp _ _ spaceless (decimal n) digits) in
    ap trim_start (trim_end-pad_before before b s (decimal n ++ pad behind) (back ∙ starts))
    ∙ trim_start-pad before b s (spaceless b digit)
    ∙ sym starts

-- A header `retry-after` that holds a number of seconds, with or without blanks around it, is read as
-- this number, unless the number does not fit 64 bits; then there is none.
pub read_retry_after-decimal :
    (resp : HttpResponse) (before behind n : ℕ)
    → resp.retry_after ≡ some (pad before ++ (decimal n ++ pad behind))
    → read_retry_after resp ≡ (if ltb n (2 ^ 64) then some n else none)
unfolding read_retry_after
read_retry_after-decimal resp before behind n h =
    rw (h, read_retry_after) (ap parse_u64 (trim-decimal before behind n) ∙ parse_u64-decimal n)
