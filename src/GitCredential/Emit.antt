-- ===== src/GitCredential/Emit.antt =====
-- The response that `Response::new` accepts and `Response::encode` writes.
use symbolon.Prelude.{
  ℕ, ◌≡◌, refl, ◌≢◌, ◌↔◌, Bool, false, List, [], ◌∷◌, ◌++◌, arith, if◌then◌else◌, All, Bytes, ok,
}
use symbolon.Strings.{decimal}
use symbolon.GitCredential.{
  Key, username_key, password_key, SystemTime, Response, lf, cr, capability_name, authtype_name,
  username_name, password_name, ephemeral_name, true_name, expiry_name, field_line, is_pre_epoch,
  check_field, new,
}

-- The bytes that a field of a response may hold.
abbrev pub Plain : Bytes → Type 0
Plain s = All (λ b. (b ≢ 0) × (b ≢ cr) × (b ≢ lf)) s

check_field-Plain : (k : Key) (s : Bytes) → (check_field k s ≡ ok tt) ↔ Plain s
unfolding check_field
check_field-Plain k [] = (λ _. tt, λ _. refl)
check_field-Plain k (b ∷ s) = ground (arith, check_field-Plain k s)

-- `new` accepts a response if and only if neither field holds NUL, CR or LF and the expiry is not
-- before the epoch, and then it returns the response of its arguments.
pub new-eq-ok_iff :
    (u p : Bytes) (t : SystemTime) (r : Response)
    → (new u p t ≡ ok r) ↔ (
        Plain u
        × Plain p
        × (is_pre_epoch t ≡ false)
        × (r ≡ record { username = u; password = p; password_expiry_utc = t }))
unfolding new
new-eq-ok_iff u p t r =
    ground (arith, check_field-Plain username_key u, check_field-Plain password_key p)

-- the lines of a response, without line feeds
abbrev pub response_lines : Response → ℕ → Bool → List Bytes
response_lines r secs supports =
    (if supports then (capability_name ++ b'=' ∷ authtype_name) ∷ [] else [])
    ++ (username_name ++ b'=' ∷ r.username)
      ∷ (password_name ++ b'=' ∷ r.password)
      ∷ (if supports then (ephemeral_name ++ b'=' ∷ true_name) ∷ [] else [])
    ++ (expiry_name ++ b'=' ∷ decimal secs) ∷ [] ∷ [] ∷ []

abbrev response_text : Response → ℕ → Bool → Bytes
response_text r secs supports =
    (if supports then field_line capability_name authtype_name else [])
    ++ (field_line username_name r.username
        ++ (field_line password_name r.password
            ++ ((if supports then field_line ephemeral_name true_name else [])
                ++ (field_line expiry_name (decimal secs) ++ lf ∷ []))))
