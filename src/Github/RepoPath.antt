-- ===== src/Github/RepoPath.antt =====
-- `RepoPath` of src/providers/github.rs: the owner and the repository of a request's path.
use symbolon.Prelude.{
  ◌≤◌, ◌⊎◌, ℕ, ◌+◌, ◌≡◌, refl, ap, ◌∙◌, subst, ◌≢◌, ◌↔◌, inl, inr, Bool, true, false, not, ◌&&◌,
  ◌||◌, none, some, [], ◌∷◌, ◌++◌, arith, leb, ◌==◌, if◌then◌else◌, Option-cases, All, All-imp,
  Bytes, bytes_eq, bytes_eq_iff, Result, ok, err,
}
use symbolon.Strings.{split_once}
use symbolon.Strings.Lemmas.{split_once-append, split_once-joins}
use symbolon.Github.Errors.{GithubError, malformed_path}

pub record RepoPath : Type 0 where
  pub owner : Bytes
  pub repo : Bytes

abbrev pub is_ascii_uppercase : ℕ → Bool
is_ascii_uppercase b = leb b'A' b && leb b b'Z'

abbrev pub is_ascii_alphanumeric : ℕ → Bool
is_ascii_alphanumeric b =
    is_ascii_uppercase b || leb b'a' b && leb b b'z' || leb b'0' b && leb b b'9'

unfoldable pub is_valid_byte : ℕ → Bool
is_valid_byte b = is_ascii_alphanumeric b || b == b'-' || b == b'_' || b == b'.'

-- `bytes().all(is_valid_byte)`
unfoldable pub all_valid : Bytes → Bool
unfolding is_valid_byte
all_valid [] = true
all_valid (b ∷ bs) = is_valid_byte b && all_valid bs

unfoldable pub parse : Bytes → Result RepoPath GithubError
unfolding split_once all_valid
parse path = elim (split_once b'/' path) [
  | none ↦ err (malformed_path path)
  | some (owner, repo) ↦
      if bytes_eq owner [] || bytes_eq repo [] || not (all_valid owner) || not (all_valid repo)
      then err (malformed_path path)
      else ok (record { owner = owner; repo = repo })
]

unfoldable pub to_ascii_lowercase : Bytes → Bytes
to_ascii_lowercase [] = []
to_ascii_lowercase (b ∷ bs) = (if is_ascii_uppercase b then b + 32 else b) ∷ to_ascii_lowercase bs

-- the key of the caches, in `mint`
unfoldable pub cache_key : RepoPath → Bytes
unfolding to_ascii_lowercase
cache_key p = to_ascii_lowercase p.owner ++ b'/' ∷ to_ascii_lowercase p.repo

-- The bytes of a name of the provider: digits, letters, hyphen, underscore and full stop.
abbrev pub NameByte : ℕ → Type 0
NameByte b =
    ((48 ≤ b) × (b ≤ 57))
    ⊎ (((65 ≤ b) × (b ≤ 90)) ⊎ (((97 ≤ b) × (b ≤ 122)) ⊎ ((b ≡ 45) ⊎ ((b ≡ 95) ⊎ (b ≡ 46)))))

-- A name: not empty, and of such bytes.
abbrev pub IsName : Bytes → Type 0
IsName s = (s ≢ []) × All NameByte s

is_valid_byte-NameByte : (b : ℕ) → (is_valid_byte b ≡ true) ↔ NameByte b
unfolding is_valid_byte
is_valid_byte-NameByte b = (λ h. ground arith, λ h. ground arith)

all_valid-All : (s : Bytes) → (all_valid s ≡ true) ↔ All NameByte s
unfolding all_valid
all_valid-All [] = (λ h. tt, λ h. refl)
all_valid-All (b ∷ s) = (
  λ h. ((is_valid_byte-NameByte b).0 (ground arith), (all_valid-All s).0 (ground arith)),
  λ h.
      (let ih = (all_valid-All s).1 h.1 in
        let h0 = (is_valid_byte-NameByte b).1 h.0 in ground arith),
)

no_slash : (b : ℕ) → NameByte b → b ≢ b'/'
no_slash b h = λ q. ground arith

-- `parse` accepts exactly the paths `owner/repo` whose two halves are names, not empty and of digits,
-- letters, hyphens, underscores and full stops, and returns the halves.
pub parse-IsName_iff :
    (path : Bytes) (p : RepoPath)
    → (parse path ≡ ok p) ↔ ((path ≡ p.owner ++ b'/' ∷ p.repo) × IsName p.owner × IsName p.repo)
unfolding parse
parse-IsName_iff path p = (
  λ h. elim (Option-cases (split_once b'/' path)) [
    | inl absent ↦ absurd (ground arith)
    | inr ((owner, repo), found) ↦
        let r : RepoPath = record { owner = owner; repo = repo } in
        let accepted : all_valid owner ≡ true = ground arith in
        let accepted2 : all_valid repo ≡ true = ground arith in
        let o : owner ≡ p.owner = ground arith in
        let q : repo ≡ p.repo = ground arith in
        (
          cc (split_once-joins b'/' path owner repo found, o, q),
          (
            (λ (e : p.owner ≡ []). ground (arith, bytes_eq_iff owner [])),
            subst (All _) o ((all_valid-All owner).0 accepted),
          ),
          (
            (λ (e : p.repo ≡ []). ground (arith, bytes_eq_iff repo [])),
            subst (All _) q ((all_valid-All repo).0 accepted2),
          ),
        )
  ],
  λ (joined, o, r).
      let found : split_once b'/' path ≡ some (p.owner, p.repo) =
        ap (split_once b'/') joined
        ∙ split_once-append b'/' p.owner p.repo (All-imp _ _ no_slash p.owner o.1) in
      let valid1 = (all_valid-All p.owner).1 o.1 in
      let valid2 = (all_valid-All p.repo).1 r.1 in
      let ne1 : bytes_eq p.owner [] ≡ false = ground (arith, bytes_eq_iff p.owner []) in
      let ne2 : bytes_eq p.repo [] ≡ false = ground (arith, bytes_eq_iff p.repo []) in
      rw (parse, found, ne1, ne2, valid1, valid2) refl,
)
