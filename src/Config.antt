-- ===== src/Config.antt =====
-- The choice of the signing backend: `ProviderGithub` and its validation in src/config.rs, and
-- `spawn_signing_backend` of src/daemon.rs.
use symbolon.Prelude.{
  ℕ, ◌≡◌, refl, ◌↔◌, Bool, true, false, not, Option, none, some, arith, if◌then◌else◌, Bytes,
  Result, ok, err,
}

pub data AppKeyBackend : Type 0 where
  tpm_backend : AppKeyBackend
  file_backend : AppKeyBackend

-- `ProviderGithubTpm`: the device and the handle
pub record ProviderGithubTpm : Type 0 where
  pub device : Bytes
  pub persistent_handle : ℕ

-- the fields of `ProviderGithub` that concern the backend
pub record ProviderGithub : Type 0 where
  pub app_key_backend : AppKeyBackend
  pub private_key_path : Option Bytes
  pub tpm : Option ProviderGithubTpm

-- the four texts of `validate_backend`
pub data BackendError : Type 0 where
  tpm_section_missing : BackendError
  path_not_used : BackendError
  path_missing : BackendError
  tpm_section_not_used : BackendError

unfoldable pub is_some : {A : Type 0} → Option A → Bool
is_some none = false
is_some (some _) = true

unfoldable pub validate_backend : ProviderGithub → Result (Unit {0}) BackendError
unfolding is_some
validate_backend gh = elim gh.app_key_backend [
  | tpm_backend ↦
      if not (is_some gh.tpm)
      then err tpm_section_missing
      else if is_some gh.private_key_path
      then err path_not_used
      else ok tt
  | file_backend ↦
      if not (is_some gh.private_key_path)
      then err path_missing
      else if is_some gh.tpm
      then err tpm_section_not_used
      else ok tt
]

-- What is spawned: the agent with its key file, or the TPM with device and handle.
pub data Spawn : Type 0 where
  agent : Bytes → Spawn
  tpm_device : Bytes → ℕ → Spawn

-- `spawn_signing_backend` up to the spawn itself; `None` where `expect` panics
unfoldable pub spawn_signing_backend : ProviderGithub → Option Spawn
spawn_signing_backend gh = elim gh.app_key_backend [
  | file_backend ↦ elim gh.private_key_path [ none ↦ none | some path ↦ some (agent path) ]
  | tpm_backend ↦ elim gh.tpm [
    | none ↦ none
    | some t ↦ some (tpm_device t.device t.persistent_handle)
  ]
]

-- The settings of one backend, and only those.
abbrev pub Agrees : ProviderGithub → Spawn → Type 0
Agrees gh (agent path) =
    (gh.app_key_backend ≡ file_backend) × (gh.private_key_path ≡ some path) × (gh.tpm ≡ none)
Agrees gh (tpm_device device handle) =
    (gh.app_key_backend ≡ tpm_backend)
    × (gh.tpm ≡ some (record { device = device; persistent_handle = handle }))
    × (gh.private_key_path ≡ none)

-- A configuration is accepted exactly if it has the settings of the backend it names and none of the
-- other's; then the broker spawns that backend with these settings, and no `expect` panics.
pub validate_backend-ok_iff :
    (gh : ProviderGithub)
    → (validate_backend gh ≡ ok tt)
      ↔ ((s : Spawn) × (spawn_signing_backend gh ≡ some s) × Agrees gh s)
unfolding validate_backend spawn_signing_backend is_some
validate_backend-ok_iff gh =
    (forth gh.app_key_backend refl gh.private_key_path refl gh.tpm refl, back)
  where
    forth :
        (b : AppKeyBackend)
        → gh.app_key_backend ≡ b
        → (p : Option Bytes) → gh.private_key_path ≡ p
        → (t : Option ProviderGithubTpm) → gh.tpm ≡ t
        → validate_backend gh ≡ ok tt
        → (s : Spawn) × (spawn_signing_backend gh ≡ some s) × Agrees gh s
    forth file_backend qb (some p) qp none qt h =
        (agent p, rw (spawn_signing_backend, qb, qp) refl, (qb, qp, qt))
    forth tpm_backend qb none qp (some t) qt h = (
      tpm_device t.device t.persistent_handle,
      rw (spawn_signing_backend, qb, qt) refl,
      (qb, qt, qp),
    )
    forth file_backend qb (some p) qp (some t) qt h = absurd (ground arith)
    forth file_backend qb none qp t qt h = absurd (ground arith)
    forth tpm_backend qb p qp none qt h = absurd (ground arith)
    forth tpm_backend qb (some p) qp (some t) qt h = absurd (ground arith)

    back :
        ((s : Spawn) × (spawn_signing_backend gh ≡ some s) × Agrees gh s)
        → validate_backend gh ≡ ok tt
    back (agent path, spawned, (qb, qp, qt)) = rw (validate_backend, qb, qp, qt) refl
    back (tpm_device device handle, spawned, (qb, qt, qp)) = rw (validate_backend, qb, qt, qp) refl
