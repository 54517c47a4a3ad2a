-- ===== src/GitCredential/Fields.antt =====
-- The fields of a request that `Request::parse` accepts, and the requests it accepts.
use symbolon.Prelude.{
  ℕ, zero, suc, ◌+◌, ◌-◌, ◌≤◌, ◌≡◌, refl, subst, ◌≢◌, ◌↔◌, inl, inr, Bool, ◌&&◌, Option, none, some,
  List, [], ◌∷◌, arith, ltb, leb, Bool-cases, Option-cases, length, take, drop, All, Bytes,
  bytes_eq, ok, bind-eq-ok,
}
use symbolon.Strings.{split_once, split, strip_suffix}
use symbolon.Strings.Lemmas.{Free, split_once-All, split-Free}
use symbolon.Utf8.{invalid_at}
use symbolon.GitCredential.{
  Key, protocol_key, host_key, path_key, username_key, password_key, Request, Slots, no_slots, slot,
  set_slot, max_value_bytes, parser_hard_max, lf, cr, capability_name, dot_git, find_control,
  value_key, capability, fill_slot, dispatch, parse_line, parse_lines, strip_git, finish, block_end,
  parse,
}

-- The bytes that a line holds neither in its key nor in its value.
abbrev pub Clean : Bytes → Type 0
Clean s = All (λ b. (b ≢ 0) × (b ≢ cr)) s

-- A value: UTF-8, of at least one and at most 4096 bytes, without NUL, CR and LF.
pub record IsValue (v : Bytes) : Type 0 where
  pub utf8 : invalid_at v ≡ none
  pub nonempty : 1 ≤ length v
  pub short : length v ≤ max_value_bytes
  pub clean : Clean v
  pub one_line : Free lf v

pub find_control-Clean : (i : ℕ) (s : Bytes) → (find_control i s ≡ none) ↔ Clean s
unfolding find_control
find_control-Clean i [] = (λ _. tt, λ _. refl)
find_control-Clean i (b ∷ s) = ground (arith, find_control-Clean (i + 1) s)

abbrev IfSome : Option Bytes → Type 0
IfSome none = Unit
IfSome (some v) = IsValue v

-- A slot that is filled holds a value.
abbrev Filled : Slots → Type 0
Filled s = IfSome s.protocol × IfSome s.host × IfSome s.path

set_slot-Filled : (k : Key) (v : Bytes) (s : Slots) → IsValue v → Filled s → Filled (set_slot k v s)
unfolding set_slot
set_slot-Filled protocol_key v s is (p, h, q) = (is, h, q)
set_slot-Filled host_key v s is (p, h, q) = (p, is, q)
set_slot-Filled path_key v s is (p, h, q) = (p, h, is)
set_slot-Filled username_key v s is f = f
set_slot-Filled password_key v s is f = f

fill_slot-Filled :
    (k : Key) (v : Bytes) (s t : Slots)
    → Clean v
    → Free lf v
    → fill_slot k v s ≡ ok t
    → Filled s
    → Filled t
unfolding fill_slot
fill_slot-Filled k v s t clean free h f = elim (Option-cases (slot k s)) [
  | inl empty ↦ elim (Option-cases (invalid_at v)) [
    | inl utf8 ↦
        let short : length v ≤ max_value_bytes = ground arith in
        let nonempty : 1 ≤ length v = ground arith in
        let done : set_slot k v s ≡ t = ground arith in
        subst Filled done (
          set_slot-Filled k v s
            (record {
              utf8 = utf8;
              nonempty = nonempty;
              short = short;
              clean = clean;
              one_line = free;
            })
            f)
    | inr (at, broken) ↦ absurd (ground arith)
  ]
  | inr (w, full) ↦ absurd (ground arith)
]

dispatch-Filled :
    (i : ℕ) (key v : Bytes) (s t : Slots)
    → Clean v
    → Free lf v
    → dispatch i key v s ≡ ok t
    → Filled s
    → Filled t
unfolding dispatch
dispatch-Filled i key v s t clean free h f = elim (Bool-cases (bytes_eq key [])) [
  | inl empty ↦ absurd (ground arith)
  | inr key_there ↦ elim (Bool-cases (bytes_eq key capability_name)) [
    | inl is_capability ↦
        let s1 : Slots = record s {
          client_supports_authtype = capability v s.client_supports_authtype;
        } in
        let done : s1 ≡ t = ground arith in subst Filled done f
    | inr other ↦ elim (Option-cases (value_key key)) [
      | inl unknown ↦ let same : s ≡ t = ground arith in subst Filled same f
      | inr (k, known) ↦ fill_slot-Filled k v s t clean free (ground arith) f
    ]
  ]
]

parse_line-Filled :
    (i : ℕ) (line : Bytes) (s t : Slots)
    → Free lf line
    → parse_line i line s ≡ ok t
    → Filled s
    → Filled t × Clean line
unfolding parse_line
parse_line-Filled i line s t free h f = elim (Option-cases (find_control 0 line)) [
  | inr ((offset, byte), bad) ↦ absurd (ground arith)
  | inl fine ↦
      let clean : Clean line = (find_control-Clean 0 line).0 fine in
      elim (Option-cases (split_once b'=' line)) [
        | inl absent ↦ absurd (ground arith)
        | inr ((key, v), found) ↦ (
          dispatch-Filled i key v s t
              (split_once-All (λ b. (b ≢ 0) × (b ≢ cr)) b'=' line key v found clean).1
              (split_once-All (λ b. b ≢ lf) b'=' line key v found free).1 (ground arith) f,
          clean,
        )
      ]
]

parse_lines-Filled :
    (i : ℕ) (lines : List Bytes) (s t : Slots)
    → All (Free lf) lines
    → parse_lines i lines s ≡ ok t
    → Filled s
    → Filled t × All Clean lines
unfolding parse_lines
parse_lines-Filled i [] s t free h f = let same : s ≡ t = ground arith in (subst Filled same f, tt)
parse_lines-Filled i (line ∷ lines) s t free h f =
    let (u, one, rest) = bind-eq-ok (parse_line i line s) (parse_lines (i + 1) lines) h in
    let (fu, clean) = parse_line-Filled i line s u free.0 one f in
    let (ft, cleans) = parse_lines-Filled (i + 1) lines u t free.1 rest fu in (ft, (clean, cleans))

-- A path as the request holds it, without its suffix `.git`.
pub record IsPath (p : Bytes) : Type 0 where
  pub nonempty : 1 ≤ length p
  pub short : length p ≤ max_value_bytes
  pub clean : Clean p
  pub one_line : Free lf p

All-take {κ} : (P : ℕ → Type κ) (n : ℕ) (s : Bytes) → All P s → All P (take n s)
All-take P zero s h = tt
All-take P (suc n) [] h = tt
All-take P (suc n) (b ∷ s) h = (h.0, All-take P n s h.1)

length-take_le : (n : ℕ) (s : Bytes) → length (take n s) ≤ length s
length-take_le zero s = omega arith
length-take_le (suc n) [] = omega arith
length-take_le (suc n) (b ∷ s) = omega (arith, length-take_le n s)

strip_git-IsPath : (raw p : Bytes) → IsValue raw → strip_git raw ≡ ok p → IsPath p
unfolding strip_git strip_suffix
strip_git-IsPath raw p is h =
    elim (Bool-cases (leb 4 (length raw) && bytes_eq (drop (length raw - 4) raw) dot_git)) [
      | inl ends ↦
          let s : Bytes = take (length raw - 4) raw in
          let nonempty : 1 ≤ length s = ground arith in
          let done : s ≡ p = ground arith in
          subst IsPath done (record {
            nonempty = nonempty;
            short = omega (arith, is.short, length-take_le (length raw - 4) raw);
            clean = All-take _ (length raw - 4) raw is.clean;
            one_line = All-take _ (length raw - 4) raw is.one_line;
          })
      | inr other ↦
          let done : raw ≡ p = ground arith in
          subst IsPath done (record {
            nonempty = is.nonempty;
            short = is.short;
            clean = is.clean;
            one_line = is.one_line;
          })
    ]

abbrev Accepted : Request → Type 0
Accepted r = IsValue r.protocol × IsValue r.host × IsPath r.path

finish-Accepted :
    (p o q : Option Bytes) (b : Bool) (r : Request)
    → finish (record { protocol = p; host = o; path = q; client_supports_authtype = b }) ≡ ok r
    → IfSome p
    → IfSome o
    → IfSome q
    → Accepted r
unfolding finish
finish-Accepted none o q b r h fp fo fq = absurd (ground arith)
finish-Accepted (some p) none q b r h fp fo fq = absurd (ground arith)
finish-Accepted (some p) (some o) none b r h fp fo fq = absurd (ground arith)
finish-Accepted (some p) (some o) (some raw) b r h fp fo fq =
    let request : Bytes → Request =
      λ path. record { protocol = p; host = o; path = path; client_supports_authtype = b } in
    let (path, stripped, rest) = bind-eq-ok (strip_git raw) (λ path. ok (request path)) h in
    let done : request path ≡ r = ground arith in
    subst Accepted done (fp, fo, strip_git-IsPath raw path fq stripped)

-- `parse` returns a request only if its protocol and its host are UTF-8 of 1 to 4096 bytes without
-- NUL, CR and LF; its path, which has lost a suffix `.git`, has 1 to 4096 bytes without NUL, CR and
-- LF.
pub parse-IsValue :
    (input : Bytes) (r : Request)
    → parse input ≡ ok r
    → IsValue r.protocol × IsValue r.host × IsPath r.path
unfolding parse
parse-IsValue input r h = elim (Bool-cases (ltb parser_hard_max (length input))) [
  | inl large ↦ absurd (ground arith)
  | inr fits ↦
      let (stop, _, h1) = bind-eq-ok (block_end input) _ (rw fits at h) in
      let lines : List Bytes = split lf (take stop input) in
      let (s, read, h2) = bind-eq-ok (parse_lines 1 lines no_slots) finish h1 in
      let (filled, _) =
        parse_lines-Filled 1 lines no_slots s (split-Free lf (take stop input)) read (tt, tt, tt) in
      let (fp, fo, fq) = filled in
      finish-Accepted s.protocol s.host s.path s.client_supports_authtype r h2 fp fo fq
]
