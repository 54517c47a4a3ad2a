-- ===== src/GitCredential/Written.antt =====
-- `Request::parse` on the requests that git writes, for all values.
use symbolon.Prelude.{
  ℕ, ◌+◌, ◌-◌, ◌≤◌, ◌≡◌, refl, sym, ap, ap₂, ◌∙◌, ◌≢◌, inl, inr, Bool, true, false, none, some,
  List, [], ◌∷◌, ◌++◌, arith, ltb, leb, ◌==◌, if◌then◌else◌, Bool-cases, Option-cases, length,
  length-append, take, drop, take-append-drop, take-append_self, All, All-append, Bytes, bytes_eq,
  bytes_eq_iff, bytes_eq_refl, ok, err, ◌>>=◌,
}
use symbolon.Strings.{split_once, strip_suffix, codes}
use symbolon.Strings.Lemmas.{Free, split_once-append, lacks-Free}
use symbolon.GitCredential.{
  Request, empty_value, dot_git, Key, protocol_key, host_key, path_key, Slots, no_slots, slot,
  set_slot, max_value_bytes, parser_hard_max, lf, protocol_name, host_name, path_name,
  capability_name, authtype_name, find_control, value_key, capability, fill_slot, dispatch,
  parse_line, parse_lines, strip_git, finish, parse,
}
use symbolon.GitCredential.Block.{IsLine, tails, text_of, IsEnd, at_eof, at_blank, parse-text}
use symbolon.GitCredential.Fields.{Clean, IsValue, find_control-Clean}

-- the lines of a request behind that of its protocol
abbrev pub written : Bytes → Bytes → Bool → List Bytes
written host path authtype =
    (codes "host" ++ b'=' ∷ host)
    ∷ (codes "path" ++ b'=' ∷ path)
    ∷ (if authtype then codes "capability[]=authtype" ∷ [] else [])

-- the suffix that a path can have
abbrev pub git_suffix : Bytes
git_suffix = codes ".git"

-- the line of a field is read into the slot of its key
parse_line-field :
    (i : ℕ) (k : Key) (name v : Bytes) (s : Slots)
    → Clean name
    → Free b'=' name
    → value_key name ≡ some k
    → bytes_eq name [] ≡ false
    → bytes_eq name capability_name ≡ false
    → slot k s ≡ none
    → IsValue v
    → parse_line i (name ++ b'=' ∷ v) s ≡ ok (set_slot k v s)
unfolding parse_line dispatch fill_slot
parse_line-field i k name v s clean free known named other empty is =
    let fine : find_control 0 (name ++ b'=' ∷ v) ≡ none =
      (find_control-Clean 0 (name ++ b'=' ∷ v)).1 (
        All-append _ name (b'=' ∷ v) clean
          (((λ q. ground arith), (λ q. ground arith)), is.clean)) in
    let parts : split_once b'=' (name ++ b'=' ∷ v) ≡ some (name, v) =
      split_once-append b'=' name v free in
    let utf8 = is.utf8 in
    let long : ltb max_value_bytes (length v) ≡ false = ground (arith, is.short) in
    let some_byte : (length v == 0) ≡ false = ground (arith, is.nonempty) in ground arith

field-IsLine : (name v : Bytes) → IsLine name → Free lf v → IsLine (name ++ b'=' ∷ v)
field-IsLine [] v h hv = absurd h
field-IsLine (a ∷ name) v h hv = All-append _ (a ∷ name) (b'=' ∷ v) h ((λ q. ground arith), hv)

length-field : (name v : Bytes) → length (name ++ b'=' ∷ v) ≡ length name + 1 + length v
length-field name v = omega (arith, length-append name (b'=' ∷ v))

authtype_line :
    (i : ℕ) (s : Slots)
    → parse_line i (capability_name ++ b'=' ∷ authtype_name) s
      ≡ ok (record s { client_supports_authtype = true })
unfolding parse_line find_control split_once dispatch capability
authtype_line i s = refl

protocol_line :
    (v : Bytes)
    → IsValue v
    → parse_line 1 (protocol_name ++ b'=' ∷ v) no_slots ≡ ok (record no_slots { protocol = some v })
unfolding slot set_slot value_key find_control
protocol_line v is =
    parse_line-field 1 protocol_key protocol_name v no_slots
      ((find_control-Clean 0 protocol_name).0 refl) (lacks-Free b'=' protocol_name refl) refl refl
      refl refl is

host_line :
    (v : Bytes) (s : Slots)
    → s.host ≡ none
    → IsValue v
    → parse_line 2 (host_name ++ b'=' ∷ v) s ≡ ok (record s { host = some v })
unfolding slot set_slot value_key find_control
host_line v s empty is =
    parse_line-field 2 host_key host_name v s ((find_control-Clean 0 host_name).0 refl)
      (lacks-Free b'=' host_name refl) refl refl refl empty is

path_line :
    (v : Bytes) (s : Slots)
    → s.path ≡ none
    → IsValue v
    → parse_line 3 (path_name ++ b'=' ∷ v) s ≡ ok (record s { path = some v })
unfolding slot set_slot value_key find_control
path_line v s empty is =
    parse_line-field 3 path_key path_name v s ((find_control-Clean 0 path_name).0 refl)
      (lacks-Free b'=' path_name refl) refl refl refl empty is

-- the request of these fields
abbrev pub read_as : Bytes → Bytes → Bytes → Bool → Request
read_as protocol host path authtype = record {
  protocol = protocol;
  host = host;
  path = path;
  client_supports_authtype = authtype;
}

drop-append : (s t : Bytes) → drop (length s) (s ++ t) ≡ t
drop-append [] t = refl
drop-append (b ∷ s) t = drop-append s t

strip_suffix-append : (s t : Bytes) → strip_suffix t (s ++ t) ≡ some s
unfolding strip_suffix
strip_suffix-append s t =
    let sum = length-append s t in
    let at : length (s ++ t) - length t ≡ length s = omega arith in
    let long : leb (length t) (length (s ++ t)) ≡ true = ground arith in
    rw (strip_suffix, long, at, drop-append s t, bytes_eq_refl t, take-append_self s t) refl

strip_suffix-joins : (t s stem : Bytes) → strip_suffix t s ≡ some stem → s ≡ stem ++ t
unfolding strip_suffix
strip_suffix-joins t s stem h =
    let n = length s - length t in
    let same : drop n s ≡ t = ground (arith, bytes_eq_iff (drop n s) t) in
    let cut : take n s ≡ stem = ground arith in sym (take-append-drop n s) ∙ ap₂ ◌++◌ cut same

not_empty : (s : Bytes) → bytes_eq s [] ≡ false → (length s == 0) ≡ false
not_empty [] h = absurd (ground arith)
not_empty (b ∷ s) h = ground arith

module _ (protocol host path : Bytes) (ip : IsValue protocol) (ih : IsValue host)
    (ig : IsValue path) where
  slots : Bool → Slots
  slots b = record {
    protocol = some protocol;
    host = some host;
    path = some path;
    client_supports_authtype = b;
  }

  lines_read :
      (authtype : Bool)
      → parse_lines 1 ((protocol_name ++ b'=' ∷ protocol) ∷ written host path authtype) no_slots
        ≡ ok (slots authtype)
  unfolding parse_lines slots
  lines_read authtype =
      rw
        (
          protocol_line protocol ip,
          host_line host (record no_slots { protocol = some protocol }) refl ih,
          path_line path (record no_slots { protocol = some protocol; host = some host }) refl ig,
        )
        (last authtype)
    where
      last :
          (b : Bool)
          → parse_lines 4
              (if b then (capability_name ++ b'=' ∷ authtype_name) ∷ [] else [])
              (slots false)
            ≡ ok (slots b)
      last true = rw (authtype_line 4 (slots false)) refl
      last false = refl

  written-IsLine :
      (authtype : Bool)
      → All IsLine ((protocol_name ++ b'=' ∷ protocol) ∷ written host path authtype)
  written-IsLine true = (
    field-IsLine protocol_name protocol (lacks-Free lf protocol_name refl) ip.one_line,
    (
      field-IsLine host_name host (lacks-Free lf host_name refl) ih.one_line,
      (
        field-IsLine path_name path (lacks-Free lf path_name refl) ig.one_line,
        (
          field-IsLine capability_name authtype_name (lacks-Free lf capability_name refl)
              (lacks-Free lf authtype_name refl),
          tt,
        ),
      ),
    ),
  )
  written-IsLine false = (
    field-IsLine protocol_name protocol (lacks-Free lf protocol_name refl) ip.one_line,
    (
      field-IsLine host_name host (lacks-Free lf host_name refl) ih.one_line,
      (field-IsLine path_name path (lacks-Free lf path_name refl) ig.one_line, tt),
    ),
  )

  tail_small :
      (authtype : Bool)
      → length (tails (if authtype then (capability_name ++ b'=' ∷ authtype_name) ∷ [] else []))
        ≤ 30
  tail_small true = omega arith
  tail_small false = omega arith

  end_small : (end : Bytes) → IsEnd end → length end ≤ 2
  end_small _ at_eof = omega arith
  end_small _ at_blank = omega arith

  small :
      (authtype : Bool) (end : Bytes)
      → IsEnd end
      → ltb parser_hard_max
          (length (text_of (protocol_name ++ b'=' ∷ protocol) (written host path authtype) ++ end))
        ≡ false
  small authtype end e =
      let flag : List Bytes =
        if authtype then (capability_name ++ b'=' ∷ authtype_name) ∷ [] else [] in
      let first : Bytes = protocol_name ++ b'=' ∷ protocol in
      let second : Bytes = host_name ++ b'=' ∷ host in
      let third : Bytes = path_name ++ b'=' ∷ path in
      let all : length (text_of first (written host path authtype) ++ end) ≤ 16384 = omega (
        arith,
        length-append (text_of first (written host path authtype)) end,
        length-append first (tails (written host path authtype)),
        length-append second (tails (third ∷ flag)),
        length-append third (tails flag),
        length-field protocol_name protocol,
        length-field host_name host,
        length-field path_name path,
        tail_small authtype,
        end_small end e,
        ip.short,
        ih.short,
        ig.short,
      ) in
      ground arith

  parse-stripped :
      (authtype : Bool) (end : Bytes)
      → IsEnd end
      → parse (text_of (codes "protocol" ++ b'=' ∷ protocol) (written host path authtype) ++ end)
        ≡ (strip_git path >>= λ stripped. ok (read_as protocol host stripped authtype))
  unfolding finish slots
  parse-stripped authtype end e =
      parse-text (codes "protocol" ++ b'=' ∷ protocol) (written host path authtype) end
        (written-IsLine authtype) e
      ∙ rw (small authtype end e, lines_read authtype) refl

  -- A request of a protocol, a host and a path that are values, with or without the capability
  -- `authtype`, ended by a blank line or by the end of file, is read back: a path that ends in `.git`
  -- without this suffix, once, and any other path as it is; a path that is only `.git` is an empty
  -- value.
  pub parse-written :
      (authtype : Bool) (end : Bytes)
      → IsEnd end
      → (let text =
            text_of (codes "protocol" ++ b'=' ∷ protocol) (written host path authtype) ++ end in
          ((stem : Bytes)
            → path ≡ stem ++ git_suffix
            → parse text ≡ (
                if bytes_eq stem []
                then err (empty_value path_key)
                else ok (read_as protocol host stem authtype)))
          × (((stem : Bytes) → path ≢ stem ++ git_suffix)
              → parse text ≡ ok (read_as protocol host path authtype)))
  unfolding strip_git
  parse-written authtype end e = (
    λ stem q.
        let ends : strip_suffix dot_git path ≡ some stem =
          ap (strip_suffix dot_git) q ∙ strip_suffix-append stem git_suffix in
        elim (Bool-cases (bytes_eq stem [])) [
          | inl none_left ↦
              let empty : (length stem == 0) ≡ true =
                ap (λ s. length s == 0) ((bytes_eq_iff stem []).0 none_left) in
              parse-stripped authtype end e ∙ rw (none_left, strip_git, ends, empty) refl
          | inr some_left ↦
              let full : (length stem == 0) ≡ false = not_empty stem some_left in
              parse-stripped authtype end e ∙ rw (some_left, strip_git, ends, full) refl
        ],
    λ other. elim (Option-cases (strip_suffix dot_git path)) [
      | inl kept ↦ parse-stripped authtype end e ∙ rw (strip_git, kept) refl
      | inr (stem, cut) ↦ absurd (other stem (strip_suffix-joins git_suffix path stem cut))
    ],
  )
