-- ===== src/Tests/Credential.antt =====
-- Runs of the theorems on requests and responses of git-credential.
use symbolon.Prelude.{
  ◌≡◌, refl, ◌≢◌, ◌↔◌, true, false, [], ◌∷◌, ◌++◌, arith, ltb, if◌then◌else◌, length, Bytes,
  bytes_eq, ok, err, ◌>>=◌,
}
use symbolon.Utf8.{invalid_at, invalid_from}
use symbolon.GitCredential
use symbolon.GitCredential.{
  empty_value, path_key, GitCredentialError, Request, Response, SystemTime, since_epoch,
  is_pre_epoch, parser_hard_max, request_too_large, no_slots, parse_lines, parse_line, finish,
  strip_git, protocol_name, host_name, path_name, lf, block_end, find_blank, find_control,
  value_key, slot, set_slot, dispatch, fill_slot,
}
use symbolon.Strings.Lemmas.{lacks-Free}
use symbolon.GitCredential.Block.{text_of, at_eof, at_blank, parse-text}
use symbolon.GitCredential.Fields.{IsValue, find_control-Clean, IsPath, parse-IsValue}
use symbolon.GitCredential.Written.{written, parse-written, git_suffix, read_as}
use symbolon.GitCredential.Emit.{Plain, new-eq-ok_iff}
use symbolon.Strings.{codes, split, split_once, strip_suffix}

-- a value of one letter
letter-IsValue : IsValue (b'h' ∷ [])
unfolding invalid_at invalid_from
letter-IsValue = record {
  utf8 = refl;
  nonempty = omega arith;
  short = omega arith;
  clean = (((λ q. omega arith), (λ q. omega arith)), tt);
  one_line = ((λ q. omega arith), tt);
}

-- "h.git"
abbrev git_path : Bytes
git_path = b'h' ∷ git_suffix

git_path-IsValue : IsValue git_path
unfolding invalid_at invalid_from
git_path-IsValue = record {
  nonempty = omega arith;
  short = omega arith;
  utf8 = refl;
  clean = (find_control-Clean 0 git_path).0 (unfold find_control in refl);
  one_line = lacks-Free lf git_path refl;
}

parse-written_example :
    let text =
      text_of (codes "protocol" ++ b'=' ∷ b'h' ∷ []) (written (b'h' ∷ []) git_path true)
      ++ lf ∷ [] in
    ((stem : Bytes)
      → git_path ≡ stem ++ git_suffix
      → GitCredential.parse text ≡ (
          if bytes_eq stem []
          then err (empty_value path_key)
          else ok (read_as (b'h' ∷ []) (b'h' ∷ []) stem true)))
    × (((stem : Bytes) → git_path ≢ stem ++ git_suffix)
        → GitCredential.parse text ≡ ok (read_as (b'h' ∷ []) (b'h' ∷ []) git_path true))
parse-written_example =
    parse-written (b'h' ∷ []) (b'h' ∷ []) git_path letter-IsValue letter-IsValue git_path-IsValue
      true (lf ∷ []) at_eof

-- "protocol=h", "host=h", "path=h"
abbrev input : Bytes
input =
    b'p' ∷ b'r' ∷ b'o' ∷ b't' ∷ b'o' ∷ b'c' ∷ b'o' ∷ b'l' ∷ b'=' ∷ b'h' ∷ lf ∷ b'h' ∷ b'o' ∷ b's'
    ∷ b't' ∷ b'=' ∷ b'h' ∷ lf ∷ b'p' ∷ b'a' ∷ b't' ∷ b'h' ∷ b'=' ∷ b'h' ∷ lf ∷ []

abbrev request : Request
request = record {
  protocol = b'h' ∷ [];
  host = b'h' ∷ [];
  path = b'h' ∷ [];
  client_supports_authtype = false;
}

input-request : GitCredential.parse input ≡ ok request
unfolding GitCredential.parse block_end find_blank parse_lines parse_line find_control split_once
    split dispatch fill_slot slot set_slot value_key finish strip_git strip_suffix invalid_at
    invalid_from
input-request = refl

parse-IsValue_example : IsValue request.protocol × IsValue request.host × IsPath request.path
parse-IsValue_example = parse-IsValue input request input-request

parse-text_example :
    GitCredential.parse (text_of (b'x' ∷ []) ((b'y' ∷ []) ∷ []) ++ lf ∷ lf ∷ []) ≡ (
      if ltb parser_hard_max (length (text_of (b'x' ∷ []) ((b'y' ∷ []) ∷ []) ++ lf ∷ lf ∷ []))
      then err (request_too_large parser_hard_max)
      else parse_lines 1 ((b'x' ∷ []) ∷ (b'y' ∷ []) ∷ []) no_slots >>= finish)
parse-text_example =
    parse-text (b'x' ∷ []) ((b'y' ∷ []) ∷ []) (lf ∷ lf ∷ [])
      (((λ q. omega arith), tt), (((λ q. omega arith), tt), tt)) at_blank

abbrev response : Response
response = record {
  username = b'u' ∷ [];
  password = b'p' ∷ [];
  password_expiry_utc = since_epoch 120 0;
}

new-eq-ok_iff_example :
    (GitCredential.new (b'u' ∷ []) (b'p' ∷ []) (since_epoch 120 0) ≡ ok response) ↔ (
      Plain (b'u' ∷ [])
      × Plain (b'p' ∷ [])
      × (is_pre_epoch (since_epoch 120 0) ≡ false)
      × (response ≡ record {
        username = b'u' ∷ [];
        password = b'p' ∷ [];
        password_expiry_utc = since_epoch 120 0;
      }))
new-eq-ok_iff_example = new-eq-ok_iff (b'u' ∷ []) (b'p' ∷ []) (since_epoch 120 0) response
