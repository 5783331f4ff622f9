-- ===== src/Manifest/Uri.antt =====
-- The patterns of aitp_verifier/manifest.py that are more than a fixed number of characters: RFC 3986's
-- `URI`, a SPIFFE ID, a capability and an AID.
pub mod Segment
pub mod Subject
use aitp_verifier_py.Prelude.{
  ℕ, Bool, true, not, ◌&&◌, ◌||◌, Option, none, some, ◌==◌, if◌then◌else◌, any,
}
use aitp_verifier_py.Text.{Text, txt, in_range, partition}
use aitp_verifier_py.Platform.{Platform}
use aitp_verifier_py.Envelope.{base64url_char}
use aitp_verifier_py.Regex.{
  Regex, empty, class, seq, alt, star, matches, some_of, maybe, exactly, at_most, literal,
}

-- `c in s`
abbrev pub one_of : Text → ℕ → Bool
one_of s c = any (λ d. d == c) s

unfoldable pub letter : ℕ → Bool
letter c = in_range b'A' b'Z' c || in_range b'a' b'z' c

unfoldable pub digit : ℕ → Bool
digit c = in_range b'0' b'9' c

-- `[0-9A-Fa-f]`
unfoldable pub hex_char : ℕ → Bool
unfolding digit
hex_char c = digit c || (in_range b'A' b'F' c || in_range b'a' b'f' c)

-- `_URI_PCT`
unfoldable pub uri_pct : Regex
unfolding hex_char
uri_pct = seq (class (λ c. c == b'%')) (exactly 2 (class hex_char))

-- `_URI_SAFE`
unfoldable pub uri_safe : ℕ → Bool
unfolding letter digit txt any
uri_safe c = letter c || (digit c || one_of (txt "-._~!$&'()*+,;=") c)

-- `_URI_PCHAR` with and without `@`, and with `/` and `?`
unfoldable pub uri_pchar : Regex
unfolding uri_pct uri_safe
uri_pchar = alt (class (λ c. uri_safe c || ((c == b':') || (c == b'@')))) uri_pct

-- `_URI_PATH_REST`
unfoldable pub uri_path_rest : Regex
unfolding uri_pchar
uri_path_rest = star (seq (class (λ c. c == b'/')) (star uri_pchar))

-- `(?:(?:[safe:]|pct)*@)?`
unfoldable pub uri_userinfo : Regex
unfolding uri_pct uri_safe
uri_userinfo =
    maybe
      (seq (star (alt (class (λ c. uri_safe c || (c == b':'))) uri_pct)) (class (λ c. c == b'@')))

-- `\[(?P<ip_literal>[^\]/?#]*)\]|(?:[safe]|pct)*`
unfoldable pub uri_host : Regex
unfolding uri_pct uri_safe txt any
uri_host =
    alt
      (seq (class (λ c. c == b'['))
        (seq (star (class (λ c. not (one_of (txt "]/?#") c)))) (class (λ c. c == b']'))))
      (star (alt (class uri_safe) uri_pct))

unfoldable pub uri_authority : Regex
unfolding uri_userinfo uri_host uri_path_rest digit txt
uri_authority = seq (literal (txt "//")) (
    seq uri_userinfo (
      seq uri_host (seq (maybe (seq (class (λ c. c == b':')) (star (class digit)))) uri_path_rest)))

-- The alternatives between the scheme and the query.
unfoldable pub uri_hier_part : Regex
unfolding uri_authority uri_pchar uri_path_rest
uri_hier_part = alt uri_authority (
    alt (seq (class (λ c. c == b'/')) (maybe (seq (some_of uri_pchar) uri_path_rest)))
      (alt (seq (some_of uri_pchar) uri_path_rest) empty))

-- `(?:\?(?:pchar|[/?])*)?` and the same after `#`
unfoldable pub uri_tail : ℕ → Regex
unfolding uri_pchar
uri_tail mark =
    maybe (
      seq (class (λ c. c == mark)) (star (alt uri_pchar (class (λ c. (c == b'/') || (c == b'?'))))))

-- `_URI_PATTERN`
unfoldable pub uri_pattern : Regex
unfolding uri_hier_part uri_tail letter digit txt any
uri_pattern = seq (class letter) (
    seq (star (class (λ c. letter c || (digit c || one_of (txt "+.-") c))))
      (seq (class (λ c. c == b':')) (seq uri_hier_part (seq (uri_tail b'?') (uri_tail b'#')))))

-- `_URI_IP_FUTURE`
unfoldable pub uri_ip_future : Regex
unfolding hex_char uri_safe
uri_ip_future = seq (class (λ c. (c == b'v') || (c == b'V'))) (
    seq (some_of (class hex_char))
      (seq (class (λ c. c == b'.')) (some_of (class (λ c. uri_safe c || (c == b':'))))))

-- `match["ip_literal"]` of a text that matched: no other part of the pattern takes a bracket, so the
-- group is what stands between the first `[` and the `]` after it.
unfoldable pub ip_literal : Text → Option Text
unfolding partition
ip_literal value =
    let (before, opened, rest) = partition b'[' value in
    let (content, closed, after) = partition b']' rest in if opened then some content else none

module _ ⦃π : Platform⦄ where
  unfoldable pub literal_is_address : Option Text → Bool
  unfolding uri_ip_future matches any
  literal_is_address none = true
  literal_is_address (some literal) =
      matches uri_ip_future literal || (not (one_of literal b'%') && π.ipv6_address literal)

  -- `_is_uri`
  unfoldable pub is_uri : Text → Bool
  unfolding uri_pattern matches ip_literal literal_is_address
  is_uri value = matches uri_pattern value && literal_is_address (ip_literal value)

-- `_CAPABILITY_PATTERN`, ECMA-262's `\s` spelled out
unfoldable pub white_space : ℕ → Bool
white_space c =
    in_range 0x09 0x0D c
    || ((c == 0x20)
        || ((c == 0xA0)
            || ((c == 0x1680)
                || (in_range 0x2000 0x200A c
                    || (in_range 0x2028 0x2029 c
                        || ((c == 0x202F)
                            || ((c == 0x205F) || ((c == 0x3000) || (c == 0xFEFF)))))))))

unfoldable pub capability_pattern : Regex
unfolding white_space
capability_pattern = some_of (class (λ c. not (white_space c)))

-- `_SPIFFE_HINT_SUBJECT`
unfoldable pub spiffe_char : ℕ → Bool
unfolding letter digit txt any
spiffe_char c = letter c || (digit c || one_of (txt "._-") c)

unfoldable pub spiffe_word : ℕ → Bool
unfolding letter digit
spiffe_word c = letter c || (digit c || ((c == b'_') || (c == b'-')))

unfoldable pub trust_domain_char : ℕ → Bool
unfolding digit txt any
trust_domain_char c = in_range b'a' b'z' c || (digit c || one_of (txt "._-") c)

unfoldable pub spiffe_segment : Regex
unfolding spiffe_char spiffe_word
spiffe_segment =
    alt (seq (star (class spiffe_char)) (seq (class spiffe_word) (star (class spiffe_char))))
      (seq (exactly 3 (class (λ c. c == b'.'))) (star (class (λ c. c == b'.'))))

unfoldable pub spiffe_hint_subject : Regex
unfolding spiffe_segment trust_domain_char txt
spiffe_hint_subject = seq (literal (txt "spiffe://")) (
    seq (seq (class trust_domain_char) (at_most 254 (class trust_domain_char)))
      (some_of (seq (class (λ c. c == b'/')) spiffe_segment)))

-- `_AID_PATTERN`
unfoldable pub aid_pattern : Regex
unfolding base64url_char txt
aid_pattern = seq (literal (txt "aid:pubkey:")) (
    alt (exactly 43 (class base64url_char)) (
      alt (seq (literal (txt "ed25519:")) (exactly 43 (class base64url_char)))
        (seq (literal (txt "p256:")) (exactly 44 (class base64url_char)))))
