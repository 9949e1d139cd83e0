-- ===== src/Target/Examples.antt =====
-- The theorems on targets and addresses at concrete inputs, and tests.
use webguard_instance.Base.{
  String, true, false, ◌||◌, none, some, List, [], ◌∷◌, All, ◌≡◌, ◌⊎◌, ◌↔◌, refl, arith, str_eq,
  if_elim, if◌then◌else◌, ◌+s◌, subst, codes, trim_space, ◌≤◌, pos,
}
use webguard_instance.Base.Chars.{byte_length, trim}
use webguard_instance.Base.Result.{Result, ok, err, ok_inj}
use webguard_instance.Monitor.Numbers.{format_int}
use webguard_instance.Target.Address.{v4, v6, is_unsafe_address}
use webguard_instance.Target.Address.Ranges.{InBits, IsPublic, is_unsafe_address-IsPublic}
use webguard_instance.Target.{
  Ip, Parsers, Url, EgressPolicy, is_bracket, safe_dial_context, http_url, tcp_address,
  ssl_address_and_server_name,
}
use webguard_instance.Target.Safe.{
  IsAccepted, StandsFor, safe_dial_context-IsPublic, http_url-IsPublic,
}

abbrev quad9 : Ip
quad9 = record { address = v4 0x09090909; text = "9.9.9.9" }

abbrev web : Ip
web = record { address = v6 0x26000000000000000000000000000001 false; text = "2600::1" }

abbrev site : Url
site = record {
  scheme = "https";
  user = false;
  host = "example.org:443";
  path = "";
  raw_query = "";
  fragment = "";
}

abbrev sample_parsers : Parsers
sample_parsers = record {
  parse_url = λ text.
      if str_eq text "https://example.org:443" || str_eq text "//example.org:443"
      then ok site
      else err "parse";
  hostname = λ u. "example.org";
  url_text = λ u. "https://example.org:443";
  split_host_port =
      λ text. if str_eq text "example.org:443" then ok ("example.org", "443") else err "port";
  join_host_port = λ name port. name +s ":" +s port;
  parse_addr = λ text. if str_eq text "9.9.9.9" then some quad9 else none;
}

abbrev sample_answer : Result String (List Ip)
sample_answer = ok (web ∷ quad9 ∷ [])

abbrev strict : EgressPolicy
strict = record { allow_private = false }

some_inj : (a b : Ip) → some a ≡ some b → a ≡ b
some_inj a b h = grind arith

parse_bits :
    (text : String) (ip : Ip) → sample_parsers.parse_addr text ≡ some ip → InBits ip.address
parse_bits text ip =
    if_elim (λ o. o ≡ some ip → InBits ip.address) (str_eq text "9.9.9.9") (some quad9) none
      (λ e h. subst (λ i. InBits i.address) (some_inj quad9 ip h) (ground arith))
      (λ e h. grind arith)

answer_bits : (ips : List Ip) → sample_answer ≡ ok ips → All (λ ip. InBits ip.address) ips
answer_bits ips h =
    subst (All (λ ip. InBits ip.address)) (ok_inj h) (ground arith, (ground arith, tt))

is_unsafe_address-IsPublic_example :
    (is_unsafe_address (v6 0xffff0a000001 false) ≡ false) ↔ IsPublic (v6 0xffff0a000001 false)
is_unsafe_address-IsPublic_example =
    is_unsafe_address-IsPublic (v6 0xffff0a000001 false) (ground arith)

safe_dial_context-IsPublic_example :
    (name : String) × (port : String) × (ip : Ip) × (rest : List Ip)
    × (sample_parsers.split_host_port "example.org:443" ≡ ok (name, port))
    × ("2600::1:443" ≡ sample_parsers.join_host_port ip.text port)
    × IsPublic ip.address
    × (((sample_parsers.parse_addr name ≡ some ip) × (rest ≡ []))
        ⊎ (sample_answer ≡ ok (ip ∷ rest)))
unfolding safe_dial_context is_unsafe_address
safe_dial_context-IsPublic_example =
    safe_dial_context-IsPublic sample_parsers strict sample_answer "example.org:443" "2600::1:443"
      refl parse_bits answer_bits refl

http_url-IsPublic_example :
    (found : List Ip) × (sample_parsers.parse_url (trim_space " https://example.org:443") ≡ ok site)
    × (byte_length (codes (trim_space " https://example.org:443")) ≤ 4096)
    × IsAccepted site
    × All (λ ip. IsPublic ip.address) found
    × StandsFor sample_parsers sample_answer (trim is_bracket (trim_space "example.org")) found
unfolding http_url is_unsafe_address trim_space trim
http_url-IsPublic_example =
    http_url-IsPublic sample_parsers sample_answer " https://example.org:443" strict site parse_bits
      answer_bits refl refl

-- An address with a zone is compared with no blocked range: a site-local one passes.
zone_test : is_unsafe_address (v6 0xfec00000000000000000000000000001 true) ≡ false
unfolding is_unsafe_address
zone_test = refl

no_zone_test : is_unsafe_address (v6 0xfec00000000000000000000000000001 false) ≡ true
unfolding is_unsafe_address
no_zone_test = refl

tcp_address_test : tcp_address sample_parsers "example.org:443 " (pos 25) ≡ ok "example.org:25"
unfolding tcp_address trim_space format_int
tcp_address_test = refl

ssl_test : ssl_address_and_server_name sample_parsers "9.9.9.9" ≡ ok ("9.9.9.9:443", "9.9.9.9")
unfolding ssl_address_and_server_name trim_space
ssl_test = refl
