-- ===== src/DomainLookup/Exchange.antt =====
-- queryWHOIS, New and firstError of internal/adapters/domainlookup/domainlookup.go. How a connection goes is
-- `Connection`: the error of dialling and of writing, the bytes that the server sends, the error of
-- reading them. `text_of` is the conversion of bytes to a string.
use webguard_instance.Base.{
  ℕ, zero, suc, ◌≤◌, ◌≡◌, refl, ℤ, pos, leb_ℤ, String, Option, none, some, List, [], ◌∷◌, length,
  arith, if◌then◌else◌, ◌+s◌,
}
use webguard_instance.Base.Result.{Result, ok, err}
use webguard_instance.DomainLookup.Lookup.{Servers}
use webguard_instance.DomainLookup.Rdap.{RdapReply}

pub record Connection : Type 0 where
  pub dial_error : Option String
  pub write_error : Option String
  pub bytes : List ℕ
  pub read_error : Option String

push : ℕ → Result String (List ℕ) → Result String (List ℕ)
push b (ok bs) = ok (b ∷ bs)
push b (err e) = err e

-- io.ReadAll of an io.LimitReader: an error that comes after the limit is not met.
unfoldable pub read_limited : ℕ → List ℕ → Option String → Result String (List ℕ)
unfolding push
read_limited zero bs e = ok []
read_limited (suc n) [] none = ok []
read_limited (suc n) [] (some e) = err e
read_limited (suc n) (b ∷ bs) e = push b (read_limited n bs e)

abbrev pub max_whois_bytes : ℕ
max_whois_bytes = 2097152

pub record WhoisExchange : Type 0 where
  pub result : Result String (List ℕ)
  -- the address that is dialled, and the text to write to it
  pub dialed : String
  pub written : String

abbrev or_next : Option String → Result String (List ℕ) → Result String (List ℕ)
or_next none next = next
or_next (some e) next = err e

unfoldable pub query_whois :
    (String → String → String) → Connection → String → String → WhoisExchange
unfolding read_limited
query_whois join_host_port c server query = record {
  result =
      or_next c.dial_error
        (or_next c.write_error (read_limited max_whois_bytes c.bytes c.read_error));
  dialed = join_host_port server "43";
  written = elim c.dial_error [ none ↦ query +s "\r\n" | some e ↦ "" ];
}

-- The timeout of the HTTP client and of the dialer, in nanoseconds.
unfoldable pub new_lookup_timeout : ℤ → ℤ
new_lookup_timeout timeout = if leb_ℤ timeout (pos 0) then pos 10000000000 else timeout

unfoldable pub first_error : List (Option String) → Option String
first_error [] = none
first_error (none ∷ es) = first_error es
first_error (some e ∷ es) = some e

text_or_none : (List ℕ → String) → Result String (List ℕ) → Option String
text_or_none text_of (ok bytes) = some (text_of bytes)
text_or_none text_of (err e) = none

-- The servers that a lookup asks, when `connect` says how the connection for a server and a query goes.
unfoldable pub servers_of :
    (String → String → String)
    → (List ℕ → String)
    → (String → String → Connection)
    → (String → RdapReply)
    → Servers
unfolding query_whois text_or_none
servers_of join_host_port text_of connect rdap = record {
  rdap = rdap;
  whois = λ server query.
      text_or_none text_of (query_whois join_host_port (connect server query) server query).result;
}

pushed :
    (n b : ℕ) (tail : Result String (List ℕ)) (read : List ℕ)
    → ((rest : List ℕ) → tail ≡ ok rest → length rest ≤ n)
    → push b tail ≡ ok read
    → length read ≤ suc n
unfolding push
pushed n b (ok rest) read few h = ground (arith, few rest refl)
pushed n b (err text) read few h = absurd (ground arith)

read_limited_bounded :
    (n : ℕ) (bs : List ℕ) (e : Option String) (read : List ℕ)
    → read_limited n bs e ≡ ok read
    → length read ≤ n
unfolding read_limited push
read_limited_bounded zero bs e read h = ground arith
read_limited_bounded (suc n) [] none read h = ground arith
read_limited_bounded (suc n) [] (some text) read h = absurd (ground arith)
read_limited_bounded (suc n) (b ∷ bs) e read h =
    pushed n b (read_limited n bs e) read (read_limited_bounded n bs e) h

read_next :
    (before : Option String) (next : Result String (List ℕ)) (bytes : List ℕ)
    → or_next before next ≡ ok bytes
    → next ≡ ok bytes
read_next none next bytes h = h
read_next (some e) next bytes h = absurd (ground arith)

-- However much a server sends, no more than the limit is read.
query_whois_bounded :
    (join_host_port : String → String → String) (c : Connection) (server query : String)
    (bytes : List ℕ)
    → (query_whois join_host_port c server query).result ≡ ok bytes
    → length bytes ≤ max_whois_bytes
unfolding query_whois
query_whois_bounded join_host_port c server query bytes h =
    read_limited_bounded max_whois_bytes c.bytes c.read_error bytes
      (read_next c.write_error _ bytes (read_next c.dial_error _ bytes h))
