-- ===== src/Runner/Dns/System.antt =====
-- systemDNSRecordResolver of internal/adapters/runner/dns_record_checker.go. What it takes of the library
-- miekg/dns, of net and of /etc/resolv.conf is in `Resolution`: the numbers of record types, the forms
-- of names and addresses, the file, and the answers to an exchange over UDP and over TCP. The address in
-- an A or AAAA record stands with the text of its String method.
pub mod Answers
use webguard_instance.Base.{
  ℕ, ℤ, pos, String, Bool, true, false, Option, none, some, List, [], ◌∷◌, codes, upper, trim_space,
  ◌==◌, if◌then◌else◌, ◌+s◌,
}
use webguard_instance.Base.Chars.{join}
use webguard_instance.Base.Result.{Result, ok, err}
use webguard_instance.Monitor.Numbers.{format_int}

pub data Rdata : Type 0 where
  a aaaa cname ns : String → Rdata
  mx : ℕ → String → Rdata
  txt : List String → Rdata
  soa : String → String → ℕ → ℕ → ℕ → ℕ → ℕ → Rdata
  caa : ℕ → String → String → Rdata
  other : Rdata

pub record ResourceRecord : Type 0 where
  pub rrtype : ℕ
  pub rdata : Rdata

pub record Message : Type 0 where
  pub truncated : Bool
  pub rcode : ℕ
  pub answer : List ResourceRecord

-- How an exchange ends.
pub data Exchange : Type 0 where
  fails : String → Exchange
  gives_nil : Exchange
  gives : Message → Exchange

pub record ClientConfig : Type 0 where
  pub servers : List String
  pub port : String

pub record Resolution : Type 0 where
  pub string_to_type : List ℕ → Option ℕ
  pub fqdn : String → String
  pub join_host_port : String → String → String
  pub rcode_to_string : ℕ → String
  pub config : Option ClientConfig
  pub udp : Exchange
  pub tcp : Exchange

-- A question put to a server, with recursion desired.
pub record Query : Type 0 where
  pub net : String
  pub server : String
  pub name : String
  pub qtype : ℕ
  pub timeout : ℤ

abbrev number : ℕ → String
number n = format_int (pos n)

-- The switch over the kinds of a record: its value, if the kind is known.
unfoldable pub record_value : Rdata → Option String
record_value (a text) = some text
record_value (aaaa text) = some text
record_value (cname target) = some target
record_value (ns name) = some name
record_value (mx preference name) = some (number preference +s " " +s name)
record_value (txt texts) = some (join "" texts)
record_value (soa name mbox serial refresh retry expire minttl) = some (
    join " " (
      name
      ∷ mbox
      ∷ number serial
      ∷ number refresh
      ∷ number retry
      ∷ number expire
      ∷ number minttl
      ∷ []))
record_value (caa flag tag value) = some (number flag +s " " +s tag +s " " +s value)
record_value other = none

abbrev add_value : Option String → List String → List String
add_value none values = values
add_value (some value) values = value ∷ values

-- The loop over the answer.
unfoldable pub record_values : ℕ → List ResourceRecord → List String
unfolding record_value
record_values qtype [] = []
record_values qtype (r ∷ rs) =
    let rest = record_values qtype rs in
    if r.rrtype == qtype then add_value (record_value r.rdata) rest else rest

some_values : List String → Result String (List String)
some_values [] = err "DNS record not found"
some_values (v ∷ vs) = ok (v ∷ vs)

-- What is made of the last exchange.
read_response : Resolution → ℕ → Exchange → Result String (List String)
unfolding record_values some_values
read_response n qtype (fails e) = err e
read_response n qtype gives_nil = err "empty DNS response"
read_response n qtype (gives m) =
    if m.rcode == 0
    then some_values (record_values qtype m.answer)
    else err ("DNS response code " +s n.rcode_to_string m.rcode)

-- The result, and the questions that were put.
pub record Resolved : Type 0 where
  pub result : Result String (List String)
  pub queries : List Query

unfoldable pub was_truncated : Exchange → Bool
was_truncated (gives m) = m.truncated
was_truncated _ = false

unfoldable pub query_over : Resolution → String → String → ℕ → ℤ → String → Query
query_over n server target qtype timeout net = record {
  net = net;
  server = server;
  name = n.fqdn (trim_space target);
  qtype = qtype;
  timeout = timeout;
}

ask : Resolution → (String → Query) → ℕ → Resolved
unfolding read_response was_truncated
ask n query qtype =
    if was_truncated n.udp
    then record { result = read_response n qtype n.tcp; queries = query "udp" ∷ query "tcp" ∷ [] }
    else record { result = read_response n qtype n.udp; queries = query "udp" ∷ [] }

-- The first server of /etc/resolv.conf.
unfoldable pub server_of : Resolution → Option ClientConfig → Option String
server_of n none = none
server_of n (some c) = elim c.servers [
  | [] ↦ none
  | server ∷ servers ↦ some (n.join_host_port server c.port)
]

ask_server : Resolution → String → ℕ → ℤ → Option String → Resolved
unfolding ask query_over
ask_server n target qtype timeout none = record {
  result = err "DNS resolver configuration unavailable";
  queries = [];
}
ask_server n target qtype timeout (some server) =
    ask n (query_over n server target qtype timeout) qtype

ask_for : Resolution → String → ℤ → Option ℕ → Resolved
unfolding ask_server server_of
ask_for n target timeout none = record { result = err "unsupported DNS record type"; queries = [] }
ask_for n target timeout (some qtype) = ask_server n target qtype timeout (server_of n n.config)

unfoldable pub resolve : Resolution → String → String → ℤ → Resolved
unfolding ask_for trim_space
resolve n target record_type timeout =
    ask_for n target timeout (n.string_to_type (upper (codes (trim_space record_type))))
