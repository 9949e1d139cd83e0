-- ===== src/Runner/Dns/System/Answers.antt =====
-- When the system's resolver has values, and what it asks for them.
use webguard_instance.Base.{
  ℕ, String, true, false, some, List, [], ◌≡◌, ◌≢◌, ◌⊎◌, codes, upper, trim_space, if◌then◌else◌,
}
use webguard_instance.Runner.Dns.System.{
  Resolution, Message, Exchange, gives, record_values, was_truncated, server_of,
}

-- The message is the last answer: over TCP if the answer over UDP was truncated.
abbrev pub LastAnswer : Resolution → Message → Type 0
LastAnswer n m =
    ((n.udp ≡ gives m) × (m.truncated ≡ false)) ⊎ ((was_truncated n.udp ≡ true) × (n.tcp ≡ gives m))

-- The values are those of a successful answer of the first server to the question for the type.
pub record Answered (n : Resolution) (record_type : String) (values : List String) : Type 0 where
  pub qtype : ℕ
  pub server : String
  pub message : Message
  pub known : n.string_to_type (upper (codes (trim_space record_type))) ≡ some qtype
  pub configured : server_of n n.config ≡ some server
  pub last : LastAnswer n message
  pub success : message.rcode ≡ 0
  pub read : record_values qtype message.answer ≡ values
  pub found : values ≢ []

-- The messages that may be read as values.
record Read (qtype : ℕ) (e : Exchange) (values : List String) : Type 0 where
  message : Message
  given : e ≡ gives message
  success : message.rcode ≡ 0
  read : record_values qtype message.answer ≡ values
  found : values ≢ []

-- The exchange whose answer is read.
last_exchange : Resolution → Exchange
last_exchange n = if was_truncated n.udp then n.tcp else n.udp
